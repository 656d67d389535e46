-- ===== src/Tests/Flags.antt =====
-- A process whose flags an operator changed after its last read.
use reliable_ai_agents.Prelude.{ℕ, ◌≤◌, ◌≡◌, refl, false, some, [], arith, if◌then◌else◌, leb}
use reliable_ai_agents.Json.{bool}
use reliable_ai_agents.Schema.{Db}
use reliable_ai_agents.Runtime.{get, Cache, flags, set_config, invalidate}
use reliable_ai_agents.Runtime.Stale.{Reads, starts, reads, Seen, flags-Seen, flags-set_config}
use reliable_ai_agents.Tests.Samples.{empty_db}

-- Retries are switched off at 5000, escalation at 6000.
abbrev off_db : Db
off_db = record empty_db { runtime_config = set_config "retries_enabled" (bool false) [] }

abbrev both_db : Db
both_db = record off_db {
  runtime_config = set_config "escalation_enabled" (bool false) off_db.runtime_config;
}

abbrev db_at : ℕ → Db
db_at at = if leb 6000 at then both_db else (if leb 5000 at then off_db else empty_db)

abbrev cache : Cache
cache = (flags false 4900 (db_at 4900) invalidate).0

cache-Reads : Reads db_at 4900 cache
cache-Reads = reads false 4900 starts (omega arith)

flags-Seen_example : (seen : ℕ) × Seen db_at false 6000 (flags false 6000 (db_at 6000) cache).1 seen
flags-Seen_example = flags-Seen db_at false 6000 cache-Reads (omega arith)

written-off : (db_at 5000).runtime_config ≡ set_config "retries_enabled" (bool false) []
written-off = refl

stays :
    (at : ℕ)
    → 5000 ≤ at
    → get "retries_enabled" (db_at at).runtime_config
      ≡ get "retries_enabled" (db_at 5000).runtime_config
unfolding get set_config
stays at late = ground (arith, late)

flags-set_config_example :
    get "retries_enabled" (flags false 7300 (db_at 7300) cache).1 ≡ some (bool false)
flags-set_config_example =
    flags-set_config db_at false 5000 7300 "retries_enabled" (bool false) [] cache-Reads
      (omega arith) written-off stays (omega arith)
