-- ===== src/Worker/Heartbeat.antt =====
-- worker/heartbeat.py: lease renewal. A round of the background thread is one step; the rounds that
-- the thread makes are a list, since the clock and the database decide them.
use reliable_ai_agents.Prelude.{
  ℕ, ◌+◌, ◌*◌, String, str_eq, Bool, true, false, ◌&&◌, Option, none, some, List, [], ◌∷◌,
  if◌then◌else◌, ◌==◌, exists_where, update_where,
}
use reliable_ai_agents.Schema.{Task, Db, is_running}

abbrev pub owned_by : String → Option String → Bool
owned_by worker_id none = false
owned_by worker_id (some owner) = str_eq owner worker_id

-- WHERE id = task AND lease_owner = worker AND status = 'running', the fence of every worker write.
unfoldable pub fenced : ℕ → String → Task → Bool
fenced task_id worker_id t =
    t.id == task_id && (owned_by worker_id t.lease_owner && is_running t.status)

pub record Heartbeat : Type 0 where
  pub task_id : ℕ
  pub worker_id : String
  pub ttl : ℕ
  pub lost : Bool

unfoldable pub start : ℕ → String → ℕ → Heartbeat
start task_id worker_id ttl = record {
  task_id = task_id;
  worker_id = worker_id;
  ttl = ttl;
  lost = false;
}

abbrev pub extend : ℕ → ℕ → Task → Task
extend now ttl t = record t { lease_expires = some (now + ttl * 1000); updated_at = now }

-- A round reaches the database at a time, or the database call raises and is logged. Between two
-- rounds other processes write.
pub data Round : Type 0 where
  renewal : ℕ → Round
  blip : Round
  gap : (Db → Db) → Round

-- One statement of `_run`; the flag says whether any row was renewed.
unfoldable pub renew : ℕ → Heartbeat → Db → Db × Bool
unfolding fenced
renew now hb db = (
  record db { tasks = update_where (fenced hb.task_id hb.worker_id) (extend now hb.ttl) db.tasks },
  exists_where (fenced hb.task_id hb.worker_id) db.tasks,
)

-- The loop of `_run` over its rounds: it stops at the first renewal of no row.
unfoldable pub beat : List Round → Heartbeat → Db → Heartbeat × Db
unfolding renew
beat [] hb db = (hb, db)
beat (blip ∷ rest) hb db = beat rest hb db
beat (gap others ∷ rest) hb db = beat rest hb (others db)
beat (renewal now ∷ rest) hb db =
    let (db', renewed) = renew now hb db in
    let go_on = beat rest hb db' in if renewed then go_on else (record hb { lost = true }, db')
