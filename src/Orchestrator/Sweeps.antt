-- ===== src/Orchestrator/Sweeps.antt =====
-- orchestrator/main.py: `tick`, one pass of every sweep. Each sweep is a transaction of its own; one
-- that raises has rolled back, is logged, and the pass goes on. Before each sweep other processes
-- write.
pub mod Unexpired
pub mod Cleared
use reliable_ai_agents.Prelude.{
  ℕ, suc, ◌*◌, Bool, not, ◌&&◌, ◌==◌, Option, none, some, List, [], ◌∷◌, if◌then◌else◌, length,
}
use reliable_ai_agents.Schema.{Tier, Db}
use reliable_ai_agents.Runtime.{Flags}
use reliable_ai_agents.Orchestrator.Reaper.{reap}
use reliable_ai_agents.Orchestrator.Queue.{repair_stalled, finalise_agents}
use reliable_ai_agents.Orchestrator.Classify.{classify}
use reliable_ai_agents.Orchestrator.Ledger.{audit, reconcile, reconcile_after}

-- The names of the loop's tuple.
pub data Sweep : Type 0 where
  reclaimed repaired finalised routed stranded unresolved : Sweep

abbrev pub sweeps : List Sweep
sweeps = reclaimed ∷ repaired ∷ finalised ∷ routed ∷ stranded ∷ unresolved ∷ []

pub record TickCounts : Type 0 where
  pub reclaimed : ℕ
  pub repaired : ℕ
  pub finalised : ℕ
  pub retry : ℕ
  pub promote : ℕ
  pub dlq : ℕ
  pub stranded : ℕ
  pub unresolved : ℕ

abbrev pub no_counts : TickCounts
no_counts = record {
  reclaimed = 0;
  repaired = 0;
  finalised = 0;
  retry = 0;
  promote = 0;
  dlq = 0;
  stranded = 0;
  unresolved = 0;
}

-- The lease time in seconds and the batch sizes of the process, what the database decides, what the
-- flags and the ladder read as, which sweeps lose their connection, and what other processes write
-- before each sweep.
pub record Surroundings : Type 0 where
  pub lease_ttl : ℕ
  pub batch : ℕ
  pub limit : ℕ
  pub locked : ℕ → Bool
  pub jitter : ℕ → ℕ
  pub uuid : ℕ → ℕ
  pub ladder : List Tier
  pub flags : Flags
  pub now : ℕ
  pub down : Sweep → Bool
  pub meanwhile : Sweep → Db → Db

-- `none` is a sweep that raises by itself.
unfoldable pub run_sweep : Surroundings → Sweep → Db → TickCounts → Option (Db × TickCounts)
unfolding audit reconcile
run_sweep env reclaimed db counts =
    let r = reap env.locked env.batch env.jitter env.now db in
    some (r.0, record counts { reclaimed = length r.1 })
run_sweep env repaired db counts =
    elim (repair_stalled env.locked env.batch env.uuid env.ladder env.now db) [
      | none ↦ none
      | some r ↦ some (r.0, record counts { repaired = length r.1 })
    ]
run_sweep env finalised db counts =
    let r = finalise_agents env.locked env.batch env.now db in
    some (r.0, record counts { finalised = length r.1 })
run_sweep env routed db counts =
    elim (classify env.locked env.limit env.ladder env.flags env.now db) [
      | none ↦ none
      | some r ↦
          some
            (r.0, record counts { retry = r.1.retries; promote = r.1.promotions; dlq = r.1.dead })
    ]
run_sweep env stranded db counts =
    some (db, record counts { stranded = audit env.lease_ttl env.now db })
run_sweep env unresolved db counts =
    let r = reconcile env.locked env.batch (env.lease_ttl * reconcile_after) env.now db in
    some (r.0, record counts { unresolved = length r.1 })

abbrev pub or_keep : Db × TickCounts → Option (Db × TickCounts) → Db × TickCounts
or_keep before none = before
or_keep before (some after) = after

-- try … except Exception: continue
unfoldable pub attempt : Surroundings → Sweep → Db × TickCounts → Db × TickCounts
unfolding run_sweep
attempt env s before =
    if env.down s then before else or_keep before (run_sweep env s before.0 before.1)

unfoldable pub pass : Surroundings → List Sweep → Db × TickCounts → Db × TickCounts
unfolding attempt
pass env [] (db, counts) = (db, counts)
pass env (s ∷ ss) (db, counts) = pass env ss (attempt env s (env.meanwhile s db, counts))

unfoldable pub tick : Surroundings → Db → Db × TickCounts
unfolding pass
tick env db = pass env sweeps (db, no_counts)

abbrev pub any_count : TickCounts → Bool
any_count c = not (
    c.reclaimed == 0
    && (c.repaired == 0
        && (c.finalised == 0
            && (c.retry == 0
                && (c.promote == 0 && (c.dlq == 0 && (c.stranded == 0 && c.unresolved == 0)))))))

-- The loop of `main` until the shutdown flag is seen: a pass, and a sleep in which other processes
-- write, the i-th of them `meanwhile i`. Returns the counts that were logged, which are those of the
-- passes that did something.
unfoldable pub run : (ℕ → Db → Db) → ℕ → List Surroundings → Db → Db × List TickCounts
unfolding tick
run meanwhile i [] db = (db, [])
run meanwhile i (env ∷ rest) db =
    let (db', counts) = tick env db in
    let (end_db, logged) = run meanwhile (suc i) rest (meanwhile i db') in
    (end_db, if any_count counts then counts ∷ logged else logged)
