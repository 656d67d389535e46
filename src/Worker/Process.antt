-- ===== src/Worker/Process.antt =====
-- worker/main.py: `process_one`, from the claim to the end of one task. Between two transactions
-- other processes write: `meanwhile i` is what they did to the database at gap `i`. Gap 4 is the run
-- of the task between `begin` and `settle`, the renewals of this worker's own heartbeat in that time
-- included; `rounds` are the rounds of the heartbeat after that, with the writes of others between
-- them.
use reliable_ai_agents.Prelude.{ℕ, String, Bool, Option, none, some, List, if◌then◌else◌}
use reliable_ai_agents.Schema.{Agent, Tier, Task, Detail, Db}
use reliable_ai_agents.Failures.{poison_failure}
use reliable_ai_agents.Registry.{Registry}
use reliable_ai_agents.Worker.Claim.{claim_one}
use reliable_ai_agents.Worker.Heartbeat.{Heartbeat, Round, start, beat}
use reliable_ai_agents.Worker.Checkpoint.{load_agent, checkpoint_success, report_failure}
use reliable_ai_agents.Worker.Executor.{Execution, finished, failed, broken, Labels, run_task}

-- What the loop of `main` sees: an empty queue, a task handled, an exception.
pub data Progress : Type 0 where
  idle worked raised : Progress

-- One call's parameters and what its environment does.
pub record Setting : Type 0 where
  pub pool_tier : String
  pub worker_id : String
  pub ttl : ℕ
  pub registry : Registry
  pub ladder : List Tier
  pub locked : ℕ → Bool
  pub claimed_at : ℕ
  pub started : ℕ
  pub finished_at : ℕ
  pub rounds : List Round
  pub meanwhile : ℕ → Db → Db

-- `hb.lost` is read first: a worker that lost its lease writes nothing.
unfoldable pub finish : Setting → Task → Execution → Heartbeat → Db → Db × Progress
finish s task (finished result cost tokens duplicate) hb db = if hb.lost then (db, worked) else (
  (checkpoint_success task result cost tokens s.started s.worker_id s.finished_at db).0,
  worked,
)
finish s task (failed failure) hb db =
    (report_failure task failure s.started s.worker_id s.finished_at db, worked)
finish s task broken hb db = (db, raised)

module _ (sha256 : ℕ × ℕ × String → ℕ) (label : Labels) where
  unfoldable pub run_claimed : Setting → Task → Option Agent → Db → Db × Progress
  unfolding finish
  run_claimed s task none db = (
    report_failure task (poison_failure Detail.agent_vanished) s.started s.worker_id s.finished_at
        db,
    worked,
  )
  run_claimed s task (some agent) db =
      let trace =
        run_task sha256 label s.registry s.ladder task agent (s.meanwhile 4) s.started db in
      let (hb, db') = beat s.rounds (start task.id s.worker_id s.ttl) (s.meanwhile 1 trace.db) in
      finish s task trace.execution hb (s.meanwhile 2 db')

  unfoldable pub after_claim : Setting → Db × Option Task → Db × Progress
  unfolding run_claimed
  after_claim s (db, none) = (db, idle)
  after_claim s (db, some task) =
      let now_db = s.meanwhile 0 db in run_claimed s task (load_agent task.agent_id now_db) now_db

  unfoldable pub process_one : Setting → Db → Db × Progress
  unfolding after_claim
  process_one s db =
      after_claim s (claim_one s.locked s.claimed_at s.pool_tier s.worker_id s.ttl db)
