-- ===== src/System/Steps.antt =====
-- The runtime as a transition system. A state is the database with the rows that claims have handed
-- out and workers may still act on; a step is one transaction of any process, so that a path is an
-- interleaving of workers, orchestrators and API calls, crashes being processes that step no more.
use reliable_ai_agents.Prelude.{ℕ, ◌≡◌, sym, subst, String, Bool, some, List, Memᴰ, arith}
use reliable_ai_agents.Json.{Json}
use reliable_ai_agents.Schema.{Tier, Task, Db}
use reliable_ai_agents.Failures.{TaskFailure}
use reliable_ai_agents.Runtime.{Flags}
use reliable_ai_agents.Registry.{Registry}
use reliable_ai_agents.Worker.Claim.{claim_one}
use reliable_ai_agents.Worker.Heartbeat.{Heartbeat, renew}
use reliable_ai_agents.Worker.Checkpoint.{checkpoint_success, report_failure}
use reliable_ai_agents.Orchestrator.Reaper.{reap}
use reliable_ai_agents.Orchestrator.Queue.{repair_stalled, finalise_agents}
use reliable_ai_agents.Orchestrator.Classify.{Counts, classify}
use reliable_ai_agents.Orchestrator.Ledger.{begin, settle, release, reconcile}
use reliable_ai_agents.Api.{Submission, submit_agents, seed, ConfigChaos, chaos_config}
use reliable_ai_agents.System.Ordered.{IsOrdered}
use reliable_ai_agents.System.Moves.{
  Ordered, with_claim, claim_one-Ordered, renew-Ordered, report_failure-Ordered, reap-Ordered,
  finalise_agents-Ordered,
}
use reliable_ai_agents.System.Commit.{checkpoint_success-Ordered}
use reliable_ai_agents.System.Routes.{classify-Ordered}
use reliable_ai_agents.System.Inserts.{Fresh, repair_stalled-Ordered}
use reliable_ai_agents.System.Submits.{submit_agents-Ordered, seed-Ordered}

pub record Sys : Type 0 where
  pub db : Db
  pub held : List Task

-- What an INSERT draws is new: `Fresh` is the law of gen_random_uuid that a step relies on. The
-- `uuid` of the API's two inserts and of the repair are such.
pub data Step (s : Sys) : Sys → Type 0 where
  claims :
      (locked : ℕ → Bool) (now : ℕ) (pool_tier worker_id : String) (ttl : ℕ)
      → Step s (record {
        db = (claim_one locked now pool_tier worker_id ttl s.db).0;
        held = with_claim (claim_one locked now pool_tier worker_id ttl s.db).1 s.held;
      })
  renews : (now : ℕ) (hb : Heartbeat) → Step s (record s { db = (renew now hb s.db).0 })
  commits :
      (task : Task) (result : Json) (cost tokens started : ℕ) (worker_id : String) (now : ℕ)
      → Memᴰ task s.held
      → Step s (record s {
        db = (checkpoint_success task result cost tokens started worker_id now s.db).0;
      })
  reports :
      (task : Task) (failure : TaskFailure) (started : ℕ) (worker_id : String) (now : ℕ)
      → Step s (record s { db = report_failure task failure started worker_id now s.db })
  reaps :
      (locked : ℕ → Bool) (batch : ℕ) (jitter : ℕ → ℕ) (now : ℕ)
      → Step s (record s { db = (reap locked batch jitter now s.db).0 })
  repairs :
      (locked : ℕ → Bool) (batch : ℕ) (uuid : ℕ → ℕ) (ladder : List Tier) (now : ℕ) (db : Db)
      (rows : List Task)
      → Fresh uuid s.db
      → repair_stalled locked batch uuid ladder now s.db ≡ some (db, rows)
      → Step s (record s { db = db })
  finalises :
      (locked : ℕ → Bool) (batch now : ℕ)
      → Step s (record s { db = (finalise_agents locked batch now s.db).0 })
  classifies :
      (locked : ℕ → Bool) (limit : ℕ) (ladder : List Tier) (flags : Flags) (now : ℕ) (db : Db)
      (counts : Counts)
      → classify locked limit ladder flags now s.db ≡ some (db, counts)
      → Step s (record s { db = db })
  submits :
      (max_active : ℕ) (task_defs : Registry) (ladder : List Tier) (flags : Flags) (uuid : ℕ → ℕ)
      (body : Submission) (now : ℕ)
      → Fresh uuid s.db
      → Step s
          (record s { db = (submit_agents max_active task_defs ladder flags uuid body now s.db).0 })
  seeds :
      (uuid : ℕ → ℕ) (n : ℕ) (plan : List ℕ) (now : ℕ)
      → Fresh uuid s.db
      → Step s (record s { db = (seed uuid n plan now s.db).0 })
  begins :
      (key agent_id seq : ℕ) (action_type : String) (now : ℕ)
      → Step s (record s { db = (begin key agent_id seq action_type now s.db).0 })
  settles :
      (key : ℕ) (result : Json) (now : ℕ)
      → Step s (record s { db = (settle key result now s.db).0 })
  releases : (key : ℕ) → Step s (record s { db = (release key s.db).0 })
  reconciles :
      (locked : ℕ → Bool) (batch age now : ℕ)
      → Step s (record s { db = (reconcile locked batch age now s.db).0 })
  configures :
      (ladder : List Tier) (body : ConfigChaos)
      → Step s (record s { db = (chaos_config ladder body s.db).0 })

pub data Reach (s : Sys) : Sys → Type 0 where
  here : Reach s s
  next : {t u : Sys} → Reach s t → Step t u → Reach s u

abbrev pub IsOrderedSys : Sys → Type 0
IsOrderedSys s = Ordered s.db s.held

-- A write that leaves agents and tasks alone.
same-Ordered :
    (db db' : Db) (held : List Task)
    → db'.agents ≡ db.agents
    → db'.tasks ≡ db.tasks
    → Ordered db held
    → Ordered db' held
same-Ordered db db' held ea et ordered =
    subst (λ rows. IsOrdered rows db'.tasks held) (sym ea)
      (subst (λ ts. IsOrdered db.agents ts held) (sym et) ordered)

begin-Ordered :
    (key agent_id seq : ℕ) (action_type : String) (now : ℕ) (db : Db) (held : List Task)
    → Ordered db held
    → Ordered (begin key agent_id seq action_type now db).0 held
unfolding begin
begin-Ordered key agent_id seq action_type now db held ordered =
    same-Ordered db (begin key agent_id seq action_type now db).0 held (ground arith) (ground arith)
      ordered

configure-Ordered :
    (ladder : List Tier) (body : ConfigChaos) (db : Db) (held : List Task)
    → Ordered db held
    → Ordered (chaos_config ladder body db).0 held
unfolding chaos_config
configure-Ordered ladder body db held ordered =
    same-Ordered db (chaos_config ladder body db).0 held (ground arith) (ground arith) ordered

Step-IsOrdered : {s t : Sys} → Step s t → IsOrderedSys s → IsOrderedSys t
unfolding settle release reconcile
Step-IsOrdered {s} (claims locked now pool_tier worker_id ttl) h =
    claim_one-Ordered locked now pool_tier worker_id ttl s.db s.held h
Step-IsOrdered {s} (renews now hb) h = renew-Ordered s.db s.held h now hb
Step-IsOrdered {s} (commits task result cost tokens started worker_id now m) h =
    checkpoint_success-Ordered task result cost tokens started worker_id now s.db s.held h
      (h.held_known task m)
Step-IsOrdered {s} (reports task failure started worker_id now) h =
    report_failure-Ordered s.db s.held h task failure started worker_id now
Step-IsOrdered {s} (reaps locked batch jitter now) h =
    reap-Ordered s.db s.held h locked batch jitter now
Step-IsOrdered {s} (repairs locked batch uuid ladder now db rows fresh e) h =
    repair_stalled-Ordered locked batch uuid ladder now s.db db rows s.held fresh h e
Step-IsOrdered {s} (finalises locked batch now) h =
    finalise_agents-Ordered s.db s.held h locked batch now
Step-IsOrdered {s} (classifies locked limit ladder flags now db counts e) h =
    classify-Ordered ladder flags now s.held locked limit s.db db counts h e
Step-IsOrdered {s} (submits max_active task_defs ladder flags uuid body now fresh) h =
    submit_agents-Ordered max_active task_defs ladder flags uuid body now s.db s.held fresh h
Step-IsOrdered {s} (seeds uuid n plan now fresh) h =
    seed-Ordered uuid n plan now s.db s.held fresh h
Step-IsOrdered {s} (begins key agent_id seq action_type now) h =
    begin-Ordered key agent_id seq action_type now s.db s.held h
Step-IsOrdered (settles key result now) h = h
Step-IsOrdered (releases key) h = h
Step-IsOrdered (reconciles locked batch age now) h = h
Step-IsOrdered {s} (configures ladder body) h = configure-Ordered ladder body s.db s.held h

-- Whatever transactions follow, in whatever order, the invariant holds after them.
pub Reach-IsOrdered : {s t : Sys} → Reach s t → IsOrderedSys s → IsOrderedSys t
Reach-IsOrdered here h = h
Reach-IsOrdered (next r st) h = Step-IsOrdered st (Reach-IsOrdered r h)
