-- ===== src/Worker/Executor.antt =====
-- worker/executor.py: runs one task definition behind the ledger.
pub mod Guard
use reliable_ai_agents.Prelude.{
  ℕ, String, Bool, true, false, Option, none, some, List, [], if◌then◌else◌,
}
use reliable_ai_agents.Json.{Json, object, end, truthy}
use reliable_ai_agents.Schema.{Agent, Tier, Task, Detail, Db}
use reliable_ai_agents.Tiers.{cost_of}
use reliable_ai_agents.Failures.{TaskFailure, infra_failure, poison_failure}
use reliable_ai_agents.Protocol.{TaskContext, TaskDef, Run, returns, fails, crashes}
use reliable_ai_agents.Registry.{Registry, get}
use reliable_ai_agents.Registry.Discover.{Import, discover}
use reliable_ai_agents.Orchestrator.Ledger.{
  Verdict, proceed, already, unsettled, action_id, begin, settle,
}

-- What `run_task` returns or raises. `broken` is an exception that is no TaskFailure: the KeyError
-- of `cost_of`.
pub data Execution : Type 0 where
  finished : Json → ℕ → ℕ → Bool → Execution
  failed : TaskFailure → Execution
  broken : Execution

-- The database after the call, whether `task_def.run` was called, and what came of it.
pub record Trace : Type 0 where
  pub db : Db
  pub acted : Bool
  pub execution : Execution

-- f"task:{task_def_id}", a text that is the parameter `label`.
abbrev pub Labels : Type 0
Labels = ℕ → String

abbrev pub is_dict : Json → Bool
is_dict (object fs) = true
is_dict _ = false

abbrev pub stored_or_empty : Option Json → Json
stored_or_empty none = object end
stored_or_empty (some (object fs)) = object fs
stored_or_empty (some other) = if truthy other then other else object end

abbrev pub charge : Json → Option (ℕ × ℕ) → Execution
charge result none = broken
charge result (some (cost, tokens)) = finished result cost tokens false

abbrev pub settle_if : Option ℕ → Json → ℕ → Db → Db
settle_if none result now db = db
settle_if (some key) result now db = (settle key result now db).0

-- From the end of `task_def.run(ctx)` on, where the database is `db`; `action_key` is the reservation
-- that was made, if any.
unfoldable pub perform : List Tier → TaskDef → TaskContext → Option ℕ → ℕ → Db → Trace
unfolding cost_of
perform ladder task_def ctx action_key now db = elim (task_def.run ctx) [
  | fails failure ↦ record { db = db; acted = true; execution = failed failure }
  | crashes error ↦ record {
    db = db;
    acted = true;
    execution = failed (infra_failure (Detail.unexpected error));
  }
  | returns result ↦
      if is_dict result
      then record {
        db = settle_if action_key result now db;
        acted = true;
        execution = charge result (cost_of ctx.tier ladder);
      }
      else record {
        db = db;
        acted = true;
        execution = failed (poison_failure (Detail.not_a_dict task_def.id));
      }
]

-- What the answer of `begin` makes of a side-effecting task. `begin` and `settle` are transactions of
-- their own: `during` is what other processes do to the database between them, while the task runs.
unfoldable pub guarded :
    List Tier → TaskDef → TaskContext → ℕ → (Db → Db) → ℕ → Db × Verdict → Trace
unfolding perform
guarded ladder task_def ctx key during now (db, proceed) =
    perform ladder task_def ctx (some key) now (during db)
guarded ladder task_def ctx key during now (db, already stored) = record {
  db = db;
  acted = false;
  execution = finished (stored_or_empty stored) 0 0 true;
}
guarded ladder task_def ctx key during now (db, unsettled) = record {
  db = db;
  acted = false;
  execution = failed (infra_failure (Detail.in_flight ctx.agent_id ctx.seq task_def.id));
}

module _ (sha256 : ℕ × ℕ × String → ℕ) (label : Labels) where
  abbrev pub key_of : TaskContext → TaskDef → ℕ
  key_of ctx task_def = action_id sha256 ctx.agent_id ctx.seq (label task_def.id)

  abbrev pub context_of : Task → Agent → TaskContext
  context_of task agent = record {
    agent_id = task.agent_id;
    seq = task.seq;
    tier = task.tier;
    prior = agent.context;
    idem_key = some (λ action. action_id sha256 task.agent_id task.seq action);
  }

  unfoldable pub execute : List Tier → TaskDef → TaskContext → (Db → Db) → ℕ → Db → Trace
  unfolding guarded
  execute ladder task_def ctx during now db =
      if task_def.side_effecting
      then guarded ladder task_def ctx (key_of ctx task_def) during now
          (begin (key_of ctx task_def) ctx.agent_id ctx.seq (label task_def.id) now db)
      else perform ladder task_def ctx none now (during db)

  unfoldable pub run_task : Registry → List Tier → Task → Agent → (Db → Db) → ℕ → Db → Trace
  unfolding execute get
  run_task registry ladder task agent during now db = elim (get task.task_def_id registry) [
    | none ↦ record {
      db = db;
      acted = false;
      execution = failed (poison_failure (Detail.not_in_registry task.task_def_id));
    }
    | some task_def ↦ execute ladder task_def (context_of task agent) during now db
  ]

-- The registry of a process that has registered nothing before.
unfoldable pub load_registry : Import → Registry × Bool
unfolding discover
load_registry tasks = discover tasks []
