-- ===== src/Worker/Checkpoint.antt =====
-- worker/main.py: the transactions that end a task, `checkpoint_success` and `report_failure`.
pub mod Fence
use reliable_ai_agents.Prelude.{
  ℕ, ◌+◌, String, Bool, true, false, ◌&&◌, Option, none, some, List, [], ◌∷◌, ◌++◌, if◌then◌else◌,
  leb, ◌==◌, length, head?, select, exists_where, update_where,
}
use reliable_ai_agents.Json.{Json}
use reliable_ai_agents.Schema.{
  Agent, AgentStatus, Task, TaskStatus, Attempt, Outcome, FailureClass, Db,
}
use reliable_ai_agents.Failures.{TaskFailure}
use reliable_ai_agents.Worker.Heartbeat.{fenced}

-- LOAD_AGENT_SQL
unfoldable pub load_agent : ℕ → Db → Option Agent
load_agent agent_id db = head? (select (λ a. a.id == agent_id) db.agents)

-- context || {seq: result}: a key that is there is overwritten.
unfoldable pub put_context : ℕ → Json → List (ℕ × Json) → List (ℕ × Json)
put_context seq result [] = (seq, result) ∷ []
put_context seq result ((k, v) ∷ rest) =
    if k == seq then (k, result) ∷ rest else (k, v) ∷ put_context seq result rest

-- MARK_SUCCEEDED_SQL
abbrev pub mark_succeeded : Json → ℕ → Task → Task
mark_succeeded result now t = record t {
  status = TaskStatus.succeeded;
  result = some result;
  failure_class = none;
  last_error = none;
  updated_at = now;
}

-- ADVANCE_AGENT_SQL and its fence on the cursor
unfoldable pub at_position : ℕ → ℕ → Agent → Bool
at_position agent_id seq a = a.id == agent_id && a.cursor == seq

abbrev pub advance : ℕ → Json → ℕ → ℕ → ℕ → Agent → Agent
advance seq result cost tokens now a = record a {
  context = put_context seq result a.context;
  cursor = a.cursor + 1;
  cost_units = a.cost_units + cost;
  tokens_used = a.tokens_used + tokens;
  status = if leb (length a.plan) (a.cursor + 1) then AgentStatus.completed else a.status;
  updated_at = now;
}

-- RECORD_ATTEMPT_SQL
abbrev pub attempt_row : Task → String → Outcome → Option FailureClass → ℕ → ℕ → ℕ → ℕ → Attempt
attempt_row task worker_id outcome fc cost tokens started now = record {
  task_instance_id = task.id;
  agent_id = task.agent_id;
  seq = task.seq;
  attempt_no = task.attempt;
  tier = task.tier;
  worker_id = some worker_id;
  outcome = outcome;
  failure_class = fc;
  cost_units = cost;
  tokens = tokens;
  started_at = started;
  ended_at = some now;
}

-- `task` is the row that the claim returned. A rollback leaves the database as it was.
unfoldable pub checkpoint_success : Task → Json → ℕ → ℕ → ℕ → String → ℕ → Db → Db × Bool
unfolding fenced put_context at_position
checkpoint_success task result cost tokens started worker_id now db =
    if exists_where (fenced task.id worker_id) db.tasks
    then (if exists_where (at_position task.agent_id task.seq) db.agents
        then (
          record db {
            tasks = update_where (fenced task.id worker_id) (mark_succeeded result now) db.tasks;
            agents =
                update_where (at_position task.agent_id task.seq)
                  (advance task.seq result cost tokens now) db.agents;
            attempts =
                db.attempts
                ++ attempt_row task worker_id Outcome.succeeded none cost tokens started now ∷ [];
          },
          true,
        )
        else (db, false))
    else (db, false)

-- REPORT_FAILURE_SQL
abbrev pub mark_failed : TaskFailure → ℕ → Task → Task
mark_failed failure now t = record t {
  status = TaskStatus.failed;
  failure_class = some failure.failure_class;
  last_error = some failure.detail;
  updated_at = now;
}

unfoldable pub report_failure : Task → TaskFailure → ℕ → String → ℕ → Db → Db
unfolding fenced
report_failure task failure started worker_id now db =
    if exists_where (fenced task.id worker_id) db.tasks
    then record db {
      tasks = update_where (fenced task.id worker_id) (mark_failed failure now) db.tasks;
      attempts =
          db.attempts
          ++ attempt_row task worker_id Outcome.failed (some failure.failure_class) 0 0 started now
            ∷ [];
    }
    else db
