-- ===== src/Orchestrator/Classify.antt =====
-- orchestrator/classify.py: the classifier. A statement that the database refuses raises, and the
-- whole transaction is rolled back: that is `none`. `ladder` and `flags` are what `common.tiers` and
-- `common.runtime` return while a failure is routed.
pub mod Routing
pub mod GivenUp
pub mod Burial
pub mod Evidence
use reliable_ai_agents.Prelude.{
  ℕ, ◌+◌, ◌*◌, String, str_eq, Bool, not, ◌&&◌, Option, none, some, List, [], ◌∷◌, ◌++◌,
  if◌then◌else◌, ltb, leb, ◌==◌, take, select, count_where, update_where, order_by,
}
use reliable_ai_agents.Schema.{
  Agent, AgentStatus, Tier, Task, TaskStatus, FailureClass, infra, capability, poison, Reason,
  Detail, Attempt, DeadLetter, Db, is_pending, is_failed, is_failure, is_infra, is_capability,
}
use reliable_ai_agents.Tiers.{next_tier}
use reliable_ai_agents.Failures.{backoff_seconds}
use reliable_ai_agents.Runtime.{Flags, retries_enabled, escalation_enabled, force_tier}

abbrev pub max_infra_attempts : ℕ
max_infra_attempts = 5

abbrev pub max_total_attempts : ℕ
max_total_attempts = 25

-- What `route_one` returns.
pub data Action : Type 0 where
  retry promote dlq : Action

-- TAKE_FAILED_SQL
unfoldable pub take_failed : (ℕ → Bool) → ℕ → Db → List Task
take_failed locked limit db =
    take limit (
      order_by (λ t. t.updated_at) (select (λ t. is_failed t.status && not (locked t.id)) db.tasks))

-- CAPABILITY_ATTEMPTS_SQL
unfoldable pub counts_capability : ℕ → String → Attempt → Bool
counts_capability id tier a =
    a.task_instance_id == id
    && (str_eq a.tier tier && (is_failure a.outcome && is_capability a.failure_class))

unfoldable pub capability_attempts : Task → Db → ℕ
unfolding counts_capability
capability_attempts task db = count_where (counts_capability task.id task.tier) db.attempts

-- INFRA_ATTEMPTS_SQL
unfoldable pub counts_infra : ℕ → Attempt → Bool
counts_infra id a = a.task_instance_id == id && (is_failure a.outcome && is_infra a.failure_class)

unfoldable pub infra_attempts : Task → Db → ℕ
unfolding counts_infra
infra_attempts task db = count_where (counts_infra task.id) db.attempts

-- The row updates of RETRY_SQL, PROMOTE_SQL, KILL_SQL, FAIL_AGENT_SQL and CANCEL_SIBLINGS_SQL.
abbrev pub retry_row : ℕ → ℕ → Task → Task
retry_row backoff now t = record t {
  status = TaskStatus.pending;
  lease_owner = none;
  next_run_at = now + backoff * 1000;
  updated_at = now;
}

abbrev pub promote_row : String → ℕ → Task → Task
promote_row tier now t = record t {
  status = TaskStatus.pending;
  tier = tier;
  attempt = 0;
  lease_owner = none;
  next_run_at = now;
  updated_at = now;
}

abbrev pub kill_row : ℕ → Task → Task
kill_row now t = record t { status = TaskStatus.dead; lease_owner = none; updated_at = now }

abbrev pub fail_row : ℕ → Agent → Agent
fail_row now a = record a { status = AgentStatus.failed; updated_at = now }

abbrev pub cancel_row : Detail → ℕ → Task → Task
cancel_row reason now t = record t {
  status = TaskStatus.dead;
  lease_owner = none;
  lease_expires = none;
  last_error = some reason;
  updated_at = now;
}

unfoldable pub is_sibling : ℕ → Task → Bool
is_sibling agent_id t = t.agent_id == agent_id && is_pending t.status

abbrev pub dead_letter : Db → Task → Reason → ℕ → FailureClass → DeadLetter
dead_letter db task reason now fc = record {
  agent_id = task.agent_id;
  seq = task.seq;
  task_def_id = task.task_def_id;
  failure_class = fc;
  reason = reason;
  last_error = task.last_error;
  attempt_trail = select (λ a. a.task_instance_id == task.id) db.attempts;
  created_at = now;
}

abbrev pub bury : Db → Task → Reason → ℕ → FailureClass → Db
bury db task reason now fc = record db {
  tasks =
      update_where (is_sibling task.agent_id)
        (cancel_row (Detail.agent_failed_at task.seq reason) now)
        (update_where (λ t. t.id == task.id) (kill_row now) db.tasks);
  dlq = db.dlq ++ dead_letter db task reason now fc ∷ [];
  agents = update_where (λ a. a.id == task.agent_id) (fail_row now) db.agents;
}

-- `_kill`. dlq.failure_class is NOT NULL, so a row that has none cannot be buried.
unfoldable pub kill : Task → Reason → ℕ → Db → Option Db
unfolding is_sibling
kill task reason now db = elim task.failure_class [
  | none ↦ none
  | some fc ↦ some (bury db task reason now fc)
]

abbrev pub killed : Option Db → Option (Db × Action)
killed none = none
killed (some db) = some (db, dlq)

unfoldable pub put_back : Task → ℕ → Db → Option (Db × Action)
put_back task now db = some (
  record db {
    tasks =
        update_where (λ t. t.id == task.id) (retry_row (backoff_seconds task.attempt) now) db.tasks;
  },
  retry,
)

-- `failure_class or "INFRA"`
abbrev pub class_of : Option FailureClass → FailureClass
class_of none = infra
class_of (some fc) = fc

-- `next_tier(task["tier"])` and what follows it.
unfoldable pub promote_to : Task → ℕ → Option String → Db → Option (Db × Action)
promote_to task now none db = killed (kill task (Reason.exhausted task.tier) now db)
promote_to task now (some tier) db = some (
  record db { tasks = update_where (λ t. t.id == task.id) (promote_row tier now) db.tasks },
  promote,
)

unfoldable pub escalate : List Tier → Flags → ℕ → Task → Db → Option (Db × Action)
unfolding promote_to
escalate ladder flags now task db =
    if ltb (capability_attempts task db) task.max_attempts_per_tier
    then put_back task now db
    else (if not (escalation_enabled flags)
        then killed (kill task Reason.escalation_disabled now db)
        else elim (force_tier flags) [
          | some pinned ↦ killed (kill task (Reason.tier_pinned (some pinned)) now db)
          | none ↦ promote_to task now (next_tier task.tier ladder) db
        ])

unfoldable pub route_infra : ℕ → Task → Db → Option (Db × Action)
route_infra now task db =
    if leb max_infra_attempts (infra_attempts task db)
    then killed (kill task (Reason.infra_failed (infra_attempts task db)) now db)
    else put_back task now db

-- The guards that INFRA and CAPABILITY share.
unfoldable pub route_retryable :
    List Tier → Flags → ℕ → Task → FailureClass → Db → Option (Db × Action)
unfolding route_infra escalate
route_retryable ladder flags now task fc db =
    if leb max_total_attempts task.attempt
    then killed (kill task (Reason.handed_out task.attempt) now db)
    else (if not (retries_enabled flags)
        then killed (kill task Reason.retries_disabled now db)
        else elim fc [ infra ↦ route_infra now task db | _ ↦ escalate ladder flags now task db ])

unfoldable pub route_one : List Tier → Flags → ℕ → Task → Db → Option (Db × Action)
unfolding route_retryable
route_one ladder flags now task db = elim (class_of task.failure_class) [
  | poison ↦ killed (kill task Reason.poison now db)
  | infra ↦ route_retryable ladder flags now task infra db
  | capability ↦ route_retryable ladder flags now task capability db
]

pub record Counts : Type 0 where
  pub retries : ℕ
  pub promotions : ℕ
  pub dead : ℕ

abbrev pub tally : Action → Counts → Counts
tally retry c = record c { retries = c.retries + 1 }
tally promote c = record c { promotions = c.promotions + 1 }
tally dlq c = record c { dead = c.dead + 1 }

-- The loop of `classify` over the rows taken.
unfoldable pub route_all : List Tier → Flags → ℕ → List Task → Counts → Db → Option (Db × Counts)
route_all ladder flags now [] counts db = some (db, counts)
route_all ladder flags now (task ∷ rest) counts db = elim (route_one ladder flags now task db) [
  | none ↦ none
  | some r ↦ route_all ladder flags now rest (tally r.1 counts) r.0
]

-- `none`: a row could not be routed, the exception left the block and nothing was committed.
unfoldable pub classify : (ℕ → Bool) → ℕ → List Tier → Flags → ℕ → Db → Option (Db × Counts)
unfolding take_failed
classify locked limit ladder flags now db =
    route_all ladder flags now (take_failed locked limit db)
      (record { retries = 0; promotions = 0; dead = 0 }) db
