-- ===== src/Schema.antt =====
-- The tables of db/schema.sql as records of rows, and the values that fill their columns.
-- A UUID is a number; a timestamp is a number of milliseconds; a text that the program only stores
-- is a `Detail`, one constructor for each message that the code formats.
use reliable_ai_agents.Prelude.{ℕ, String, Bool, true, false, List, Option}
use reliable_ai_agents.Json.{Json}

-- agents_status_ck
pub data AgentStatus : Type 0 where
  pending running completed failed : AgentStatus

-- task_instances_status_ck
pub data TaskStatus : Type 0 where
  pending running succeeded failed dead : TaskStatus

-- task_instances_failure_class_ck
pub data FailureClass : Type 0 where
  infra capability poison : FailureClass

-- attempts.outcome
pub data Outcome : Type 0 where
  succeeded failed reclaimed : Outcome

-- idempotency_state_ck
pub data ReservationState : Type 0 where
  in_flight done : ReservationState

-- Why the classifier gives a task up: the `reason` of each call of `_kill`.
pub data Reason : Type 0 where
  poison retries_disabled escalation_disabled : Reason
  handed_out : ℕ → Reason
  infra_failed : ℕ → Reason
  tier_pinned : Option String → Reason
  exhausted : String → Reason

-- The texts of failures.
pub data Detail : Type 0 where
  message : String → Detail
  lease_expired agent_vanished : Detail
  agent_failed_at : ℕ → Reason → Detail
  not_in_registry : ℕ → Detail
  in_flight : ℕ → ℕ → ℕ → Detail
  unexpected : String → Detail
  not_a_dict : ℕ → Detail
  no_answer : String → Detail
  unknown_tool : String → Detail
  injected : String → Detail
  tool_raised : String → Detail → Detail
  not_allowlisted : Json → Detail
  http_status : Json → ℕ → Detail

pub record Agent : Type 0 where
  pub id : ℕ
  pub plan : List ℕ
  pub cursor : ℕ
  pub status : AgentStatus
  pub context : List (ℕ × Json)
  pub cost_units : ℕ
  pub tokens_used : ℕ
  pub created_at : ℕ
  pub updated_at : ℕ

-- p_success and model are left out: the code loads them and uses neither.
pub record Tier : Type 0 where
  pub name : String
  pub rank : ℕ
  pub cost_units : ℕ
  pub tokens : ℕ
  pub latency_ms : ℕ

pub record Task : Type 0 where
  pub id : ℕ
  pub agent_id : ℕ
  pub seq : ℕ
  pub task_def_id : ℕ
  pub status : TaskStatus
  pub tier : String
  pub attempt : ℕ
  pub max_attempts_per_tier : ℕ
  pub lease_owner : Option String
  pub lease_expires : Option ℕ
  pub next_run_at : ℕ
  pub result : Option Json
  pub last_error : Option Detail
  pub failure_class : Option FailureClass
  pub created_at : ℕ
  pub updated_at : ℕ

pub record Reservation : Type 0 where
  pub key : ℕ
  pub agent_id : ℕ
  pub seq : ℕ
  pub action_type : String
  pub state : ReservationState
  pub result : Option Json
  pub created_at : ℕ
  pub settled_at : Option ℕ

pub record Attempt : Type 0 where
  pub task_instance_id : ℕ
  pub agent_id : ℕ
  pub seq : ℕ
  pub attempt_no : ℕ
  pub tier : String
  pub worker_id : Option String
  pub outcome : Outcome
  pub failure_class : Option FailureClass
  pub cost_units : ℕ
  pub tokens : ℕ
  pub started_at : ℕ
  pub ended_at : Option ℕ

-- The column last_error holds "<reason>: <the task's last error>"; the two parts stand apart here. The
-- rows of the trail are kept whole.
pub record DeadLetter : Type 0 where
  pub agent_id : ℕ
  pub seq : ℕ
  pub task_def_id : ℕ
  pub failure_class : FailureClass
  pub reason : Reason
  pub last_error : Option Detail
  pub attempt_trail : List Attempt
  pub created_at : ℕ

-- created_at is left out: no query reads it.
pub record Pipeline : Type 0 where
  pub name : String
  pub plan : List ℕ
  pub description : String

pub record Db : Type 0 where
  pub agents : List Agent
  pub tiers : List Tier
  pub tasks : List Task
  pub idempotency : List Reservation
  pub attempts : List Attempt
  pub dlq : List DeadLetter
  pub runtime_config : List (String × Json)
  pub pipelines : List Pipeline

module _ where
  abbrev pub is_live : AgentStatus → Bool
  is_live AgentStatus.running = true
  is_live _ = false

  abbrev pub is_pending : TaskStatus → Bool
  is_pending TaskStatus.pending = true
  is_pending _ = false

  abbrev pub is_running : TaskStatus → Bool
  is_running TaskStatus.running = true
  is_running _ = false

  abbrev pub is_succeeded : TaskStatus → Bool
  is_succeeded TaskStatus.succeeded = true
  is_succeeded _ = false

  abbrev pub is_failed : TaskStatus → Bool
  is_failed TaskStatus.failed = true
  is_failed _ = false

  abbrev pub is_in_flight : ReservationState → Bool
  is_in_flight ReservationState.in_flight = true
  is_in_flight _ = false

  abbrev pub is_failure : Outcome → Bool
  is_failure Outcome.failed = true
  is_failure _ = false

  abbrev pub is_infra : Option FailureClass → Bool
  is_infra (Option.some FailureClass.infra) = true
  is_infra _ = false

  abbrev pub is_capability : Option FailureClass → Bool
  is_capability (Option.some FailureClass.capability) = true
  is_capability _ = false
