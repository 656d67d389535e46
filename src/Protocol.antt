-- ===== src/Protocol.antt =====
-- common/protocol.py: what a task implementation sees, and an entry of the registry. An
-- implementation is Python code that may return a value, raise one of the three failures, or raise
-- anything else.
use reliable_ai_agents.Prelude.{ℕ, String, Bool, Option, none, some, List}
use reliable_ai_agents.Json.{Json}
use reliable_ai_agents.Failures.{TaskFailure}

pub data Difficulty : Type 0 where
  easy hard : Difficulty

-- `idem_key` is `none` where the field holds None.
pub record TaskContext : Type 0 where
  pub agent_id : ℕ
  pub seq : ℕ
  pub tier : String
  pub prior : List (ℕ × Json)
  pub idem_key : Option (String → ℕ)

-- The second case digests the same text that the executor's key is made of.
unfoldable pub key_for : (ℕ × ℕ × String → ℕ) → TaskContext → String → ℕ
key_for sha256 ctx action_type = elim ctx.idem_key [
  | some idem_key ↦ idem_key action_type
  | none ↦ sha256 (ctx.agent_id, ctx.seq, action_type)
]

pub data Run : Type 0 where
  returns : Json → Run
  fails : TaskFailure → Run
  crashes : String → Run

pub record TaskDef : Type 0 where
  pub id : ℕ
  pub name : String
  pub run : TaskContext → Run
  pub difficulty : Difficulty
  pub side_effecting : Bool
  pub tool : Option String
