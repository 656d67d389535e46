-- ===== src/Failures.antt =====
-- common/failures.py: the failure taxonomy that the worker raises and the orchestrator routes, and
-- the backoff gate. Times are whole seconds; the floats of `backoff_seconds` are exact here, since
-- its result is a power of two or the cap.
use reliable_ai_agents.Prelude.{ℕ, ◌^◌, min, Bool, true, false}
use reliable_ai_agents.Schema.{FailureClass, infra, capability, poison, Detail}

-- The exception classes below `TaskFailure`, with the fields that the base class sets.
pub record TaskFailure : Type 0 where
  pub failure_class : FailureClass
  pub detail : Detail
  pub retryable_hint : Bool

abbrev pub infra_failure : Detail → TaskFailure
infra_failure d = record { failure_class = infra; detail = d; retryable_hint = true }

abbrev pub capability_failure : Detail → TaskFailure
capability_failure d = record { failure_class = capability; detail = d; retryable_hint = true }

abbrev pub poison_failure : Detail → TaskFailure
poison_failure d = record { failure_class = poison; detail = d; retryable_hint = false }

-- `base` 2 and `cap` 30 are the defaults, which every call uses.
unfoldable pub backoff_seconds : ℕ → ℕ
backoff_seconds attempt = min 30 (2 ^ attempt)
