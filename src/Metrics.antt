-- ===== src/Metrics.antt =====
-- common/metrics.py: the numbers of the dashboard. A ratio is the pair of numbers that the source
-- divides, where it divides, and a latency is in milliseconds, where the source rounds seconds to three digits.
pub mod Latency
use reliable_ai_agents.Prelude.{
  ℕ, zero, suc, ◌+◌, ◌*◌, String, str_eq, Bool, true, false, not, ◌&&◌, ◌||◌, Option, none, some,
  List, [], ◌∷◌, if◌then◌else◌, ltb, leb, ◌==◌, length, exists_where, count_where,
}
use reliable_ai_agents.Json.{Json, str, get}
use reliable_ai_agents.Schema.{
  Agent, AgentStatus, Tier, Task, TaskStatus, Attempt, Outcome, Reservation, Db, is_live,
  is_pending, is_running, is_succeeded, is_failed, is_in_flight,
}
use reliable_ai_agents.Prelude.{ℤ, pos}
use reliable_ai_agents.Metrics.Latency.{leq, percentile_disc, durations}
use reliable_ai_agents.Tiers.{tier, base_tier, top_tier}

abbrev is_completed : AgentStatus → Bool
is_completed AgentStatus.completed = true
is_completed _ = false

abbrev is_lost : AgentStatus → Bool
is_lost AgentStatus.failed = true
is_lost _ = false

abbrev pub is_dead : TaskStatus → Bool
is_dead TaskStatus.dead = true
is_dead _ = false

abbrev pub is_reclaim : Outcome → Bool
is_reclaim Outcome.reclaimed = true
is_reclaim _ = false

abbrev pub is_success : Outcome → Bool
is_success Outcome.succeeded = true
is_success _ = false

abbrev pub sum_of {ℓ} : {A : Type ℓ} → (A → ℕ) → List A → ℕ
sum_of f [] = 0
sum_of f (x ∷ xs) = f x + sum_of f xs

-- result ->> 'status' = 'unresolved'
abbrev says_unresolved : Option Json → Bool
says_unresolved (some (str s)) = str_eq s "unresolved"
says_unresolved _ = false

abbrev status_of : Option Json → Option Json
status_of none = none
status_of (some result) = get "status" result

unfoldable pub is_unresolved : Option Json → Bool
unfolding get
is_unresolved result = says_unresolved (status_of result)

-- The two FILTERs of "dupes".
unfoldable pub is_guarded : Reservation → Bool
unfolding is_unresolved
is_guarded r = not (is_in_flight r.state) && not (is_unresolved r.result)

unfoldable pub is_prevented : ℕ → ℕ → Reservation → Bool
unfolding is_unresolved
is_prevented ttl now r =
    (not (is_in_flight r.state) && is_unresolved r.result)
    || (is_in_flight r.state && ltb (r.created_at + ttl * 1000) now)

abbrev expired_before : ℕ → Option ℕ → Bool
expired_before now none = false
expired_before now (some expires) = ltb expires now

-- "stalled" and "orphaned"
unfoldable pub stalled : List Task → Agent → Bool
stalled tasks a =
    is_live a.status
    && (ltb a.cursor (length a.plan)
        && not (exists_where (λ t. t.agent_id == a.id && t.seq == a.cursor) tasks))

unfoldable pub orphaned : ℕ → Task → Bool
orphaned now t = is_running t.status && expired_before now t.lease_expires

pub record Snapshot : Type 0 where
  pub agents_running : ℕ
  pub agents_completed : ℕ
  pub agents_failed : ℕ
  pub tasks_pending : ℕ
  pub tasks_running : ℕ
  pub tasks_succeeded : ℕ
  pub tasks_failed : ℕ
  pub tasks_dead : ℕ
  pub tasks_total : ℕ
  pub leases_reclaimed : ℕ
  pub tasks_reexecuted : ℕ
  pub stalled_agents : ℕ
  pub orphaned_leases : ℕ
  pub promoted : ℕ
  pub promotion_rate : Option (ℕ × ℕ)
  pub senior_attempts : ℕ
  pub senior_success_rate : Option (ℕ × ℕ)
  pub units_spent : ℕ
  pub all_junior_baseline : ℕ
  pub all_junior_would_never_finish : ℕ
  pub all_senior_baseline : ℕ
  pub vs_all_senior : Option (ℕ × ℕ)
  pub actions_guarded : ℕ
  pub duplicates_prevented : ℕ
  pub dlq_size : ℕ
  pub p50_s : ℤ
  pub p99_s : ℤ

-- `none` where the source answers 0.0 without dividing.
abbrev pub ratio : ℕ → ℕ → Option (ℕ × ℕ)
ratio a zero = none
ratio a (suc b) = some (a, suc b)

-- What is computed once the base tier `base` and the rows `cheap` and `dear` are known.
unfoldable pub report : ℕ → String → Tier → Tier → ℕ → Db → Snapshot
unfolding is_guarded is_prevented stalled orphaned
report ttl base cheap dear now db =
    let promoted = count_where (λ t. not (str_eq t.tier base)) db.tasks in
    let reclaimed = count_where (λ a. is_reclaim a.outcome) db.attempts in
    let succeeded = count_where (λ a. is_success a.outcome) db.attempts in
    let senior_attempts = count_where (λ a. not (str_eq a.tier base)) db.attempts in
    let senior_ok =
      count_where (λ a. not (str_eq a.tier base) && is_success a.outcome) db.attempts in
    let spent = sum_of (λ a. a.cost_units) db.agents in
    let all_dear = succeeded * dear.cost_units in
    record {
      agents_running = count_where (λ a. is_live a.status) db.agents;
      agents_completed = count_where (λ a. is_completed a.status) db.agents;
      agents_failed = count_where (λ a. is_lost a.status) db.agents;
      tasks_pending = count_where (λ t. is_pending t.status) db.tasks;
      tasks_running = count_where (λ t. is_running t.status) db.tasks;
      tasks_succeeded = count_where (λ t. is_succeeded t.status) db.tasks;
      tasks_failed = count_where (λ t. is_failed t.status) db.tasks;
      tasks_dead = count_where (λ t. is_dead t.status) db.tasks;
      tasks_total = length db.tasks;
      leases_reclaimed = reclaimed;
      tasks_reexecuted = reclaimed;
      stalled_agents = count_where (stalled db.tasks) db.agents;
      orphaned_leases = count_where (orphaned now) db.tasks;
      promoted = promoted;
      promotion_rate = ratio promoted (length db.tasks);
      senior_attempts = senior_attempts;
      senior_success_rate = ratio senior_ok senior_attempts;
      units_spent = spent;
      all_junior_baseline = succeeded * cheap.cost_units;
      all_junior_would_never_finish = promoted;
      all_senior_baseline = all_dear;
      vs_all_senior = ratio spent all_dear;
      actions_guarded = count_where is_guarded db.idempotency;
      duplicates_prevented = count_where (is_prevented ttl now) db.idempotency;
      dlq_size = length db.dlq;
      p50_s = percentile_disc leq (pos 0) 1 2 (durations db.attempts);
      p99_s = percentile_disc leq (pos 0) 99 100 (durations db.attempts);
    }

-- `none` is the exception of an empty ladder.
unfoldable pub snapshot : ℕ → List Tier → ℕ → Db → Option Snapshot
unfolding report
snapshot ttl ladder now db = elim (base_tier ladder) [
  | none ↦ none
  | some base ↦ elim (top_tier ladder) [
    | none ↦ none
    | some top ↦ elim (tier base ladder) [
      | none ↦ none
      | some cheap ↦ elim (tier top ladder) [
        | none ↦ none
        | some dear ↦ some (report ttl base cheap dear now db)
      ]
    ]
  ]
]
