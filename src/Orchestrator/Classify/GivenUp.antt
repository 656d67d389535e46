-- ===== src/Orchestrator/Classify/GivenUp.antt =====
-- orchestrator/classify.py: which failures `route_one` gives up.
use reliable_ai_agents.Prelude.{
  ℕ, ◌≤◌, ◌≡◌, ◌≢◌, ◌↔◌, ◌⊎◌, inl, inr, Option-cases, String, false, none, some, List, arith,
}
use reliable_ai_agents.Schema.{Tier, Task, infra, capability, poison, Db}
use reliable_ai_agents.Tiers.{next_tier}
use reliable_ai_agents.Runtime.{Flags, retries_enabled, escalation_enabled, force_tier}
use reliable_ai_agents.Orchestrator.Classify.{
  Action, retry, promote, dlq, max_infra_attempts, max_total_attempts, capability_attempts,
  infra_attempts, class_of, kill, put_back, route_one,
}
use reliable_ai_agents.Orchestrator.Classify.Routing.{
  MayRetry, HasBudget, MustEscalate, retry_only_when, route_one-promote_iff,
}

-- A capability failure that has used up its tier, and may not or cannot go up.
pub record IsStuck (ladder : List Tier) (flags : Flags) (task : Task) (db : Db) : Type 0 where
  pub class : task.failure_class ≡ some capability
  pub spent : task.max_attempts_per_tier ≤ capability_attempts task db
  pub no_way_up :
      (escalation_enabled flags ≡ false)
      ⊎ ((force_tier flags ≢ none) ⊎ (next_tier task.tier ladder ≡ none))

-- Why a failure is given up: it is poison, it was handed out too often, retries are off, its infra
-- failures have run out, or its tier has and there is no way up.
abbrev pub GivesUp : List Tier → Flags → Task → Db → Type 0
GivesUp ladder flags task db =
    (task.failure_class ≡ some poison)
    ⊎ ((max_total_attempts ≤ task.attempt)
        ⊎ ((retries_enabled flags ≡ false)
            ⊎ (((class_of task.failure_class ≡ infra)
                  × (max_infra_attempts ≤ infra_attempts task db))
                ⊎ IsStuck ladder flags task db)))

module _ (ladder : List Tier) (flags : Flags) (now : ℕ) (task : Task) (db : Db) where
  not_refused : task.failure_class ≢ none → ¬ (route_one ladder flags now task db ≡ none)
  unfolding route_one put_back kill
  not_refused h e = ground arith

  has_no_budget : GivesUp ladder flags task db → MayRetry flags task → ¬ HasBudget task db
  has_no_budget g may budget = ground (arith, g, may, budget)

  has_no_tier :
      (tier : String) → GivesUp ladder flags task db → ¬ MustEscalate ladder flags task db tier
  has_no_tier tier g up = ground (arith, g, up)

  surrender :
      task.failure_class ≢ none
      → GivesUp ladder flags task db
      → (db' : Db) × (route_one ladder flags now task db ≡ some (db', dlq))
  surrender classed g = elim (Option-cases (route_one ladder flags now task db)) [
    | inl stuck ↦ absurd (not_refused classed stuck)
    | inr r ↦ by_answer r.0.0 r.0.1 r.1
  ]
    where
      by_answer :
          (db' : Db) (action : Action)
          → route_one ladder flags now task db ≡ some (db', action)
          → (db' : Db) × (route_one ladder flags now task db ≡ some (db', dlq))
      by_answer db' retry h =
          let (may, budget) = retry_only_when ladder flags now task db db' h in
          absurd (has_no_budget g may budget)
      by_answer db' promote h =
          let (tier, up) = (route_one-promote_iff ladder flags now task db).0 (db', h) in
          absurd (has_no_tier tier g up)
      by_answer db' dlq h = (db', h)

  surrenders_why :
      (db' : Db)
      → route_one ladder flags now task db ≡ some (db', dlq)
      → GivesUp ladder flags task db
  unfolding route_one put_back kill
  surrenders_why db' h = ground arith

  classed_when :
      (db' : Db) → route_one ladder flags now task db ≡ some (db', dlq) → task.failure_class ≢ none
  unfolding route_one put_back kill
  classed_when db' h e = ground (arith, h, e)

  refused_only_when :
      route_one ladder flags now task db ≡ none
      → (task.failure_class ≡ none) × GivesUp ladder flags task db
  unfolding route_one put_back kill
  refused_only_when h = ground arith

  refused_when :
      task.failure_class ≡ none
      → GivesUp ladder flags task db
      → route_one ladder flags now task db ≡ none
  unfolding route_one put_back kill
  refused_when e g = ground (arith, e, g)

  -- A failure is dead-lettered exactly when its row names a class and it has to be given up: it is
  -- poison, or was handed out 25 times, or retries are off, or its infra failures have reached 5, or
  -- it is a capability failure whose tier's budget is spent while escalation is off, a tier is pinned
  -- or the ladder ends. `route_one` is refused by the database exactly when it has to be given up and
  -- its row names no class.
  pub route_one-dlq_iff :
      (((db' : Db) × (route_one ladder flags now task db ≡ some (db', dlq)))
        ↔ ((task.failure_class ≢ none) × GivesUp ladder flags task db))
      × ((route_one ladder flags now task db ≡ none)
          ↔ ((task.failure_class ≡ none) × GivesUp ladder flags task db))
  route_one-dlq_iff = (
    (λ r. (classed_when r.0 r.1, surrenders_why r.0 r.1), λ h. surrender h.0 h.1),
    (refused_only_when, λ h. refused_when h.0 h.1),
  )
