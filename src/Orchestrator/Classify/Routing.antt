-- ===== src/Orchestrator/Classify/Routing.antt =====
-- orchestrator/classify.py: when `route_one` takes which action, against the routing table that its
-- comments describe.
use reliable_ai_agents.Prelude.{
  ℕ, ◌≤◌, ◌<◌, ◌≡◌, ◌↔◌, ◌⊎◌, inl, inr, sym, ap, ◌∙◌, some-injective, Option-cases, update_where,
  ◌==◌, String, true, none, some, List, arith,
}
use reliable_ai_agents.Schema.{Tier, Task, infra, capability, Db}
use reliable_ai_agents.Tiers.{next_tier}
use reliable_ai_agents.Failures.{backoff_seconds}
use reliable_ai_agents.Runtime.{Flags, retries_enabled, escalation_enabled, force_tier}
use reliable_ai_agents.Orchestrator.Classify.{
  Action, retry, promote, max_infra_attempts, max_total_attempts, capability_attempts, promote_row,
  retry_row, infra_attempts, class_of, kill, put_back, route_one,
}

-- The guards before a retry: not handed out too often, and retries on.
pub record MayRetry (flags : Flags) (task : Task) : Type 0 where
  pub handouts : task.attempt < max_total_attempts
  pub retries : retries_enabled flags ≡ true

-- A capability failure that has used up its tier, with a tier above to go to.
pub record MustEscalate (ladder : List Tier) (flags : Flags) (task : Task) (db : Db) (tier : String)
    : Type 0 where
  pub class : task.failure_class ≡ some capability
  pub may_retry : MayRetry flags task
  pub spent : task.max_attempts_per_tier ≤ capability_attempts task db
  pub escalation : escalation_enabled flags ≡ true
  pub not_pinned : force_tier flags ≡ none
  pub above : next_tier task.tier ladder ≡ some tier

-- A failure that its own class still has budget for.
pub record HasBudget (task : Task) (db : Db) : Type 0 where
  pub by_class :
      ((class_of task.failure_class ≡ infra) × (infra_attempts task db < max_infra_attempts))
      ⊎ ((task.failure_class ≡ some capability)
          × (capability_attempts task db < task.max_attempts_per_tier))

abbrev pub promoted_db : Db → Task → String → ℕ → Db
promoted_db db task tier now = record db {
  tasks = update_where (λ t. t.id == task.id) (promote_row tier now) db.tasks;
}

abbrev pub retried_db : Db → Task → ℕ → Db
retried_db db task now = record db {
  tasks =
      update_where (λ t. t.id == task.id) (retry_row (backoff_seconds task.attempt) now) db.tasks;
}

module _ (ladder : List Tier) (flags : Flags) (now : ℕ) (task : Task) (db : Db) where
  promote_when :
      (tier : String)
      → MustEscalate ladder flags task db tier
      → route_one ladder flags now task db ≡ some (promoted_db db task tier now, promote)
  unfolding route_one
  promote_when tier h = ground arith

  promote_only_when :
      (db' : Db) (tier : String)
      → next_tier task.tier ladder ≡ some tier
      → route_one ladder flags now task db ≡ some (db', promote)
      → MustEscalate ladder flags task db tier
  unfolding route_one put_back kill
  promote_only_when db' tier above h = ground arith

  no_promotion_at_top :
      (db' : Db)
      → next_tier task.tier ladder ≡ none
      → ¬ (route_one ladder flags now task db ≡ some (db', promote))
  unfolding route_one put_back kill
  no_promotion_at_top db' top h = ground arith

  -- A failure is promoted exactly when it is a capability failure that was handed out fewer than 25
  -- times, retries and escalation are on, no tier is pinned, its tier's budget of capability
  -- failures is spent and the ladder has a next tier.
  pub route_one-promote_iff :
      ((db' : Db) × (route_one ladder flags now task db ≡ some (db', promote)))
      ↔ ((tier : String) × MustEscalate ladder flags task db tier)
  route_one-promote_iff = (only, λ r. (promoted_db db task r.0 now, promote_when r.0 r.1))
    where
      only :
          (db' : Db) × (route_one ladder flags now task db ≡ some (db', promote))
          → (tier : String) × MustEscalate ladder flags task db tier
      only r = elim (Option-cases (next_tier task.tier ladder)) [
        | inl top ↦ absurd (no_promotion_at_top r.0 top r.1)
        | inr above ↦ (above.0, promote_only_when r.0 above.0 above.1 r.1)
      ]

  retry_when :
      MayRetry flags task
      → HasBudget task db
      → route_one ladder flags now task db ≡ some (retried_db db task now, retry)
  unfolding route_one put_back
  retry_when may budget = ground arith

  pub retry_only_when :
      (db' : Db)
      → route_one ladder flags now task db ≡ some (db', retry)
      → MayRetry flags task × HasBudget task db
  unfolding route_one put_back kill
  retry_only_when db' h = ground arith

  -- A failure goes back to its own tier exactly when it was handed out fewer than 25 times, retries
  -- are on, and its class has budget left: fewer than 5 infra failures, or fewer capability failures
  -- at this tier than the row allows; a row without a class counts as infra. Both count reported
  -- failures of the class, not handouts.
  pub route_one-retry_iff :
      ((db' : Db) × (route_one ladder flags now task db ≡ some (db', retry)))
      ↔ (MayRetry flags task × HasBudget task db)
  route_one-retry_iff =
      (λ r. retry_only_when r.0 r.1, λ h. (retried_db db task now, retry_when h.0 h.1))

  pub retry-eq :
      (db' : Db)
      → route_one ladder flags now task db ≡ some (db', retry)
      → db' ≡ retried_db db task now
  retry-eq db' h =
      let r = retry_only_when db' h in
      ap (λ (x : Db × Action). x.0) (some-injective _ _ (sym h ∙ retry_when r.0 r.1))

  pub promote-eq :
      (db' : Db)
      → route_one ladder flags now task db ≡ some (db', promote)
      → (tier : String) × (next_tier task.tier ladder ≡ some tier)
        × (db' ≡ promoted_db db task tier now)
  promote-eq db' h =
      let (tier, m) = route_one-promote_iff.0 (db', h) in
      (
        tier,
        m.above,
        ap (λ (x : Db × Action). x.0) (some-injective _ _ (sym h ∙ promote_when tier m)),
      )
