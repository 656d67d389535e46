-- ===== src/Orchestrator/Classify/Evidence.antt =====
-- orchestrator/reaper.py and classify.py: what a reclaimed lease costs its task.
use reliable_ai_agents.Prelude.{
  ℕ, ◌≡◌, refl, Bool, false, List, [], ◌∷◌, ◌++◌, map, arith, count_where, count_where-append,
  Evolves, Evolves-update_where,
}
use reliable_ai_agents.Schema.{Task, Attempt, Db}
use reliable_ai_agents.Orchestrator.Reaper.{evidence, expired, reap}
use reliable_ai_agents.Orchestrator.Classify.{
  counts_capability, counts_infra, capability_attempts, infra_attempts,
}

-- The columns of a task that decide who may run it, and for how much.
pub record SameWork (t u : Task) : Type 0 where
  pub id : u.id ≡ t.id
  pub agent_id : u.agent_id ≡ t.agent_id
  pub seq : u.seq ≡ t.seq
  pub tier : u.tier ≡ t.tier
  pub attempt : u.attempt ≡ t.attempt

no_failures :
    (q : Attempt → Bool) (now : ℕ) (rows : List Task)
    → ((t : Task) → q (evidence now t) ≡ false)
    → count_where q (map (evidence now) rows) ≡ 0
unfolding count_where
no_failures q now [] h = refl
no_failures q now (t ∷ ts) h = ground (arith, h t, no_failures q now ts h)

reclaims_uncounted :
    (q : Attempt → Bool) (now : ℕ) (rows : List Task) (attempts : List Attempt)
    → ((t : Task) → q (evidence now t) ≡ false)
    → count_where q (attempts ++ map (evidence now) rows) ≡ count_where q attempts
reclaims_uncounted q now rows attempts h =
    omega (arith, count_where-append q attempts (map (evidence now) rows), no_failures q now rows h)

module _ (locked : ℕ → Bool) (batch : ℕ) (jitter : ℕ → ℕ) (now : ℕ) (db : Db) where
  -- Reclaiming leases, however many, changes neither the count of capability failures nor that of
  -- infra failures of any task, and leaves each task its identity, its tier and its number of
  -- handouts.
  pub reap-keeps_budgets :
      ((task : Task)
        → (capability_attempts task (reap locked batch jitter now db).0
            ≡ capability_attempts task db)
          × (infra_attempts task (reap locked batch jitter now db).0 ≡ infra_attempts task db))
      × Evolves SameWork db.tasks (reap locked batch jitter now db).0.tasks
  unfolding reap capability_attempts infra_attempts
  reap-keeps_budgets = (
    λ task. (
      reclaims_uncounted (counts_capability task.id task.tier) now (expired locked batch now db)
          db.attempts (λ t. ground arith),
      reclaims_uncounted (counts_infra task.id) now (expired locked batch now db) db.attempts
          (λ t. ground arith),
    ),
    Evolves-update_where SameWork _ _ db.tasks (λ t e. ground arith) (λ t e. ground arith),
  )
