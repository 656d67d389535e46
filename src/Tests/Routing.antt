-- ===== src/Tests/Routing.antt =====
-- A weak model's failures, routed; leases reclaimed beside them.
use reliable_ai_agents.Prelude.{
  ◌≡◌, ◌≢◌, ◌↔◌, refl, String, none, some, [], ◌∷◌, count_where, Evolves,
}
use reliable_ai_agents.Schema.{Task, TaskStatus, capability, Attempt, Outcome, Db}
use reliable_ai_agents.Tiers.{next_tier}
use reliable_ai_agents.Runtime.{retries_enabled, escalation_enabled, force_tier}
use reliable_ai_agents.Tests.Samples.{
  ladder, free, first_task, second_task, submitted_db, claimed_db,
}
use reliable_ai_agents.Orchestrator.Classify.{
  retry, promote, dlq, route_one, capability_attempts, infra_attempts,
}
use reliable_ai_agents.Orchestrator.Classify.Routing.{
  MayRetry, HasBudget, MustEscalate, promoted_db, route_one-promote_iff, route_one-retry_iff,
}
use reliable_ai_agents.Orchestrator.Classify.GivenUp.{GivesUp, route_one-dlq_iff}
use reliable_ai_agents.Orchestrator.Classify.Burial.{Effect, route_one-Effect}
use reliable_ai_agents.Orchestrator.Classify.Evidence.{SameWork, reap-keeps_budgets}
use reliable_ai_agents.Orchestrator.Reaper.{reap}

abbrev weak : Task
weak = record first_task {
  status = TaskStatus.failed;
  attempt = 2;
  failure_class = some capability;
}

abbrev wrong_answer : Attempt
wrong_answer = record {
  task_instance_id = 101;
  agent_id = 100;
  seq = 0;
  attempt_no = 1;
  tier = "junior";
  worker_id = some "w1";
  outcome = Outcome.failed;
  failure_class = some capability;
  cost_units = 0;
  tokens = 0;
  started_at = 1000;
  ended_at = some 1100;
}

abbrev weak_db : Db
weak_db = record submitted_db {
  tasks = weak ∷ second_task ∷ [];
  attempts = wrong_answer ∷ wrong_answer ∷ [];
}

-- Both counted failures are of the junior tier, so the task moves up.
weak-promoted :
    route_one ladder [] 5000 weak weak_db ≡ some (promoted_db weak_db weak "senior" 5000, promote)
unfolding route_one retries_enabled capability_attempts count_where escalation_enabled force_tier
    next_tier
weak-promoted = refl

route_one-promote_iff_example :
    ((db' : Db) × (route_one ladder [] 5000 weak weak_db ≡ some (db', promote)))
    ↔ ((tier : String) × MustEscalate ladder [] weak weak_db tier)
route_one-promote_iff_example = route_one-promote_iff ladder [] 5000 weak weak_db

route_one-retry_iff_example :
    ((db' : Db) × (route_one ladder [] 5000 weak submitted_db ≡ some (db', retry)))
    ↔ (MayRetry [] weak × HasBudget weak submitted_db)
route_one-retry_iff_example = route_one-retry_iff ladder [] 5000 weak submitted_db

-- The ladder ends at the senior tier.
abbrev weak_senior : Task
weak_senior = record weak { tier = "senior"; max_attempts_per_tier = 0 }

route_one-dlq_iff_example :
    (((db' : Db) × (route_one ladder [] 5000 weak_senior weak_db ≡ some (db', dlq)))
      ↔ ((weak_senior.failure_class ≢ none) × GivesUp ladder [] weak_senior weak_db))
    × ((route_one ladder [] 5000 weak_senior weak_db ≡ none)
        ↔ ((weak_senior.failure_class ≡ none) × GivesUp ladder [] weak_senior weak_db))
route_one-dlq_iff_example = route_one-dlq_iff ladder [] 5000 weak_senior weak_db

route_one-Effect_example :
    Effect ladder [] 5000 weak weak_db (promoted_db weak_db weak "senior" 5000) promote
route_one-Effect_example =
    route_one-Effect ladder [] 5000 weak weak_db (promoted_db weak_db weak "senior" 5000) promote
      weak-promoted

reap-keeps_budgets_example :
    ((task : Task)
      → (capability_attempts task (reap free 200 (λ id. 250) 40000 claimed_db).0
          ≡ capability_attempts task claimed_db)
        × (infra_attempts task (reap free 200 (λ id. 250) 40000 claimed_db).0
            ≡ infra_attempts task claimed_db))
    × Evolves SameWork claimed_db.tasks (reap free 200 (λ id. 250) 40000 claimed_db).0.tasks
reap-keeps_budgets_example = reap-keeps_budgets free 200 (λ id. 250) 40000 claimed_db
