-- ===== src/Tests/Losses.antt =====
-- The claimed task of an agent with a plan of one task fails for good and is buried.
use reliable_ai_agents.Prelude.{
  ◌≡◌, refl, ap, ◌∙◌, some, [], ◌∷◌, Memᴰ, select, exists_where, update_where, order_by,
}
use reliable_ai_agents.Schema.{
  Agent, AgentStatus, Task, TaskStatus, Detail, Reason, Outcome, poison, Db,
}
use reliable_ai_agents.Failures.{TaskFailure, poison_failure}
use reliable_ai_agents.Worker.Checkpoint.{attempt_row, report_failure}
use reliable_ai_agents.Orchestrator.Classify.{Counts, bury, kill, route_one, route_all, classify}
use reliable_ai_agents.System.Steps.{Sys, reports, classifies, Reach, next}
use reliable_ai_agents.System.Order.{fresh_start}
use reliable_ai_agents.System.Letters.{HasLetter}
use reliable_ai_agents.System.Silent.{losses_mourned}
use reliable_ai_agents.Tests.Samples.{ladder, empty_db, free, running_task}
use reliable_ai_agents.Tests.Finish.{short_claimed, claimed, claimed-Reach, claimed-eq}

abbrev failure : TaskFailure
failure = poison_failure (Detail.not_in_registry 7)

abbrev reported : Sys
reported = record claimed { db = report_failure running_task failure 1000 "w1" 1500 claimed.db }

abbrev failed_task : Task
failed_task = record running_task {
  status = TaskStatus.failed;
  failure_class = some poison;
  last_error = some (Detail.not_in_registry 7);
  updated_at = 1500;
}

abbrev failed_db : Db
failed_db = record short_claimed {
  tasks = failed_task ∷ [];
  attempts = attempt_row running_task "w1" Outcome.failed (some poison) 0 0 1000 1500 ∷ [];
}

report-eq : report_failure running_task failure 1000 "w1" 1500 short_claimed ≡ failed_db
unfolding report_failure exists_where update_where
report-eq = refl

reported-eq : reported.db ≡ failed_db
reported-eq =
    ap (λ (s : Sys). report_failure running_task failure 1000 "w1" 1500 s.db) claimed-eq ∙ report-eq

abbrev dead_db : Db
dead_db = bury failed_db failed_task Reason.poison 2000 poison

abbrev one_dead : Counts
one_dead = record { retries = 0; promotions = 0; dead = 1 }

classify-eq : classify free 10 ladder [] 2000 failed_db ≡ some (dead_db, one_dead)
unfolding classify select order_by route_all route_one kill
classify-eq = refl

abbrev routed : Sys
routed = record reported { db = dead_db }

routed-Reach : Reach (fresh_start empty_db) routed
routed-Reach = next (next claimed-Reach (reports running_task failure 1000 "w1" 1500)) (
    classifies free 10 ladder [] 2000 dead_db one_dead
      (ap (classify free 10 ladder [] 2000) reported-eq ∙ classify-eq))

losses_mourned_example :
    ((t : Task)
      → Memᴰ t dead_db.tasks
      → t.status ≡ TaskStatus.dead
      → HasLetter t.agent_id dead_db.dlq)
    × ((a : Agent)
        → Memᴰ a dead_db.agents
        → a.status ≡ AgentStatus.failed
        → HasLetter a.id dead_db.dlq)
losses_mourned_example = losses_mourned empty_db routed routed-Reach
