-- ===== src/Tests/Workers.antt =====
-- A checkpoint of a worker that holds its lease, one of a worker that lost it, and a transfer that
-- is run twice.
use reliable_ai_agents.Prelude.{
  ℕ, ◌+◌, ◌*◌, ◌≡◌, ◌⊎◌, refl, String, true, false, none, [], select, update_where,
}
use reliable_ai_agents.Schema.{Detail, Db}
use reliable_ai_agents.Protocol.{TaskContext, TaskDef, fails}
use reliable_ai_agents.Worker.Checkpoint.{checkpoint_success}
use reliable_ai_agents.Tests.Samples.{
  free, ladder, empty_db, answer, transfer, running_task, claimed_db,
}
use reliable_ai_agents.Failures.{infra_failure}
use reliable_ai_agents.Worker.Checkpoint.{checkpoint_success}
use reliable_ai_agents.Worker.Checkpoint.Fence.{
  Holds, AtCursor, Checkpointed, checkpoint_success_lem,
}
use reliable_ai_agents.Orchestrator.Ledger.{action_id, lookup, begin, settle}
use reliable_ai_agents.Orchestrator.Reaper.{reap}
use reliable_ai_agents.Worker.Executor.{finished, failed, Trace, Labels, execute}
use reliable_ai_agents.Worker.Executor.Guard.{
  key, again, refusal, replay, Undisturbed, execute-after_success, execute-after_failure,
}

checkpoint_success_lem_example :
    let r = checkpoint_success running_task answer 1 200 1000 "w1" 1500 claimed_db in
    (Holds running_task.id "w1" claimed_db
      × AtCursor running_task claimed_db
      × (r.1 ≡ true)
      × Checkpointed running_task answer 1 200 1000 "w1" 1500 claimed_db r.0)
    ⊎ ((¬ (Holds running_task.id "w1" claimed_db × AtCursor running_task claimed_db))
        × (r ≡ (claimed_db, false)))
checkpoint_success_lem_example =
    checkpoint_success_lem running_task answer 1 200 1000 "w1" 1500 claimed_db

abbrev digest : ℕ × ℕ × String → ℕ
digest (agent_id, seq, action) = 1000 * agent_id + seq

abbrev label : Labels
label id = "task"

abbrev at_second : TaskContext
at_second = record { agent_id = 100; seq = 1; tier = "junior"; prior = []; idem_key = none }

-- While the task runs, another worker reserves another action and the reaper sweeps.
abbrev busy : Db → Db
busy db = (begin 7 1 2 "other" 1100 (reap free 200 (λ id. 250) 1100 db).0).0

abbrev first : Trace
first = execute digest label ladder transfer at_second busy 1000 empty_db

first_acts : first.acted ≡ true
unfolding execute begin lookup reap select
first_acts = refl

first_finishes : first.execution ≡ finished answer 1 200 false
unfolding execute begin lookup reap select
first_finishes = refl

first_alone : Undisturbed digest label transfer at_second refl busy 1000 empty_db
unfolding begin lookup reap select action_id
first_alone = refl

-- The later run finds a third reservation besides.
abbrev later : Db → Db
later db = (begin 8 1 3 "third" 1900 db).0

first_kept :
    lookup (key digest label transfer at_second refl) (later first.db)
    ≡ lookup (key digest label transfer at_second refl) first.db
unfolding execute begin settle lookup reap select update_where action_id
first_kept = refl

execute-after_success_example :
    execute digest label ladder transfer
      (again digest label transfer at_second refl "senior")
      busy
      2000
      (later first.db)
    ≡ replay digest label transfer at_second refl answer (later first.db)
execute-after_success_example =
    execute-after_success digest label transfer at_second refl ladder busy 1000 empty_db first_acts
      first_alone answer 1 200 first_finishes ladder "senior" busy 2000 (later first.db) first_kept

-- A transfer whose request times out.
abbrev flaky : TaskDef
flaky = record transfer { run = λ ctx. fails (infra_failure (Detail.message "timeout")) }

abbrev flaked : Trace
flaked = execute digest label ladder flaky at_second busy 1000 empty_db

flaky_acts : flaked.acted ≡ true
unfolding execute begin lookup reap select
flaky_acts = refl

flaky_fails : flaked.execution ≡ failed (infra_failure (Detail.message "timeout"))
unfolding execute begin lookup reap select
flaky_fails = refl

flaky_alone : Undisturbed digest label flaky at_second refl busy 1000 empty_db
unfolding begin lookup reap select action_id
flaky_alone = refl

flaky_kept :
    lookup (key digest label flaky at_second refl) (later flaked.db)
    ≡ lookup (key digest label flaky at_second refl) flaked.db
unfolding execute begin settle lookup reap select update_where action_id
flaky_kept = refl

execute-after_failure_example :
    execute digest label ladder flaky
      (again digest label flaky at_second refl "junior")
      busy
      3000
      (later flaked.db)
    ≡ refusal digest label flaky at_second refl (later flaked.db)
execute-after_failure_example =
    execute-after_failure digest label flaky at_second refl ladder busy 1000 empty_db flaky_acts
      flaky_alone (infra_failure (Detail.message "timeout")) flaky_fails ladder "junior" busy 3000
      (later flaked.db) flaky_kept
