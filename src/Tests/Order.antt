-- ===== src/Tests/Order.antt =====
-- One agent submitted, its first task claimed and committed.
use mathlib.Core.List.Memᴰ
use reliable_ai_agents.Prelude.{
  ◌≤◌, ◌<◌, ◌≡◌, ◌↔◌, ◌⊎◌, refl, sym, ap, ◌∙◌, subst, Option, some, List, [], ◌∷◌, Memᴰ, arith,
  select, exists_where, count_where, update_where, order_by,
}
use reliable_ai_agents.Schema.{Agent, Task, TaskStatus, Db}
use reliable_ai_agents.Tiers.{base_tier}
use reliable_ai_agents.Runtime.{force_tier}
use reliable_ai_agents.Scale.{active_agents}
use reliable_ai_agents.Worker.Claim.{claim_one}
use reliable_ai_agents.Worker.Checkpoint.{checkpoint_success}
use reliable_ai_agents.Api.{submit_agents}
use reliable_ai_agents.System.Moves.{with_claim}
use reliable_ai_agents.System.Inserts.{FreshFrom}
use reliable_ai_agents.System.Steps.{Sys, claims, commits, submits, Reach, here, next}
use reliable_ai_agents.System.Order.{fresh_start, tasks_in_order, one_running}
use reliable_ai_agents.Tests.Samples.{
  ladder, empty_db, answer, registry, uuid, free, submission, agent, second_task, running_task,
  submitted_db, claimed_db,
}

abbrev submitted : Sys
submitted = record {
  db = (submit_agents 100 registry ladder [] uuid submission 1000 empty_db).0;
  held = [];
}

abbrev claimed : Sys
claimed = record {
  db = (claim_one free 1000 "junior" "w1" 30 submitted.db).0;
  held = with_claim (claim_one free 1000 "junior" "w1" 30 submitted.db).1 [];
}

uuid-Fresh : FreshFrom uuid 0 [] []
uuid-Fresh = record {
  distinct = λ j k e. omega (arith, e);
  new_agent_id = λ j h a m. absurd (Memᴰ.not-nil m);
  new_task_id = λ j h t m. absurd (Memᴰ.not-nil m);
  unreferenced = λ j h t m. absurd (Memᴰ.not-nil m);
}

submitted-Reach : Reach (fresh_start empty_db) submitted
submitted-Reach = next here (submits 100 registry ladder [] uuid submission 1000 uuid-Fresh)

claimed-Reach : Reach (fresh_start empty_db) claimed
claimed-Reach = next submitted-Reach (claims free 1000 "junior" "w1" 30)

abbrev finished_task : Task
finished_task = record running_task {
  status = TaskStatus.succeeded;
  result = some answer;
  updated_at = 1500;
}

abbrev advanced_agent : Agent
advanced_agent = record agent {
  cursor = 1;
  context = (0, answer) ∷ [];
  cost_units = 1;
  tokens_used = 200;
  updated_at = 1500;
}

submitted-eq : submitted.db ≡ submitted_db
unfolding submit_agents select force_tier base_tier active_agents count_where
submitted-eq = refl

claim-eq : claim_one free 1000 "junior" "w1" 30 submitted_db ≡ (claimed_db, some running_task)
unfolding claim_one select order_by exists_where update_where
claim-eq = refl

claimed-eq : claimed ≡ record { db = claimed_db; held = running_task ∷ [] }
claimed-eq =
    ap (λ (r : Db × Option Task). record { db = r.0; held = with_claim r.1 [] })
      (ap (claim_one free 1000 "junior" "w1" 30) submitted-eq ∙ claim-eq)

held-running_task : Memᴰ running_task claimed.held
held-running_task = subst (λ (s : Sys). Memᴰ running_task s.held) (sym claimed-eq) (Memᴰ.head refl)

abbrev committed : Sys
committed = record claimed {
  db = (checkpoint_success running_task answer 1 200 1000 "w1" 1500 claimed.db).0;
}

committed-Reach : Reach (fresh_start empty_db) committed
committed-Reach =
    next claimed-Reach (commits running_task answer 1 200 1000 "w1" 1500 held-running_task)

abbrev committed_agents : List Agent
committed_agents = advanced_agent ∷ []

abbrev committed_tasks : List Task
committed_tasks = finished_task ∷ second_task ∷ []

commit-eq :
    ((checkpoint_success running_task answer 1 200 1000 "w1" 1500 claimed_db).0.agents
      ≡ committed_agents)
    × ((checkpoint_success running_task answer 1 200 1000 "w1" 1500 claimed_db).0.tasks
        ≡ committed_tasks)
unfolding checkpoint_success exists_where update_where
commit-eq = (refl, refl)

committed_claim :
    (checkpoint_success running_task answer 1 200 1000 "w1" 1500 claimed.db).0
    ≡ (checkpoint_success running_task answer 1 200 1000 "w1" 1500 claimed_db).0
committed_claim =
    ap (λ (s : Sys). (checkpoint_success running_task answer 1 200 1000 "w1" 1500 s.db).0)
      claimed-eq

agent-committed : Memᴰ advanced_agent committed.db.agents
agent-committed =
    subst (Memᴰ advanced_agent) (sym (ap (λ (d : Db). d.agents) committed_claim ∙ commit-eq.0))
      (Memᴰ.head refl)

task-committed : Memᴰ finished_task committed.db.tasks
task-committed =
    subst (Memᴰ finished_task) (sym (ap (λ (d : Db). d.tasks) committed_claim ∙ commit-eq.1))
      (Memᴰ.head refl)

tasks_in_order_example :
    ((finished_task.status ≡ TaskStatus.succeeded) ↔ (finished_task.seq < advanced_agent.cursor))
    × ((finished_task.seq ≤ advanced_agent.cursor)
        ⊎ (finished_task.status ≡ TaskStatus.pending)
        ⊎ (finished_task.status ≡ TaskStatus.dead))
tasks_in_order_example =
    tasks_in_order empty_db committed committed-Reach advanced_agent finished_task agent-committed
      task-committed refl

agent-claimed : Memᴰ agent claimed.db.agents
agent-claimed = subst (λ (s : Sys). Memᴰ agent s.db.agents) (sym claimed-eq) (Memᴰ.head refl)

task-claimed : Memᴰ running_task claimed.db.tasks
task-claimed = subst (λ (s : Sys). Memᴰ running_task s.db.tasks) (sym claimed-eq) (Memᴰ.head refl)

one_running_example : (running_task ≡ running_task) × (running_task.seq ≡ agent.cursor)
one_running_example =
    one_running empty_db claimed claimed-Reach agent running_task running_task agent-claimed
      task-claimed task-claimed refl refl refl refl
