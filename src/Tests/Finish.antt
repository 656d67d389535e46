-- ===== src/Tests/Finish.antt =====
-- An agent with a plan of one task, from its submission to its completion.
use mathlib.Core.List.Memᴰ
use reliable_ai_agents.Prelude.{
  ◌≤◌, ◌≡◌, refl, sym, ap, ◌∙◌, subst, Option, some, List, [], ◌∷◌, Memᴰ, arith, length, select,
  exists_where, count_where, update_where, order_by,
}
use reliable_ai_agents.Schema.{Agent, AgentStatus, Task, TaskStatus, Db}
use reliable_ai_agents.Tiers.{base_tier}
use reliable_ai_agents.Runtime.{force_tier}
use reliable_ai_agents.Scale.{active_agents}
use reliable_ai_agents.Worker.Claim.{claim_one}
use reliable_ai_agents.Worker.Checkpoint.{checkpoint_success}
use reliable_ai_agents.Api.{Submission, submit_agents}
use reliable_ai_agents.System.Moves.{with_claim}
use reliable_ai_agents.System.Inserts.{FreshFrom}
use reliable_ai_agents.System.Steps.{Sys, claims, commits, submits, Reach, here, next}
use reliable_ai_agents.System.Order.{fresh_start}
use reliable_ai_agents.Tests.Samples.{
  ladder, empty_db, answer, registry, uuid, free, agent, first_task, running_task,
}
use reliable_ai_agents.System.Finished.{completed_lem}

abbrev short_submission : Submission
short_submission = record { plan = 7 ∷ []; count = 1 }

abbrev short_agent : Agent
short_agent = record agent { plan = 7 ∷ [] }

abbrev short_submitted : Db
short_submitted = record empty_db { agents = short_agent ∷ []; tasks = first_task ∷ [] }

abbrev pub short_claimed : Db
short_claimed = record empty_db { agents = short_agent ∷ []; tasks = running_task ∷ [] }

abbrev submitted : Sys
submitted = record {
  db = (submit_agents 100 registry ladder [] uuid short_submission 1000 empty_db).0;
  held = [];
}

abbrev pub claimed : Sys
claimed = record {
  db = (claim_one free 1000 "junior" "w1" 30 submitted.db).0;
  held = with_claim (claim_one free 1000 "junior" "w1" 30 submitted.db).1 [];
}

uuid-Fresh : FreshFrom uuid 0 [] []
uuid-Fresh = record {
  distinct = λ j k e. omega (arith, e);
  new_agent_id = λ j h a m. absurd (Memᴰ.not-nil m);
  new_task_id = λ j h t m. absurd (Memᴰ.not-nil m);
  unreferenced = λ j h t m. absurd (Memᴰ.not-nil m);
}

submitted-Reach : Reach (fresh_start empty_db) submitted
submitted-Reach = next here (submits 100 registry ladder [] uuid short_submission 1000 uuid-Fresh)

pub claimed-Reach : Reach (fresh_start empty_db) claimed
claimed-Reach = next submitted-Reach (claims free 1000 "junior" "w1" 30)

abbrev finished_task : Task
finished_task = record running_task {
  status = TaskStatus.succeeded;
  result = some answer;
  updated_at = 1500;
}

abbrev advanced_agent : Agent
advanced_agent = record short_agent {
  status = AgentStatus.completed;
  cursor = 1;
  context = (0, answer) ∷ [];
  cost_units = 1;
  tokens_used = 200;
  updated_at = 1500;
}

submitted-eq : submitted.db ≡ short_submitted
unfolding submit_agents select force_tier base_tier active_agents count_where
submitted-eq = refl

claim-eq : claim_one free 1000 "junior" "w1" 30 short_submitted ≡ (short_claimed, some running_task)
unfolding claim_one select order_by exists_where update_where
claim-eq = refl

pub claimed-eq : claimed ≡ record { db = short_claimed; held = running_task ∷ [] }
claimed-eq =
    ap (λ (r : Db × Option Task). record { db = r.0; held = with_claim r.1 [] })
      (ap (claim_one free 1000 "junior" "w1" 30) submitted-eq ∙ claim-eq)

held-running_task : Memᴰ running_task claimed.held
held-running_task = subst (λ (s : Sys). Memᴰ running_task s.held) (sym claimed-eq) (Memᴰ.head refl)

abbrev committed : Sys
committed = record claimed {
  db = (checkpoint_success running_task answer 1 200 1000 "w1" 1500 claimed.db).0;
}

committed-Reach : Reach (fresh_start empty_db) committed
committed-Reach =
    next claimed-Reach (commits running_task answer 1 200 1000 "w1" 1500 held-running_task)

abbrev committed_agents : List Agent
committed_agents = advanced_agent ∷ []

abbrev committed_tasks : List Task
committed_tasks = finished_task ∷ []

commit-eq :
    ((checkpoint_success running_task answer 1 200 1000 "w1" 1500 short_claimed).0.agents
      ≡ committed_agents)
    × ((checkpoint_success running_task answer 1 200 1000 "w1" 1500 short_claimed).0.tasks
        ≡ committed_tasks)
unfolding checkpoint_success exists_where update_where
commit-eq = (refl, refl)

committed_claim :
    (checkpoint_success running_task answer 1 200 1000 "w1" 1500 claimed.db).0
    ≡ (checkpoint_success running_task answer 1 200 1000 "w1" 1500 short_claimed).0
committed_claim =
    ap (λ (s : Sys). (checkpoint_success running_task answer 1 200 1000 "w1" 1500 s.db).0)
      claimed-eq

agent-committed : Memᴰ advanced_agent committed.db.agents
agent-committed =
    subst (Memᴰ advanced_agent) (sym (ap (λ (d : Db). d.agents) committed_claim ∙ commit-eq.0))
      (Memᴰ.head refl)

task-committed : Memᴰ finished_task committed.db.tasks
task-committed =
    subst (Memᴰ finished_task) (sym (ap (λ (d : Db). d.tasks) committed_claim ∙ commit-eq.1))
      (Memᴰ.head refl)

completed_lem_example :
    (length advanced_agent.plan ≤ advanced_agent.cursor)
    × (finished_task.status ≡ TaskStatus.succeeded)
completed_lem_example =
    completed_lem empty_db committed committed-Reach advanced_agent finished_task agent-committed
      task-committed refl refl (omega arith)
