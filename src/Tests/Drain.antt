-- ===== src/Tests/Drain.antt =====
-- A worker that takes both tasks of one agent, the second with a side effect, and then finds its queue
-- empty.
use reliable_ai_agents.Prelude.{
  ℕ, zero, suc, ◌+◌, ◌*◌, ◌≤◌, ◌≡◌, refl, sym, ap, ◌∙◌, inr, subst, String, some, [], ◌∷◌, Memᴰ,
  arith, map, exists_where,
}
use reliable_ai_agents.Schema.{Agent, Task}
use reliable_ai_agents.Json.{Fields, num, field, end}
use reliable_ai_agents.Tiers.{cost_of}
use reliable_ai_agents.Registry.{get}
use reliable_ai_agents.Worker.Loop.{work}
use reliable_ai_agents.System.Remaining.{IsKeyed, turns_left}
use reliable_ai_agents.System.Ready.{IsScheduled, IsDoable, IsServed, IsReady}
use reliable_ai_agents.System.Runs.{IsSettled}
use reliable_ai_agents.System.Drain.{Turn, undisturbed, AllDone, agent_ids, work-AllDone}
use reliable_ai_agents.Tests.Samples.{
  ladder, registry, fetch, agent, first_task, second_task, submitted_db, transfer,
}

abbrev at_time : ℕ → Turn
at_time now = record { claimed_at = now; started = now + 1; finished_at = now + 20 }

abbrev digest : ℕ × ℕ × String → ℕ
digest (agent_id, seq, action_type) = agent_id * 1000 + seq

abbrev label : ℕ → String
label id = "task"

abbrev rows : Fields
rows = field "rows" (num 3) end

both_wait : IsScheduled submitted_db.tasks agent
both_wait zero from to = (first_task, Memᴰ.head refl, refl, refl, refl)
both_wait (suc zero) from to = (second_task, Memᴰ.tail (Memᴰ.head refl), refl, refl, refl)
both_wait (suc (suc n)) from to = absurd (omega (arith, to))

abbrev id_of : Task → ℕ
id_of t = t.id

two_ids : IsKeyed id_of submitted_db.tasks
two_ids x y (Memᴰ.head e) (Memᴰ.head k) same = e ∙ sym k
two_ids x y (Memᴰ.head e) (Memᴰ.tail (Memᴰ.head k)) same =
    let ids : ◌≡◌ {A = ℕ} 101 102 = sym (ap id_of e) ∙ (same ∙ ap id_of k) in
    absurd (omega (arith, ids))
two_ids x y (Memᴰ.tail (Memᴰ.head e)) (Memᴰ.head k) same =
    let ids : ◌≡◌ {A = ℕ} 102 101 = sym (ap id_of e) ∙ (same ∙ ap id_of k) in
    absurd (omega (arith, ids))
two_ids x y (Memᴰ.tail (Memᴰ.head e)) (Memᴰ.tail (Memᴰ.head k)) same = e ∙ sym k
two_ids x y (Memᴰ.tail (Memᴰ.tail m)) n same = elim m [ ]
two_ids x y m (Memᴰ.tail (Memᴰ.tail n)) same = elim n [ ]

one_agent : (x y : Agent) → Memᴰ x submitted_db.agents → Memᴰ y submitted_db.agents → x ≡ y
one_agent x y (Memᴰ.head e) (Memᴰ.head k) = e ∙ sym k
one_agent x y (Memᴰ.tail m) n = elim m [ ]
one_agent x y m (Memᴰ.tail n) = elim n [ ]

first-IsDoable : IsDoable "junior" 1000 registry first_task
unfolding get
first-IsDoable = (refl, omega arith, (fetch, refl, ((λ ctx. rows), λ ctx h. refl)))

second-IsDoable : IsDoable "junior" 1000 registry second_task
unfolding get
second-IsDoable = (refl, omega arith, (transfer, refl, ((λ ctx. rows), λ ctx h. refl)))

doable : (t : Task) → Memᴰ t submitted_db.tasks → IsDoable "junior" 1000 registry t
doable t (Memᴰ.head e) = subst (IsDoable "junior" 1000 registry) (sym e) first-IsDoable
doable t (Memᴰ.tail (Memᴰ.head e)) = subst (IsDoable "junior" 1000 registry) (sym e) second-IsDoable
doable t (Memᴰ.tail (Memᴰ.tail m)) = elim m [ ]

no_actions : IsSettled submitted_db.idempotency
unfolding exists_where
no_actions = refl

submitted_db-IsReady : IsReady "junior" 1000 registry submitted_db
submitted_db-IsReady = record {
  task_ids = two_ids;
  agent_ids = λ x y mx my same. one_agent x y mx my;
  served = λ a m.
      subst (λ (b : Agent). IsServed submitted_db.tasks b) (one_agent agent a (Memᴰ.head refl) m)
        (inr (refl, omega arith, both_wait));
  settled = no_actions;
  doable = λ t m pending. doable t m;
}

two_left : turns_left submitted_db.agents ≤ 3
unfolding turns_left
two_left = omega arith

priced : cost_of "junior" ladder ≡ some (1, 200)
unfolding cost_of
priced = refl

work-AllDone_example :
    let end_db =
      (work digest label 500
        (map
          (undisturbed "junior" "w1" 30 registry ladder)
          (at_time 1500 ∷ at_time 1600 ∷ at_time 1700 ∷ []))
        0
        submitted_db).0 in
    AllDone end_db.agents × (agent_ids end_db.agents ≡ agent_ids submitted_db.agents)
work-AllDone_example =
    work-AllDone "junior" "w1" 30 1000 registry ladder digest label 500 1 200 priced
      (at_time 1500 ∷ at_time 1600 ∷ at_time 1700 ∷ []) 0 submitted_db
      (omega arith, (omega arith, (omega arith, tt))) submitted_db-IsReady two_left
