-- ===== src/System/Submits.antt =====
-- api/main.py and chaos/harness.py: the inserts of `submit_agents` and `seed`, against the ordering
-- invariant.
use mathlib.Core.List.Memᴰ
use mathlib.Core.List.{append_assoc, append-nil}
use reliable_ai_agents.Prelude.{
  ℕ, zero, suc, ◌+◌, ◌<◌, ◌≤◌, ◌≡◌, ◌≢◌, refl, sym, ap, ◌∙◌, subst, inl, inr, String, List, [], ◌∷◌,
  ◌++◌, Memᴰ, arith, ltb, length, Bool-cases, Option-cases,
}
use reliable_ai_agents.Schema.{Agent, Tier, Task, Db}
use reliable_ai_agents.Tiers.{base_tier}
use reliable_ai_agents.Runtime.{Flags, force_tier}
use reliable_ai_agents.Registry.{Registry}
use reliable_ai_agents.Orchestrator.Queue.{new_task}
use reliable_ai_agents.Scale.{active_agents}
use reliable_ai_agents.Api.{
  new_agent, plan_rows, insert_agent, insert_agents, admit, submit_agents, Submission, tier_or_base,
  seed,
}
use reliable_ai_agents.System.Ordered.{Placed, IsOrdered, IsOrdered-add_agent, IsOrdered-add_task}
use reliable_ai_agents.System.Moves.{Ordered}
use reliable_ai_agents.System.Inserts.{FreshFrom-add_task, FreshFrom, Fresh}

module _ (uuid : ℕ → ℕ) (tier : String) (now : ℕ) (held : List Task) where
  plan_row-Placed :
      (id seq def : ℕ) (a : Agent) → a.cursor ≡ 0 → Placed a (new_task id a.id seq def tier now)
  unfolding new_task
  plan_row-Placed id seq def a e = ground arith

  -- The state of the loop over the plan: the order, ids still to draw, and room at every position
  -- from `seq` on for the one agent.
  record Filling (i seq : ℕ) (a : Agent) (agents : List Agent) (tasks : List Task) : Type 0 where
    ordered : IsOrdered agents tasks held
    fresh : FreshFrom uuid i agents tasks
    room : (t : Task) → Memᴰ t tasks → t.agent_id ≡ a.id → t.seq < seq
    owner : (j : ℕ) → i ≤ j → a.id ≢ uuid j

  add_row :
      (a : Agent) (agents : List Agent)
      → Memᴰ a agents
      → a.cursor ≡ 0
      → (i seq def : ℕ) (tasks : List Task) → Filling i seq a agents tasks
      → Filling (suc i) (suc seq) a agents (tasks ++ new_task (uuid i) a.id seq def tier now ∷ [])
  unfolding new_task
  add_row a agents ma zero_cursor i seq def tasks f = record {
    ordered =
        IsOrdered-add_task f.ordered (new_task (uuid i) a.id seq def tier now)
          (f.fresh.new_task_id i (omega arith))
          (λ t m ea es. let lt = f.room t m ea in absurd (omega arith))
          (λ b mb e.
            subst (λ x. Placed x (new_task (uuid i) a.id seq def tier now))
              (f.ordered.agents_keyed a b ma mb e)
              (plan_row-Placed (uuid i) seq def a zero_cursor));
    fresh = FreshFrom-add_task uuid i agents tasks _ f.fresh refl (λ j lt. f.owner j (omega arith));
    room = λ t m e. elim (Memᴰ.append_cases tasks m) [
      | inl old ↦ let lt = f.room t old e in omega arith
      | inr new ↦
          let s : t.seq ≡ seq = ap (λ (x : Task). x.seq) (Memᴰ.eq_of_singleton new) in omega arith
    ];
    owner = λ j lt. f.owner j (omega arith);
  }

  FreshFrom-add_agent :
      (i : ℕ) (a : Agent) (agents : List Agent) (tasks : List Task)
      → FreshFrom uuid i agents tasks
      → a.id ≡ uuid i
      → FreshFrom uuid (suc i) (agents ++ a ∷ []) tasks
  FreshFrom-add_agent i a agents tasks fresh e = record {
    distinct = fresh.distinct;
    new_agent_id = λ j h b m q. elim (Memᴰ.append_cases agents m) [
      | inl old ↦ fresh.new_agent_id j (omega arith) b old q
      | inr new ↦
          let same : uuid i ≡ uuid j =
            sym e ∙ sym (ap (λ (x : Agent). x.id) (Memᴰ.eq_of_singleton new)) ∙ q in
          let ij : i ≡ j = fresh.distinct i j same in absurd (omega arith)
    ];
    new_task_id = λ j h. fresh.new_task_id j (omega arith);
    unreferenced = λ j h. fresh.unreferenced j (omega arith);
  }

  plan_rows-Filling :
      (a : Agent) (agents : List Agent)
      → Memᴰ a agents
      → a.cursor ≡ 0
      → (i seq : ℕ) (plan : List ℕ) (tasks : List Task) → Filling i seq a agents tasks
      → Filling
          (i + length plan)
          (seq + length plan)
          a
          agents
          (tasks ++ plan_rows uuid i a.id tier now seq plan)
  unfolding plan_rows
  plan_rows-Filling a agents ma zero_cursor i seq [] tasks f =
      let e : i ≡ i + 0 = omega arith in
      let e' : seq ≡ seq + 0 = omega arith in
      subst (λ k. Filling k (seq + 0) a agents (tasks ++ [])) e
        (subst (λ k. Filling i k a agents (tasks ++ [])) e' (rw append-nil f))
  plan_rows-Filling a agents ma zero_cursor i seq (def ∷ rest) tasks f =
      let e : suc i + length rest ≡ i + suc (length rest) = omega arith in
      let e' : suc seq + length rest ≡ seq + suc (length rest) = omega arith in
      let row = new_task (uuid i) a.id seq def tier now in
      let rows = plan_rows uuid (suc i) a.id tier now (suc seq) rest in
      subst (λ k. Filling k (seq + suc (length rest)) a agents (tasks ++ row ∷ rows)) e
        (subst (λ k. Filling (suc i + length rest) k a agents (tasks ++ row ∷ rows)) e'
          (subst (Filling (suc i + length rest) (suc seq + length rest) a agents)
            (append_assoc tasks (row ∷ []) rows)
            (plan_rows-Filling a agents ma zero_cursor (suc i) (suc seq) rest (tasks ++ row ∷ [])
              (add_row a agents ma zero_cursor i seq def tasks f))))

  insert_agent-keeps :
      (i : ℕ) (plan : List ℕ) (db : Db)
      → Ordered db held
      → FreshFrom uuid i db.agents db.tasks
      → let db' = insert_agent uuid i plan tier now db in
        Ordered db' held × FreshFrom uuid (suc i + length plan) db'.agents db'.tasks
  unfolding insert_agent new_agent
  insert_agent-keeps i plan db ordered fresh =
      let a = new_agent (uuid i) plan now in
      let agents = db.agents ++ a ∷ [] in
      let new : (b : Agent) → Memᴰ b db.agents → b.id ≢ a.id = fresh.new_agent_id i (omega arith) in
      let unused : (t : Task) → Memᴰ t db.tasks → t.agent_id ≢ a.id =
        fresh.unreferenced i (omega arith) in
      let start : Filling (suc i) 0 a agents db.tasks = record {
        ordered = IsOrdered-add_agent ordered a new unused;
        fresh = FreshFrom-add_agent i a db.agents db.tasks fresh refl;
        room = λ t m e. absurd (unused t m e);
        owner = λ j lt q. let ij : i ≡ j = fresh.distinct i j q in absurd (omega arith);
      } in
      let done =
        plan_rows-Filling a agents (Memᴰ.append_right db.agents (Memᴰ.head refl)) refl (suc i) 0
          plan db.tasks start in
      (done.ordered, done.fresh)

  insert_agents-Ordered :
      (n i : ℕ) (plan : List ℕ) (db : Db) (ids : List ℕ)
      → Ordered db held
      → FreshFrom uuid i db.agents db.tasks
      → Ordered (insert_agents uuid i n plan tier now db ids).0 held
  unfolding insert_agents
  insert_agents-Ordered zero i plan db ids ordered fresh = ordered
  insert_agents-Ordered (suc n) i plan db ids ordered fresh =
      let r = insert_agent-keeps i plan db ordered fresh in
      insert_agents-Ordered n (suc i + length plan) plan (insert_agent uuid i plan tier now db)
        (ids ++ uuid i ∷ []) r.0 r.1

  admit-Ordered :
      (max_active : ℕ) (body : Submission) (db : Db)
      → Ordered db held
      → Fresh uuid db
      → Ordered (admit max_active uuid body tier now db).0 held
  unfolding admit
  admit-Ordered max_active body db ordered fresh =
      elim (Bool-cases (ltb max_active (active_agents db + body.count))) [
        | inl full ↦ rw full ordered
        | inr room ↦ rw room (insert_agents-Ordered body.count 0 body.plan db [] ordered fresh)
      ]

module _ (max_active : ℕ) (task_defs : Registry) (ladder : List Tier) (flags : Flags) (uuid : ℕ → ℕ)
    (body : Submission) (now : ℕ) (db : Db) where
  -- Every answer but that of the transaction leaves the database alone.
  pub submit_agents-cases :
      (P : Db → Type 0)
      → P db
      → ((tier : String) → P (admit max_active uuid body tier now db).0)
      → P (submit_agents max_active task_defs ladder flags uuid body now db).0
  unfolding submit_agents
  submit_agents-cases P same admitted =
      elim (Option-cases (tier_or_base (force_tier flags) (base_tier ladder))) [
        | inl unknown ↦ ground (arith, same)
        | inr r ↦ ground (arith, same, admitted r.0)
      ]

  pub submit_agents-Ordered :
      (held : List Task)
      → Fresh uuid db
      → Ordered db held
      → Ordered (submit_agents max_active task_defs ladder flags uuid body now db).0 held
  submit_agents-Ordered held fresh ordered =
      submit_agents-cases (λ d. Ordered d held) ordered
        (λ tier. admit-Ordered uuid tier now held max_active body db ordered fresh)

pub seed-Ordered :
    (uuid : ℕ → ℕ) (n : ℕ) (plan : List ℕ) (now : ℕ) (db : Db) (held : List Task)
    → Fresh uuid db
    → Ordered db held
    → Ordered (seed uuid n plan now db).0 held
unfolding seed
seed-Ordered uuid n plan now db held fresh ordered =
    insert_agents-Ordered uuid "junior" now held n 0 plan db [] ordered fresh
