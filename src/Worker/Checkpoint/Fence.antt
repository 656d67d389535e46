-- ===== src/Worker/Checkpoint/Fence.antt =====
-- worker/main.py: the two fences of the worker's transactions: the lease and the cursor.
use reliable_ai_agents.Prelude.{
  ℕ, ◌+◌, ◌≡◌, refl, false, List, [], ◌∷◌, ◌++◌, ◌⊎◌, inl, inr, length, ◌==◌, Bool-cases,
  update_where, Evolves, Evolves-update_where, length-update_where, ◌↔◌, ap, eq_iff, eq_refl,
  String, Bool, true, Option, none, some, arith, exists_where, mem-of_exists_where,
  exists_where-of_mem, Memᴰ,
}
use reliable_ai_agents.Json.{Json}
use reliable_ai_agents.Schema.{Agent, Task, TaskStatus, Attempt, Outcome, Db}
use reliable_ai_agents.Worker.Heartbeat.{owned_by, fenced}
use reliable_ai_agents.Worker.Checkpoint.{
  at_position, put_context, mark_succeeded, advance, attempt_row, checkpoint_success,
}

-- The worker holds the lease of a running task.
abbrev pub Holds : ℕ → String → Db → Type 0
Holds task_id worker_id db =
    (t : Task) × Memᴰ t db.tasks
    × (t.id ≡ task_id)
    × (t.lease_owner ≡ some worker_id)
    × (t.status ≡ TaskStatus.running)

-- The agent's cursor is at the task.
abbrev pub AtCursor : Task → Db → Type 0
AtCursor task db = (a : Agent) × Memᴰ a db.agents × (a.id ≡ task.agent_id) × (a.cursor ≡ task.seq)

pub fenced_fields :
    (task_id : ℕ) (worker_id : String) (t : Task)
    → fenced task_id worker_id t ≡ true
    → (t.id ≡ task_id) × (t.lease_owner ≡ some worker_id) × (t.status ≡ TaskStatus.running)
unfolding fenced
fenced_fields task_id worker_id t h = ground (arith, owner t.lease_owner)
  where
    owner : (o : Option String) → owned_by worker_id o ≡ true → o ≡ some worker_id
    owner none q = cc
    owner (some w) q = ap some ((eq_iff w worker_id).0 q)

pub fenced-true :
    (task_id : ℕ) (worker_id : String) (t : Task)
    → t.id ≡ task_id
    → t.lease_owner ≡ some worker_id
    → t.status ≡ TaskStatus.running
    → fenced task_id worker_id t ≡ true
unfolding fenced
fenced-true task_id worker_id t i o r = ground (arith, eq_refl worker_id)

pub fenced-Holds :
    (task_id : ℕ) (worker_id : String) (db : Db)
    → (exists_where (fenced task_id worker_id) db.tasks ≡ true) ↔ Holds task_id worker_id db
fenced-Holds task_id worker_id db = (
  λ h.
      let (t, m, e) = mem-of_exists_where (fenced task_id worker_id) db.tasks h in
      let f = fenced_fields task_id worker_id t e in (t, m, f.0, f.1, f.2),
  λ h.
      exists_where-of_mem (fenced task_id worker_id) db.tasks h.1
        (fenced-true task_id worker_id h.0 h.2 h.3 h.4),
)

pub position-AtCursor :
    (task : Task) (db : Db)
    → (exists_where (at_position task.agent_id task.seq) db.agents ≡ true) ↔ AtCursor task db
unfolding at_position
position-AtCursor task db = (
  λ h.
      let (a, m, e) = mem-of_exists_where (at_position task.agent_id task.seq) db.agents h in
      (a, m, ground arith, ground arith),
  λ h.
      exists_where-of_mem (at_position task.agent_id task.seq) db.agents h.1
        (ground (arith, h.2, h.3)),
)

module _ (task : Task) (result : Json) (cost tokens started : ℕ) (worker_id : String)
    (now : ℕ) where
  -- The row whose lease the worker holds has succeeded with the result and is otherwise the same
  -- work; every other row is as it was.
  abbrev pub Succeeds : Task → Task → Type 0
  Succeeds t u =
      ((t.id ≡ task.id) × (t.lease_owner ≡ some worker_id) × (t.status ≡ TaskStatus.running)
        → (u.status ≡ TaskStatus.succeeded)
          × (u.result ≡ some result)
          × (u.id ≡ t.id)
          × (u.agent_id ≡ t.agent_id)
          × (u.seq ≡ t.seq)
          × (u.tier ≡ t.tier)
          × (u.attempt ≡ t.attempt))
      × (¬ ((t.id ≡ task.id) × (t.lease_owner ≡ some worker_id) × (t.status ≡ TaskStatus.running))
          → u ≡ t)

  -- The agent that is at the task is one position further, holds the result under the position and
  -- has been charged; every other agent is as it was.
  abbrev pub Advances : Agent → Agent → Type 0
  Advances a b =
      ((a.id ≡ task.agent_id) × (a.cursor ≡ task.seq)
        → (b.id ≡ a.id)
          × (b.plan ≡ a.plan)
          × (b.cursor ≡ a.cursor + 1)
          × Memᴰ (task.seq, result) b.context
          × (b.cost_units ≡ a.cost_units + cost)
          × (b.tokens_used ≡ a.tokens_used + tokens))
      × (¬ ((a.id ≡ task.agent_id) × (a.cursor ≡ task.seq)) → b ≡ a)

  -- One attempt more, a success of this worker at the task.
  abbrev pub Records : List Attempt → List Attempt → Type 0
  Records before after =
      (x : Attempt) × (after ≡ before ++ x ∷ [])
      × (x.task_instance_id ≡ task.id)
      × (x.outcome ≡ Outcome.succeeded)
      × (x.worker_id ≡ some worker_id)
      × (x.tier ≡ task.tier)
      × (x.cost_units ≡ cost)
      × (x.tokens ≡ tokens)

  -- Both rows, the evidence, and no other table.
  pub record Checkpointed (db db' : Db) : Type 0 where
    pub tasks : Evolves Succeeds db.tasks db'.tasks × (length db'.tasks ≡ length db.tasks)
    pub agents : Evolves Advances db.agents db'.agents × (length db'.agents ≡ length db.agents)
    pub attempts : Records db.attempts db'.attempts
    pub rest : db' ≡ record db { tasks = db'.tasks; agents = db'.agents; attempts = db'.attempts }

  succeeded_rows :
      (xs : List Task)
      → Evolves Succeeds xs (update_where (fenced task.id worker_id) (mark_succeeded result now) xs)
  succeeded_rows xs =
      Evolves-update_where Succeeds _ _ xs
        (λ t e. (
          λ h. let held = fenced-true task.id worker_id t h.0 h.1 h.2 in ground (arith, e, held),
          λ other. refl,
        ))
        (λ t e. (
          λ h. (refl, refl, refl, refl, refl, refl, refl),
          λ other. absurd (other (fenced_fields task.id worker_id t e)),
        ))

  context-put :
      (context : List (ℕ × Json)) → Memᴰ (task.seq, result) (put_context task.seq result context)
  unfolding put_context
  context-put [] = Memᴰ.head refl
  context-put ((k, v) ∷ rest) = elim (Bool-cases (k == task.seq)) [
    | inl hit ↦
        rw hit
          (let same : task.seq ≡ k = ground (arith, hit) in Memᴰ.head (ap (λ n. (n, result)) same))
    | inr miss ↦ rw miss (Memᴰ.tail (context-put rest))
  ]

  advanced_rows :
      (xs : List Agent)
      → Evolves Advances xs (
          update_where
            (at_position task.agent_id task.seq)
            (advance task.seq result cost tokens now)
            xs)
  unfolding at_position
  advanced_rows xs =
      Evolves-update_where Advances _ _ xs
        (λ a e. (λ h. absurd (ground (arith, e, h.0, h.1)), λ other. refl))
        (λ a e. (
          λ h. (refl, refl, refl, context-put a.context, refl, refl),
          λ other. absurd (other (ground arith, ground arith)),
        ))

  module _ (db : Db) where
    abbrev pub outcome : Db × Bool
    outcome = checkpoint_success task result cost tokens started worker_id now db

    commits :
        exists_where (fenced task.id worker_id) db.tasks ≡ true
        → exists_where (at_position task.agent_id task.seq) db.agents ≡ true
        → (outcome.1 ≡ true) × Checkpointed db outcome.0
    unfolding checkpoint_success
    commits f p =
        rw (f, p)
          (
            refl,
            record {
              tasks = (succeeded_rows db.tasks, length-update_where _ _ db.tasks);
              agents = (advanced_rows db.agents, length-update_where _ _ db.agents);
              attempts = (
                attempt_row task worker_id Outcome.succeeded none cost tokens started now,
                refl,
                refl,
                refl,
                refl,
                refl,
                refl,
                refl,
              );
              rest = refl;
            },
          )

    refuses :
        (exists_where (fenced task.id worker_id) db.tasks ≡ false)
          ⊎ (exists_where (at_position task.agent_id task.seq) db.agents ≡ false)
        → outcome ≡ (db, false)
    unfolding checkpoint_success
    refuses h = ground arith

    -- Where its worker holds the lease of the running task and the agent's cursor is at the task, a
    -- checkpoint commits: the task's row has succeeded with the result, the agent is one position
    -- further, holds the result and is charged, the attempt is recorded, and no other row or table
    -- has changed. Everywhere else it answers false and leaves the database as it was.
    pub checkpoint_success_lem :
        (Holds task.id worker_id db
          × AtCursor task db
          × (outcome.1 ≡ true)
          × Checkpointed db outcome.0)
        ⊎ ((¬ (Holds task.id worker_id db × AtCursor task db)) × (outcome ≡ (db, false)))
    checkpoint_success_lem = elim (Bool-cases (exists_where (fenced task.id worker_id) db.tasks)) [
      | inl f ↦ elim (Bool-cases (exists_where (at_position task.agent_id task.seq) db.agents)) [
        | inl p ↦
            let (ok, done) = commits f p in
            inl ((fenced-Holds task.id worker_id db).0 f, (position-AtCursor task db).0 p, ok, done)
        | inr q ↦ inr (λ h. let p = (position-AtCursor task db).1 h.1 in cc, refuses (inr q))
      ]
      | inr q ↦ inr (λ h. let f = (fenced-Holds task.id worker_id db).1 h.0 in cc, refuses (inl q))
    ]
