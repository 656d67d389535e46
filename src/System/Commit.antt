-- ===== src/System/Commit.antt =====
-- The checkpoint, against the ordering invariant: it marks a task and moves the cursor.
use native.Mathlib.Decide.{ℕ_discrete}
use reliable_ai_agents.Prelude.{
  ℕ, ◌≡◌, ◌≢◌, refl, sym, ap, ◌∙◌, subst, inl, inr, String, true, false, List, Memᴰ, arith,
  if◌then◌else◌, Bool-cases, exists_where, update_where, mem-update_where,
}
use reliable_ai_agents.Json.{Json}
use reliable_ai_agents.Schema.{Agent, Task, Db}
use reliable_ai_agents.Worker.Heartbeat.{fenced}
use reliable_ai_agents.Worker.Checkpoint.{at_position, advance, mark_succeeded, checkpoint_success}
use reliable_ai_agents.Worker.Checkpoint.Fence.{
  fenced_fields, fenced-true, fenced-Holds, position-AtCursor,
}
use reliable_ai_agents.System.Ordered.{
  Placed, Known, IsOrdered, KeepsKeys, keyed-update_tasks, Known-update_tasks, agents_keyed-update,
}
use reliable_ai_agents.System.Moves.{Ordered}

module _ (task : Task) (result : Json) (cost tokens : ℕ) (worker_id : String) (now : ℕ) (db : Db)
    (held : List Task) (ordered : Ordered db held) (known : Known db.tasks task)
    (lease : exists_where (fenced task.id worker_id) db.tasks ≡ true)
    (cursor : exists_where (at_position task.agent_id task.seq) db.agents ≡ true) where
  abbrev marked : Task → Task
  marked t = if fenced task.id worker_id t then mark_succeeded result now t else t

  abbrev moved : Agent → Agent
  moved a =
      if at_position task.agent_id task.seq a then advance task.seq result cost tokens now a else a

  mark-KeepsKeys : KeepsKeys (mark_succeeded result now)
  mark-KeepsKeys = record { id = λ t. refl; agent_id = λ t. refl; seq = λ t. refl }

  marked_agent : (t : Task) → (marked t).agent_id ≡ t.agent_id
  marked_agent t = ground arith

  moved_id : (a : Agent) → (moved a).id ≡ a.id
  moved_id a = ground arith

  -- The row that the claim handed out is the fenced one.
  fenced_row : (t : Task) → Memᴰ t db.tasks → t.id ≡ task.id → fenced task.id worker_id t ≡ true
  fenced_row t mt e =
      let (r, mr, ri, ro, rs) = (fenced-Holds task.id worker_id db).0 lease in
      let same : t ≡ r = (ordered.keyed t r mt mr).by_id (e ∙ sym ri) in
      subst (λ x. fenced task.id worker_id x ≡ true) (sym same)
        (fenced-true task.id worker_id r ri ro rs)

  -- A row at the task's position is the task.
  row_at_position :
      (t : Task)
      → Memᴰ t db.tasks
      → t.agent_id ≡ task.agent_id
      → t.seq ≡ task.seq
      → fenced task.id worker_id t ≡ true
  row_at_position t mt e s =
      let (k, mk, ki, ka, ks) = known in
      let same : t ≡ k = (ordered.keyed t k mt mk).by_position (e ∙ sym ka) (s ∙ sym ks) in
      fenced_row t mt (ap (λ (x : Task). x.id) same ∙ ki)

  marked_position :
      (t : Task)
      → Memᴰ t db.tasks
      → fenced task.id worker_id t ≡ true
      → (t.agent_id ≡ task.agent_id) × (t.seq ≡ task.seq)
  marked_position t mt hit =
      let (k, mk, ki, ka, ks) = known in
      let i = (fenced_fields task.id worker_id t hit).0 in
      let same : t ≡ k = (ordered.keyed t k mt mk).by_id (i ∙ sym ki) in
      (ap (λ (x : Task). x.agent_id) same ∙ ka, ap (λ (x : Task). x.seq) same ∙ ks)

  advanced_agent :
      (a : Agent)
      → Memᴰ a db.agents
      → a.id ≡ task.agent_id
      → (at_position task.agent_id task.seq a ≡ true) × (a.cursor ≡ task.seq)
  unfolding at_position
  advanced_agent a ma e =
      let (b, mb, bi, bc) = (position-AtCursor task db).0 cursor in
      let same : a ≡ b = ordered.agents_keyed a b ma mb (e ∙ sym bi) in
      let c = ap (λ (x : Agent). x.cursor) same ∙ bc in (ground arith, c)

  passed :
      (a : Agent) (t : Task)
      → a.cursor ≡ t.seq
      → Placed (advance task.seq result cost tokens now a) (mark_succeeded result now t)
  passed a t e = ground arith

  left_behind :
      (a : Agent) (t : Task)
      → a.cursor ≢ t.seq
      → Placed a t
      → Placed (advance task.seq result cost tokens now a) t
  left_behind a t e placed = ground arith

  elsewhere : (a : Agent) (t : Task) → a.id ≢ task.agent_id → Placed a t → Placed (moved a) t
  unfolding at_position
  elsewhere a t e placed =
      let miss : at_position task.agent_id task.seq a ≡ false = ground arith in rw miss placed

  commit-Placed :
      (a : Agent) (t : Task)
      → Memᴰ a db.agents
      → Memᴰ t db.tasks
      → t.agent_id ≡ a.id
      → Placed (moved a) (marked t)
  commit-Placed a t ma mt own = elim (Bool-cases (fenced task.id worker_id t)) [
    | inl hit ↦
        let (e, s) = marked_position t mt hit in
        let (at, c) = advanced_agent a ma (sym own ∙ e) in rw (hit, at) (passed a t (c ∙ sym s))
    | inr miss ↦ elim (ℕ_discrete a.id task.agent_id) [
      | yes same ↦
          let (at, c) = advanced_agent a ma same in
          rw (miss, at)
            (left_behind a t
              (λ e.
                let q : true ≡ false = sym (row_at_position t mt (own ∙ same) (sym e ∙ c)) ∙ miss in
                cc)
              (ordered.placed a t ma mt own))
      | no other ↦ rw miss (elsewhere a t other (ordered.placed a t ma mt own))
    ]
  ]

  pub commit-Ordered :
      IsOrdered
        (update_where
          (at_position task.agent_id task.seq)
          (advance task.seq result cost tokens now)
          db.agents)
        (update_where (fenced task.id worker_id) (mark_succeeded result now) db.tasks)
        held
  commit-Ordered = record {
    keyed = keyed-update_tasks _ (mark_succeeded result now) mark-KeepsKeys ordered;
    agents_keyed =
        agents_keyed-update _ (advance task.seq result cost tokens now) (λ a. refl) ordered;
    placed = λ a t ma mt e.
        let (a₀, na, ea) = mem-update_where _ _ db.agents ma in
        let (t₀, nt, et) = mem-update_where _ _ db.tasks mt in
        let own : t₀.agent_id ≡ a₀.id =
          sym (marked_agent t₀)
          ∙ sym (ap (λ (x : Task). x.agent_id) et)
          ∙ e
          ∙ ap (λ (x : Agent). x.id) ea
          ∙ moved_id a₀ in
        subst (λ x. Placed x t) (sym ea)
          (subst (Placed (moved a₀)) (sym et) (commit-Placed a₀ t₀ na nt own));
    held_known = Known-update_tasks _ (mark_succeeded result now) mark-KeepsKeys ordered;
  }

-- A checkpoint, committed or refused, of a row that a claim handed out, by any worker.
pub checkpoint_success-Ordered :
    (task : Task) (result : Json) (cost tokens started : ℕ) (worker_id : String) (now : ℕ) (db : Db)
    (held : List Task)
    → Ordered db held
    → Known db.tasks task
    → Ordered (checkpoint_success task result cost tokens started worker_id now db).0 held
unfolding checkpoint_success
checkpoint_success-Ordered task result cost tokens started worker_id now db held ordered known =
    elim (Bool-cases (exists_where (fenced task.id worker_id) db.tasks)) [
      | inr lost ↦ rw lost ordered
      | inl lease ↦
          elim (Bool-cases (exists_where (at_position task.agent_id task.seq) db.agents)) [
            | inr moved_on ↦ rw (lease, moved_on) ordered
            | inl cursor ↦
                rw (lease, cursor)
                  (commit-Ordered task result cost tokens worker_id now db held ordered known lease
                    cursor)
          ]
    ]
