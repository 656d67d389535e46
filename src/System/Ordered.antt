-- ===== src/System/Ordered.antt =====
-- The invariant that carries the runtime's ordering guarantee, over the rows of `agents` and
-- `task_instances` and the rows that claims have handed out, and how updates of rows keep it.
use mathlib.Core.List.Memᴰ
use reliable_ai_agents.Prelude.{
  ◌<◌, ◌≡◌, ◌≢◌, sym, ap, ◌∙◌, subst, ◌⊎◌, inl, inr, Bool, true, List, [], ◌∷◌, ◌++◌, Memᴰ, arith,
  if◌then◌else◌, Bool-cases, update_where, mem-update_where, update_where-of_mem,
}
use reliable_ai_agents.Schema.{Agent, Task, TaskStatus}

-- Where a task stands beside its agent's cursor: exactly the tasks before the cursor have succeeded,
-- and those after it wait or were given up.
pub record Placed (a : Agent) (t : Task) : Type 0 where
  pub before : t.seq < a.cursor → t.status ≡ TaskStatus.succeeded
  pub only_before : t.status ≡ TaskStatus.succeeded → t.seq < a.cursor
  pub after : a.cursor < t.seq → (t.status ≡ TaskStatus.pending) ⊎ (t.status ≡ TaskStatus.dead)

-- Two rows with one id, or with one agent and position, are the same row.
pub record SameRow (t u : Task) : Type 0 where
  pub by_id : t.id ≡ u.id → t ≡ u
  pub by_position : t.agent_id ≡ u.agent_id → t.seq ≡ u.seq → t ≡ u

-- The row that a claim handed out is still in the table, whatever became of its status.
abbrev pub Known : List Task → Task → Type 0
Known ts h = (t : Task) × Memᴰ t ts × (t.id ≡ h.id) × (t.agent_id ≡ h.agent_id) × (t.seq ≡ h.seq)

pub record IsOrdered (agents : List Agent) (tasks held : List Task) : Type 0 where
  pub keyed : (t u : Task) → Memᴰ t tasks → Memᴰ u tasks → SameRow t u
  pub agents_keyed : (a b : Agent) → Memᴰ a agents → Memᴰ b agents → a.id ≡ b.id → a ≡ b
  pub placed :
      (a : Agent) (t : Task) → Memᴰ a agents → Memᴰ t tasks → t.agent_id ≡ a.id → Placed a t
  pub held_known : (h : Task) → Memᴰ h held → Known tasks h

-- An update that leaves the identity of a row alone.
pub record KeepsKeys (f : Task → Task) : Type 0 where
  pub id : (t : Task) → (f t).id ≡ t.id
  pub agent_id : (t : Task) → (f t).agent_id ≡ t.agent_id
  pub seq : (t : Task) → (f t).seq ≡ t.seq

module _ {agents : List Agent} {tasks held : List Task} (p : Task → Bool) (f : Task → Task)
    (keeps : KeepsKeys f) (ordered : IsOrdered agents tasks held) where
  abbrev step : Task → Task
  step t = if p t then f t else t

  step_id : (t : Task) → (step t).id ≡ t.id
  step_id t = ground (arith, keeps.id t)

  step_agent_id : (t : Task) → (step t).agent_id ≡ t.agent_id
  step_agent_id t = ground (arith, keeps.agent_id t)

  step_seq : (t : Task) → (step t).seq ≡ t.seq
  step_seq t = ground (arith, keeps.seq t)

  step-SameRow : (t u : Task) → SameRow t u → SameRow (step t) (step u)
  step-SameRow t u same = record {
    by_id = λ e. ap step (same.by_id (sym (step_id t) ∙ e ∙ step_id u));
    by_position = λ e s. ap step (
        same.by_position (sym (step_agent_id t) ∙ e ∙ step_agent_id u)
          (sym (step_seq t) ∙ s ∙ step_seq u));
  }

  pub keyed-update_tasks :
      (t u : Task) → Memᴰ t (update_where p f tasks) → Memᴰ u (update_where p f tasks) → SameRow t u
  keyed-update_tasks t u mt mu =
      let (t₀, nt, et) = mem-update_where p f tasks mt in
      let (u₀, nu, eu) = mem-update_where p f tasks mu in
      subst (λ x. SameRow x u) (sym et)
        (subst (λ y. SameRow (step t₀) y) (sym eu) (step-SameRow t₀ u₀ (ordered.keyed t₀ u₀ nt nu)))

  pub Known-update_tasks : (h : Task) → Memᴰ h held → Known (update_where p f tasks) h
  Known-update_tasks h mh =
      let (t₀, nt, ei, ea, es) = ordered.held_known h mh in
      (
        step t₀,
        update_where-of_mem p f tasks nt,
        step_id t₀ ∙ ei,
        step_agent_id t₀ ∙ ea,
        step_seq t₀ ∙ es,
      )

  -- A write to task rows keeps the invariant if each row that it changes stays in its place.
  pub IsOrdered-update_tasks :
      ((a : Agent) (t : Task)
        → Memᴰ a agents
        → Memᴰ t tasks
        → t.agent_id ≡ a.id
        → p t ≡ true
        → Placed a t
        → Placed a (f t))
      → IsOrdered agents (update_where p f tasks) held
  IsOrdered-update_tasks moved = record {
    keyed = keyed-update_tasks;
    agents_keyed = ordered.agents_keyed;
    placed = λ a t ma mt e.
        let (t₀, nt, et) = mem-update_where p f tasks mt in
        let own : t₀.agent_id ≡ a.id =
          sym (step_agent_id t₀) ∙ sym (ap (λ (x : Task). x.agent_id) et) ∙ e in
        let before = ordered.placed a t₀ ma nt own in
        subst (Placed a) (sym et) (elim (Bool-cases (p t₀)) [
          | inl hit ↦ rw hit (moved a t₀ ma nt own hit before)
          | inr miss ↦ rw miss before
        ]);
    held_known = Known-update_tasks;
  }

module _ {agents : List Agent} {tasks held : List Task} (p : Agent → Bool) (g : Agent → Agent)
    (keeps_id : (a : Agent) → (g a).id ≡ a.id) (ordered : IsOrdered agents tasks held) where
  abbrev turn : Agent → Agent
  turn a = if p a then g a else a

  turn_id : (a : Agent) → (turn a).id ≡ a.id
  turn_id a = ground (arith, keeps_id a)

  pub agents_keyed-update :
      (a b : Agent)
      → Memᴰ a (update_where p g agents)
      → Memᴰ b (update_where p g agents)
      → a.id ≡ b.id
      → a ≡ b
  agents_keyed-update a b ma mb e =
      let (a₀, na, ea) = mem-update_where p g agents ma in
      let (b₀, nb, eb) = mem-update_where p g agents mb in
      let ids : a₀.id ≡ b₀.id =
        sym (turn_id a₀)
        ∙ sym (ap (λ (x : Agent). x.id) ea)
        ∙ e
        ∙ ap (λ (x : Agent). x.id) eb
        ∙ turn_id b₀ in
      ea ∙ ap turn (ordered.agents_keyed a₀ b₀ na nb ids) ∙ sym eb

  -- A write to agent rows keeps the invariant if each row that it changes still places its tasks.
  pub IsOrdered-update_agents :
      ((a : Agent) (t : Task)
        → Memᴰ a agents
        → Memᴰ t tasks
        → t.agent_id ≡ a.id
        → p a ≡ true
        → Placed a t
        → Placed (g a) t)
      → IsOrdered (update_where p g agents) tasks held
  IsOrdered-update_agents moved = record {
    keyed = ordered.keyed;
    agents_keyed = agents_keyed-update;
    placed = λ a t ma mt e.
        let (a₀, na, ea) = mem-update_where p g agents ma in
        let own : t.agent_id ≡ a₀.id = e ∙ ap (λ (x : Agent). x.id) ea ∙ turn_id a₀ in
        let before = ordered.placed a₀ t na mt own in
        subst (λ x. Placed x t) (sym ea)
          (elim (Bool-cases (p a₀)) [
            | inl hit ↦ rw hit (moved a₀ t na mt own hit before)
            | inr miss ↦ rw miss before
          ]);
    held_known = ordered.held_known;
  }

module _ {agents : List Agent} {tasks held : List Task}
    (ordered : IsOrdered agents tasks held) where
  -- An agent whose id no row has.
  pub IsOrdered-add_agent :
      (a : Agent)
      → ((b : Agent) → Memᴰ b agents → b.id ≢ a.id)
      → ((t : Task) → Memᴰ t tasks → t.agent_id ≢ a.id)
      → IsOrdered (agents ++ a ∷ []) tasks held
  IsOrdered-add_agent a new unused = record {
    keyed = ordered.keyed;
    agents_keyed = λ b c mb mc e. elim (Memᴰ.append_cases agents mb) [
      | inl ob ↦ elim (Memᴰ.append_cases agents mc) [
        | inl oc ↦ ordered.agents_keyed b c ob oc e
        | inr nc ↦ absurd (new b ob (e ∙ ap (λ (x : Agent). x.id) (Memᴰ.eq_of_singleton nc)))
      ]
      | inr nb ↦ elim (Memᴰ.append_cases agents mc) [
        | inl oc ↦ absurd (new c oc (sym e ∙ ap (λ (x : Agent). x.id) (Memᴰ.eq_of_singleton nb)))
        | inr nc ↦ Memᴰ.eq_of_singleton nb ∙ sym (Memᴰ.eq_of_singleton nc)
      ]
    ];
    placed = λ b t mb mt e. elim (Memᴰ.append_cases agents mb) [
      | inl ob ↦ ordered.placed b t ob mt e
      | inr nb ↦ absurd (unused t mt (e ∙ ap (λ (x : Agent). x.id) (Memᴰ.eq_of_singleton nb)))
    ];
    held_known = ordered.held_known;
  }

  SameRow-new :
      (row t : Task) → t.id ≢ row.id → (t.agent_id ≡ row.agent_id → t.seq ≢ row.seq) → SameRow t row
  SameRow-new row t other_id other_place = record {
    by_id = λ e. absurd (other_id e);
    by_position = λ e s. absurd (other_place e s);
  }

  SameRow-old :
      (row t : Task) → t.id ≢ row.id → (t.agent_id ≡ row.agent_id → t.seq ≢ row.seq) → SameRow row t
  SameRow-old row t other_id other_place = record {
    by_id = λ e. absurd (other_id (sym e));
    by_position = λ e s. absurd (other_place (sym e) (sym s));
  }

  -- A task with an id and a position that no row has, in its place.
  pub IsOrdered-add_task :
      (row : Task)
      → ((t : Task) → Memᴰ t tasks → t.id ≢ row.id)
      → ((t : Task) → Memᴰ t tasks → t.agent_id ≡ row.agent_id → t.seq ≢ row.seq)
      → ((a : Agent) → Memᴰ a agents → row.agent_id ≡ a.id → Placed a row)
      → IsOrdered agents (tasks ++ row ∷ []) held
  IsOrdered-add_task row new free place = record {
    keyed = λ t u mt mu. elim (Memᴰ.append_cases tasks mt) [
      | inl ot ↦ elim (Memᴰ.append_cases tasks mu) [
        | inl ou ↦ ordered.keyed t u ot ou
        | inr nu ↦ rw (Memᴰ.eq_of_singleton nu) (SameRow-new row t (new t ot) (free t ot))
      ]
      | inr nt ↦ elim (Memᴰ.append_cases tasks mu) [
        | inl ou ↦ rw (Memᴰ.eq_of_singleton nt) (SameRow-old row u (new u ou) (free u ou))
        | inr nu ↦
            let e = Memᴰ.eq_of_singleton nt ∙ sym (Memᴰ.eq_of_singleton nu) in
            record { by_id = λ _. e; by_position = λ _ _. e }
      ]
    ];
    agents_keyed = ordered.agents_keyed;
    placed = λ a t ma mt e. elim (Memᴰ.append_cases tasks mt) [
      | inl ot ↦ ordered.placed a t ma ot e
      | inr nt ↦
          let q = Memᴰ.eq_of_singleton nt in
          subst (Placed a) (sym q) (place a ma (sym (ap (λ (x : Task). x.agent_id) q) ∙ e))
    ];
    held_known = λ h mh.
        let (t, mt, i, a, q) = ordered.held_known h mh in (t, Memᴰ.append_left _ mt, i, a, q);
  }

  -- A claim hands out a row that the table has.
  pub IsOrdered-hand_out : (h : Task) → Known tasks h → IsOrdered agents tasks (h ∷ held)
  IsOrdered-hand_out h known = record {
    keyed = ordered.keyed;
    agents_keyed = ordered.agents_keyed;
    placed = ordered.placed;
    held_known = λ x m. elim (Memᴰ.cases_cons m) [
      | inl e ↦ subst (Known tasks) (sym e) known
      | inr m' ↦ ordered.held_known x m'
    ];
  }
