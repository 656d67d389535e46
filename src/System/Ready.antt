-- ===== src/System/Ready.antt =====
-- The work that a database has left for undisturbed workers, and what one turn does to it.
use reliable_ai_agents.Prelude.{
  ℕ, ◌+◌, ◌≤◌, ◌<◌, ◌≡◌, ◌⊎◌, inl, inr, refl, sym, ap, ◌∙◌, subst, String, Bool, true, false, some,
  List, Memᴰ, arith, ◌==◌, leb, length, Bool-cases, exists_where, mem-update_where,
}
use reliable_ai_agents.Json.{Json, Fields, object}
use reliable_ai_agents.Schema.{Agent, AgentStatus, Task, TaskStatus, Reservation, Db, is_in_flight}
use reliable_ai_agents.Protocol.{TaskContext, TaskDef, returns}
use reliable_ai_agents.Registry.{Registry, get}
use reliable_ai_agents.Worker.Claim.{next_claim, lease}
use reliable_ai_agents.Worker.Heartbeat.{fenced}
use reliable_ai_agents.Worker.Checkpoint.{at_position, advance, mark_succeeded}
use reliable_ai_agents.Worker.Process.{Setting}
use reliable_ai_agents.System.Moves.{next_claim-at_cursor, next_claim-live}
use reliable_ai_agents.System.Progress.{checked, granted, holds_cursor}
use reliable_ai_agents.System.Remaining.{
  IsKeyed, IsKeyed-update, update_where-misses, remaining, turns_left, turns_left-drops,
}

-- An action whose outcome is not known.
abbrev pub is_unsettled : Reservation → Bool
is_unsettled r = is_in_flight r.state

-- A pending row waits for each task that the agent has before it.
abbrev pub IsScheduled : List Task → Agent → Type 0
IsScheduled tasks a =
    (seq : ℕ)
    → a.cursor ≤ seq
    → seq < length a.plan
    → (t : Task) × Memᴰ t tasks
      × (t.agent_id ≡ a.id)
      × (t.seq ≡ seq)
      × (t.status ≡ TaskStatus.pending)

abbrev pub IsServed : List Task → Agent → Type 0
IsServed tasks a =
    (a.status ≡ AgentStatus.completed)
    ⊎ ((a.status ≡ AgentStatus.running) × (a.cursor < length a.plan) × IsScheduled tasks a)

module _ (tier : String) (due : ℕ) (registry : Registry) where
  -- The task's code is known, and it returns at the tier.
  abbrev pub IsDoable : Task → Type 0
  IsDoable t =
      (t.tier ≡ tier)
      × (t.next_run_at ≤ due)
      × ((task_def : TaskDef) × (get t.task_def_id registry ≡ some task_def)
          × ((result : TaskContext → Fields) × ((ctx : TaskContext)
                → ctx.tier ≡ tier
                → task_def.run ctx ≡ returns (object (result ctx)))))

  pub record IsReady (db : Db) : Type 0 where
    pub task_ids : IsKeyed (λ (t : Task). t.id) db.tasks
    pub agent_ids : IsKeyed (λ (a : Agent). a.id) db.agents
    pub served : (a : Agent) → Memᴰ a db.agents → IsServed db.tasks a
    pub settled : exists_where is_unsettled db.idempotency ≡ false
    pub doable : (t : Task) → Memᴰ t db.tasks → t.status ≡ TaskStatus.pending → IsDoable t

  module _ (set : Setting) (db : Db) (t : Task)
      (claimed : next_claim set.locked db set.claimed_at set.pool_tier ≡ some t)
      (ready : IsReady db) (result : Json) (cost tokens : ℕ) where
    abbrev after : Db
    after = checked set t result cost tokens db

    claimed-mem : Memᴰ t db.tasks
    claimed-mem = (next_claim-at_cursor set.locked set.claimed_at set.pool_tier db t claimed).0

    -- The other rows stay.
    kept : (u : Task) → Memᴰ u db.tasks → (u.id == t.id) ≡ false → Memᴰ u after.tasks
    unfolding fenced
    kept u m other =
        update_where-misses _ _ _
          (update_where-misses (λ x. x.id == t.id) (lease set.worker_id set.ttl set.claimed_at)
            db.tasks m other)
          (ground (arith, other))

    -- A row that is pending afterwards was there before.
    was_pending : (u : Task) → Memᴰ u after.tasks → u.status ≡ TaskStatus.pending → Memᴰ u db.tasks
    was_pending u m pending =
        let marked = mark_succeeded result set.finished_at in
        let (y, my, ey) =
          mem-update_where (fenced t.id set.worker_id) marked (granted set t db).tasks m in
        let (x, mx, ex) =
          mem-update_where (λ x. x.id == t.id) (lease set.worker_id set.ttl set.claimed_at) db.tasks
            my in
        elim (Bool-cases (fenced t.id set.worker_id y)) [
          | inl hit ↦
              let e : u ≡ marked y = rw hit at ey in
              let s : TaskStatus.succeeded ≡ TaskStatus.pending =
                sym (ap (λ (z : Task). z.status) e) ∙ pending in
              absurd (cc)
          | inr miss ↦
              let e : u ≡ y = rw miss at ey in
              elim (Bool-cases (x.id == t.id)) [
                | inl here ↦
                    let k : y ≡ lease set.worker_id set.ttl set.claimed_at x = rw here at ex in
                    let s : TaskStatus.running ≡ TaskStatus.pending =
                      sym (ap (λ (z : Task). z.status) (e ∙ k)) ∙ pending in
                    absurd (cc)
                | inr other ↦
                    let k : y ≡ x = rw other at ex in
                    subst (λ (z : Task). Memᴰ z db.tasks) (sym (e ∙ k)) mx
              ]
        ]

    -- The agent of the claimed task.
    abbrev Owner : Agent → Type 0
    Owner a =
        Memᴰ a db.agents
        × (a.id ≡ t.agent_id)
        × (t.seq ≡ a.cursor)
        × (a.status ≡ AgentStatus.running)
        × (a.cursor < length a.plan)
        × IsScheduled db.tasks a

    owner : (a : Agent) × Owner a
    owner =
        let (a, m, own, place, live) =
          next_claim-live set.locked set.claimed_at set.pool_tier db t claimed in
        elim (ready.served a m) [
          | inl completed ↦ absurd (ground (arith, live, completed))
          | inr (running, more, rows) ↦ (a, (m, own, place, running, more, rows))
        ]

    -- Only the owner is moved.
    moved-Owner : (x : Agent) → Memᴰ x db.agents → at_position t.agent_id t.seq x ≡ true → Owner x
    unfolding at_position
    moved-Owner x m hit =
        let (a, o) = owner in
        let own_id : x.id ≡ t.agent_id = ground (arith, hit) in
        subst Owner (sym (ready.agent_ids x a m o.0 (own_id ∙ sym o.1))) o

    same_row : (u : Task) → Memᴰ u db.tasks → (u.id == t.id) ≡ true → u ≡ t
    same_row u m hit = ready.task_ids u t m claimed-mem (ground (arith, hit))

    abbrev advanced : Agent → Agent
    advanced = advance t.seq result cost tokens set.finished_at

    moves_on : (x : Agent) → Owner x → remaining (advanced x) < remaining x
    moves_on x (m, own, place, running, more, rows) = ground (arith, running, more)

    pub turns_left-checked : turns_left after.agents < turns_left db.agents
    turns_left-checked =
        turns_left-drops (at_position t.agent_id t.seq) advanced db.agents
          (λ x m hit. moves_on x (moved-Owner x m hit)) (holds_cursor set db t claimed)

    IsScheduled-advanced : (x : Agent) → Owner x → IsScheduled after.tasks (advanced x)
    IsScheduled-advanced x (m, own, place, running, more, rows) seq from to =
        let (u, mu, uo, us, up) = rows seq (omega (arith, from)) to in
        let other : (u.id == t.id) ≡ false = elim (Bool-cases (u.id == t.id)) [
          | inr e ↦ e
          | inl hit ↦
              let s : u.seq ≡ t.seq = ap (λ (z : Task). z.seq) (same_row u mu hit) in
              absurd (omega (arith, s, us, place, from))
        ] in
        (u, kept u mu other, uo, us, up)

    IsScheduled-kept :
        (x : Agent)
        → Memᴰ x db.agents
        → at_position t.agent_id t.seq x ≡ false
        → IsScheduled db.tasks x
        → IsScheduled after.tasks x
    unfolding at_position
    IsScheduled-kept x m miss rows seq from to =
        let (u, mu, uo, us, up) = rows seq from to in
        let other : (u.id == t.id) ≡ false = elim (Bool-cases (u.id == t.id)) [
          | inr e ↦ e
          | inl hit ↦
              let s : u.agent_id ≡ t.agent_id = ap (λ (z : Task). z.agent_id) (same_row u mu hit) in
              let (a, o) = owner in
              let its : x.id ≡ t.agent_id = sym uo ∙ s in
              let c : x.cursor ≡ a.cursor =
                ap (λ (z : Agent). z.cursor) (ready.agent_ids x a m o.0 (its ∙ sym o.1)) in
              absurd (ground (arith, its, c, o.2, miss))
        ] in
        (u, kept u mu other, uo, us, up)

    advanced-IsServed : (x : Agent) → Owner x → IsServed after.tasks (advanced x)
    advanced-IsServed x o =
        let (m, own, place, running, more, rows) = o in
        elim (Bool-cases (leb (length x.plan) (x.cursor + 1))) [
          | inl last ↦ rw last (inl refl)
          | inr on ↦ rw on (inr (running, ground (arith, on), IsScheduled-advanced x o))
        ]

    IsServed-checked : (x : Agent) → Memᴰ x after.agents → IsServed after.tasks x
    IsServed-checked x m =
        let (y, my, e) = mem-update_where (at_position t.agent_id t.seq) advanced db.agents m in
        elim (Bool-cases (at_position t.agent_id t.seq y)) [
          | inl hit ↦
              let k : x ≡ advanced y = rw hit at e in
              subst (IsServed after.tasks) (sym k) (advanced-IsServed y (moved-Owner y my hit))
          | inr miss ↦
              let k : x ≡ y = rw miss at e in
              subst (IsServed after.tasks) (sym k) (elim (ready.served y my) [
                | inl completed ↦ inl completed
                | inr (running, more, rows) ↦ inr (running, more, IsScheduled-kept y my miss rows)
              ])
        ]

    pub checked-IsReady : IsReady after
    checked-IsReady = record {
      task_ids =
          IsKeyed-update (λ (u : Task). u.id) (fenced t.id set.worker_id)
            (mark_succeeded result set.finished_at) (λ u. refl) (granted set t db).tasks
            (IsKeyed-update (λ (u : Task). u.id) (λ u. u.id == t.id)
              (lease set.worker_id set.ttl set.claimed_at) (λ u. refl) db.tasks ready.task_ids);
      agent_ids =
          IsKeyed-update (λ (a : Agent). a.id) (at_position t.agent_id t.seq) advanced (λ a. refl)
            db.agents ready.agent_ids;
      served = IsServed-checked;
      settled = ready.settled;
      doable = λ u m pending. ready.doable u (was_pending u m pending) pending;
    }
