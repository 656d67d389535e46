-- ===== src/System/Progress.antt =====
-- worker/main.py: a turn that nothing disturbs.
use reliable_ai_agents.Prelude.{
  ℕ, ◌+◌, ◌≡◌, refl, sym, ap, subst, String, Bool, true, false, none, some, List, [], ◌∷◌, ◌++◌,
  Memᴰ, arith, ◌==◌, ==-refl, if◌then◌else◌, head?, select, select-of_mem, exists_where,
  update_where, update_where-of_mem, exists_where-of_mem,
}
use reliable_ai_agents.Json.{Json, Fields, object}
use reliable_ai_agents.Schema.{Agent, Task, TaskStatus, Outcome, Db}
use reliable_ai_agents.Tiers.{cost_of}
use reliable_ai_agents.Protocol.{TaskContext, TaskDef, returns}
use reliable_ai_agents.Registry.{get}
use reliable_ai_agents.Worker.Claim.{next_claim, lease, grant, claim_one}
use reliable_ai_agents.Worker.Heartbeat.{fenced, start, beat}
use reliable_ai_agents.Worker.Checkpoint.{
  load_agent, at_position, advance, mark_succeeded, attempt_row, checkpoint_success,
}
use reliable_ai_agents.Worker.Checkpoint.Fence.{fenced-true}
use reliable_ai_agents.Worker.Executor.{Labels, finished, context_of, perform, execute, run_task}
use reliable_ai_agents.Worker.Process.{
  Progress, worked, Setting, finish, run_claimed, after_claim, process_one,
}
use reliable_ai_agents.System.Moves.{next_claim-at_cursor}

-- The database after the claim of `t`.
abbrev pub granted : Setting → Task → Db → Db
granted set t db = (grant set.worker_id set.ttl set.claimed_at db (some t)).0

abbrev pub leased : Setting → Task → Task
leased set t = lease set.worker_id set.ttl set.claimed_at t

-- What the checkpoint of `t` leaves: its row is done, and its agent's cursor is past it.
abbrev pub Done : Task → Fields → Db → Type 0
Done t result db =
    ((u : Task) × Memᴰ u db.tasks
      × (u.id ≡ t.id)
      × (u.status ≡ TaskStatus.succeeded)
      × (u.result ≡ some (object result)))
    × ((a : Agent) × Memᴰ a db.agents × (a.id ≡ t.agent_id) × (a.cursor ≡ t.seq + 1))

head-of_mem : {A : Type 0} (xs : List A) {x : A} → Memᴰ x xs → (y : A) × (head? xs ≡ some y)
head-of_mem [] m = elim m [ ]
head-of_mem (y ∷ ys) m = (y, refl)

updated-mem :
    {A : Type 0} (p : A → Bool) (f : A → A) (xs : List A) {x : A}
    → Memᴰ x xs
    → p x ≡ true
    → Memᴰ (f x) (update_where p f xs)
updated-mem p f xs {x} m hit =
    subst (λ b. Memᴰ (if b then f x else x) (update_where p f xs)) hit
      (update_where-of_mem p f xs m)

-- The database after the checkpoint of `t`.
abbrev pub checked : Setting → Task → Json → ℕ → ℕ → Db → Db
checked set t result cost tokens db = record (granted set t db) {
  tasks =
      update_where (fenced t.id set.worker_id) (mark_succeeded result set.finished_at)
        (granted set t db).tasks;
  agents =
      update_where (at_position t.agent_id t.seq) (advance t.seq result cost tokens set.finished_at)
        db.agents;
  attempts =
      db.attempts
      ++ attempt_row (leased set t) set.worker_id Outcome.succeeded none cost tokens set.started
          set.finished_at
        ∷ [];
}

module _ (set : Setting) (db : Db) (t : Task)
    (claimed : next_claim set.locked db set.claimed_at set.pool_tier ≡ some t) where
  leased-mem : Memᴰ (leased set t) (granted set t db).tasks
  leased-mem =
      updated-mem (λ u. u.id == t.id) (lease set.worker_id set.ttl set.claimed_at) db.tasks
        (next_claim-at_cursor set.locked set.claimed_at set.pool_tier db t claimed).0 (==-refl t.id)

  leased-fenced : fenced t.id set.worker_id (leased set t) ≡ true
  leased-fenced = fenced-true t.id set.worker_id (leased set t) refl refl refl

  pub agent-loaded : (a : Agent) × (load_agent t.agent_id (granted set t db) ≡ some a)
  unfolding load_agent
  agent-loaded =
      let (m, pending, at) =
        next_claim-at_cursor set.locked set.claimed_at set.pool_tier db t claimed in
      let (a, ma, own, place) = at in
      head-of_mem (select (λ a. a.id == t.agent_id) db.agents)
        (select-of_mem (λ a. a.id == t.agent_id) db.agents ma (ground (arith, own)))

  holds_row : exists_where (fenced t.id set.worker_id) (granted set t db).tasks ≡ true
  holds_row =
      exists_where-of_mem (fenced t.id set.worker_id) (granted set t db).tasks leased-mem
        leased-fenced

  pub holds_cursor : exists_where (at_position t.agent_id t.seq) db.agents ≡ true
  unfolding at_position
  holds_cursor =
      let (m, pending, at) =
        next_claim-at_cursor set.locked set.claimed_at set.pool_tier db t claimed in
      let (a, ma, own, place) = at in
      exists_where-of_mem (at_position t.agent_id t.seq) db.agents ma (ground (arith, own, place))

  -- The checkpoint after the claim commits.
  committed-Done :
      (result : Fields) (cost tokens : ℕ)
      → Done t result
          (checkpoint_success
            (leased set t)
            (object result)
            cost
            tokens
            set.started
            set.worker_id
            set.finished_at
            (granted set t db)).0
  unfolding checkpoint_success at_position
  committed-Done result cost tokens =
      let (m, pending, at) =
        next_claim-at_cursor set.locked set.claimed_at set.pool_tier db t claimed in
      let (a, ma, own, place) = at in
      let position : at_position t.agent_id t.seq a ≡ true = ground (arith, own, place) in
      rw (holds_row, holds_cursor)
        (
          (
            mark_succeeded (object result) set.finished_at (leased set t),
            updated-mem (fenced t.id set.worker_id) (mark_succeeded (object result) set.finished_at)
                (granted set t db).tasks leased-mem leased-fenced,
            refl,
            refl,
            refl,
          ),
          (
            advance t.seq (object result) cost tokens set.finished_at a,
            updated-mem (at_position t.agent_id t.seq)
                (advance t.seq (object result) cost tokens set.finished_at) db.agents ma position,
            own,
            omega (arith, place),
          ),
        )

  pub committed-eq :
      (result : Json) (cost tokens : ℕ)
      → (checkpoint_success
          (leased set t)
          result
          cost
          tokens
          set.started
          set.worker_id
          set.finished_at
          (granted set t db)).0
        ≡ checked set t result cost tokens db
  unfolding checkpoint_success
  committed-eq result cost tokens = rw (holds_row, holds_cursor) refl

  module _ (sha256 : ℕ × ℕ × String → ℕ) (label : Labels) (task_def : TaskDef)
      (result : TaskContext → Fields) (cost tokens : ℕ)
      (known : get t.task_def_id set.registry ≡ some task_def)
      (pure : task_def.side_effecting ≡ false)
      (answers : (ctx : TaskContext)
        → ctx.tier ≡ t.tier
        → task_def.run ctx ≡ returns (object (result ctx)))
      (priced : cost_of t.tier set.ladder ≡ some (cost, tokens)) where
    abbrev ctx_of : Agent → TaskContext
    ctx_of a = context_of sha256 label (leased set t) a

    ran :
        (during : Db → Db) (alone : (d : Db) → during d ≡ d) (a : Agent)
        → run_task sha256 label set.registry set.ladder
            (leased set t)
            a
            during
            set.started
            (granted set t db)
          ≡ record {
            db = granted set t db;
            acted = true;
            execution = finished (object (result (ctx_of a))) cost tokens false;
          }
    unfolding run_task execute
    ran during alone a =
        subst
          (λ f.
            run_task sha256 label set.registry set.ladder (leased set t) a f set.started
              (granted set t db)
            ≡ record {
              db = granted set t db;
              acted = true;
              execution = finished (object (result (ctx_of a))) cost tokens false;
            })
          (sym (λ i d. alone d i))
          (rw (known, run_task)
            (rw (pure, execute) (rw (answers (ctx_of a) refl, perform) (rw priced refl))))

    module _ (alone : (i : ℕ) (d : Db) → set.meanwhile i d ≡ d) (quick : set.rounds ≡ []) where
      turn-eq :
          (a : Agent)
          → load_agent t.agent_id (granted set t db) ≡ some a
          → process_one sha256 label set db ≡ (
            (checkpoint_success
                (leased set t)
                (object (result (ctx_of a)))
                cost
                tokens
                set.started
                set.worker_id
                set.finished_at
                (granted set t db)).0,
            worked,
          )
      unfolding process_one claim_one after_claim run_claimed finish beat start
      turn-eq a loaded =
          rw
            (
              claimed,
              alone 0 (granted set t db),
              loaded,
              ran (set.meanwhile 4) (alone 4) a,
              alone 1 (granted set t db),
              quick,
              alone 2 (granted set t db),
            )
            refl

      -- A turn that claims a task which its code can do, and that nothing disturbs, finishes it: the
      -- task has succeeded with the result of a run at its tier, and its agent's cursor is past it.
      -- The task has no side effect.
      pub process_one-Done :
          ((ctx : TaskContext) × (ctx.tier ≡ t.tier)
            × Done t (result ctx) (process_one sha256 label set db).0)
          × ((process_one sha256 label set db).1 ≡ worked)
      process_one-Done =
          let (a, loaded) = agent-loaded in
          let e = turn-eq a loaded in
          (
            (
              ctx_of a,
              refl,
              subst (λ (r : Db × Progress). Done t (result (ctx_of a)) r.0) (sym e)
                  (committed-Done (result (ctx_of a)) cost tokens),
            ),
            ap (λ (r : Db × Progress). r.1) e,
          )
