-- ===== src/System/Runs.antt =====
-- worker/executor.py: a run with no reservation in flight, its side effect included.
use reliable_ai_agents.Prelude.{
  ℕ, ◌≡◌, refl, sym, ap, subst, ◌∙◌, inl, inr, String, Bool, true, false, Option, none, some, List,
  [], ◌∷◌, ◌++◌, arith, ◌==◌, ==-refl, head?, select, Bool-cases, exists_where, update_where,
}
use reliable_ai_agents.Json.{Json, Fields, object}
use reliable_ai_agents.Schema.{Agent, Task, Reservation, done, Tier, Db}
use reliable_ai_agents.Tiers.{cost_of}
use reliable_ai_agents.Protocol.{TaskContext, TaskDef, returns}
use reliable_ai_agents.Registry.{get}
use reliable_ai_agents.Orchestrator.Ledger.{has_key, is_open, close, reservation, begin, settle}
use reliable_ai_agents.Orchestrator.Ledger.Refinement.{begin-free, begin-held}
use reliable_ai_agents.Worker.Executor.{
  finished, Trace, Labels, key_of, context_of, stored_or_empty, perform, guarded, execute, run_task,
}
use reliable_ai_agents.Worker.Claim.{claimable, next_claim, claim_one}
use reliable_ai_agents.Worker.Heartbeat.{start, beat}
use reliable_ai_agents.Worker.Checkpoint.{load_agent, checkpoint_success}
use reliable_ai_agents.Worker.Process.{
  Progress, worked, Setting, finish, run_claimed, after_claim, process_one,
}
use reliable_ai_agents.System.Progress.{granted, leased, checked, agent-loaded, committed-eq}
use reliable_ai_agents.System.Ready.{is_unsettled}

abbrev pub IsSettled : List Reservation → Type 0
IsSettled rows = exists_where is_unsettled rows ≡ false

settle-IsSettled :
    (key : ℕ) (result : Json) (now : ℕ) (rows : List Reservation) (r : Reservation)
    → IsSettled rows
    → (r.key == key) ≡ true
    → IsSettled (update_where (is_open key) (close result now) (rows ++ r ∷ []))
unfolding exists_where update_where
settle-IsSettled key result now [] r h own = ground (arith, own)
settle-IsSettled key result now (x ∷ rows) r h own =
    ground (arith, h, settle-IsSettled key result now rows r (ground (arith, h)) own)

settled-done :
    (rows : List Reservation) (key : ℕ) (r : Reservation)
    → IsSettled rows
    → head? (select (has_key key) rows) ≡ some r
    → r.state ≡ done
unfolding exists_where select
settled-done [] key r h e = absurd (cc)
settled-done (x ∷ rows) key r h e = elim (Bool-cases (x.key == key)) [
  | inl hit ↦ ground (arith, h, e, hit)
  | inr miss ↦ settled-done rows key r (ground (arith, h)) (ground (arith, e, miss))
]

-- A run that finishes and writes nothing but reservations, none of which it leaves in flight.
abbrev pub Finishes : Db → Trace → Type 0
Finishes db trace =
    (rows : List Reservation) × IsSettled rows
    × ((result : Json) × ((cost : ℕ) × ((tokens : ℕ) × ((acted : Bool) × ((duplicate : Bool)
                × (trace ≡ record {
                  db = record db { idempotency = rows };
                  acted = acted;
                  execution = finished result cost tokens duplicate;
                }))))))

module _ (ladder : List Tier) (task_def : TaskDef) (ctx : TaskContext) (fields : Fields)
    (cost tokens : ℕ) (answers : task_def.run ctx ≡ returns (object fields))
    (priced : cost_of ctx.tier ladder ≡ some (cost, tokens)) (now : ℕ) (db : Db)
    (settled : IsSettled db.idempotency) where
  plain-Finishes : Finishes db (perform ladder task_def ctx none now db)
  unfolding perform
  plain-Finishes = (
    db.idempotency,
    settled,
    (object fields, (cost, (tokens, (true, (false, rw (answers, perform) (rw priced refl)))))),
  )

  module _ (sha256 : ℕ × ℕ × String → ℕ) (label : Labels) where
    abbrev key : ℕ
    key = key_of sha256 label ctx task_def

    guarded-Finishes :
        (o : Option Reservation)
        → head? (select (has_key key) db.idempotency) ≡ o
        → Finishes db (
            guarded ladder task_def ctx key
              (λ d. d)
              now
              (begin key ctx.agent_id ctx.seq (label task_def.id) now db))
    unfolding guarded settle
    guarded-Finishes none e =
        let mine = reservation key ctx.agent_id ctx.seq (label task_def.id) now in
        (
          update_where (is_open key) (close (object fields) now) (db.idempotency ++ mine ∷ []),
          settle-IsSettled key (object fields) now db.idempotency mine settled (==-refl key),
          (
            object fields,
            (
              cost,
              (
                tokens,
                (
                  true,
                  (
                    false,
                    rw (begin-free key ctx.agent_id ctx.seq (label task_def.id) now db e)
                        (rw (answers, perform) (rw priced refl)),
                  ),
                ),
              ),
            ),
          ),
        )
    guarded-Finishes (some r) e =
        let state = settled-done db.idempotency key r settled e in
        (
          db.idempotency,
          settled,
          (
            stored_or_empty r.result,
            (
              0,
              (
                0,
                (
                  false,
                  (
                    true,
                    rw (begin-held key ctx.agent_id ctx.seq (label task_def.id) now db r e)
                        (rw state refl),
                  ),
                ),
              ),
            ),
          ),
        )

    alone-Finishes : Finishes db (execute sha256 label ladder task_def ctx (λ d. d) now db)
    unfolding execute
    alone-Finishes = elim (Bool-cases task_def.side_effecting) [
      | inl effect ↦
          rw (effect, execute) (guarded-Finishes (head? (select (has_key key) db.idempotency)) refl)
      | inr pure ↦ rw (pure, execute) plain-Finishes
    ]

    execute-Finishes :
        (during : Db → Db)
        → ((d : Db) → during d ≡ d)
        → Finishes db (execute sha256 label ladder task_def ctx during now db)
    execute-Finishes during undisturbed =
        subst (λ f. Finishes db (execute sha256 label ladder task_def ctx f now db))
          (sym (λ i d. undisturbed d i)) alone-Finishes

-- What a turn leaves that claims `t` and that nothing disturbs.
abbrev pub Checks : Setting → Db → Task → Db × Progress → Type 0
Checks set db t r =
    (rows : List Reservation) × IsSettled rows
    × ((result : Json) × ((cost : ℕ) × ((tokens : ℕ) × (r
              ≡ (checked set t result cost tokens (record db { idempotency = rows }), worked)))))

module _ (set : Setting) (db : Db) (t : Task)
    (claimed : next_claim set.locked db set.claimed_at set.pool_tier ≡ some t)
    (sha256 : ℕ × ℕ × String → ℕ) (label : Labels) (settled : IsSettled db.idempotency)
    (alone : (i : ℕ) (d : Db) → set.meanwhile i d ≡ d) (quick : set.rounds ≡ []) where
  committed :
      (rows : List Reservation) (result : Json) (cost tokens : ℕ)
      → (checkpoint_success
          (leased set t)
          result
          cost
          tokens
          set.started
          set.worker_id
          set.finished_at
          (granted set t (record db { idempotency = rows }))).0
        ≡ checked set t result cost tokens (record db { idempotency = rows })
  unfolding next_claim claimable
  committed rows result cost tokens =
      committed-eq set (record db { idempotency = rows }) t claimed result cost tokens

  turn-eq :
      (a : Agent) (rows : List Reservation) (result : Json) (cost tokens : ℕ)
      (acted duplicate : Bool)
      → load_agent t.agent_id (granted set t db) ≡ some a
      → run_task sha256 label set.registry set.ladder
          (leased set t)
          a
          (set.meanwhile 4)
          set.started
          (granted set t db)
        ≡ record {
          db = granted set t (record db { idempotency = rows });
          acted = acted;
          execution = finished result cost tokens duplicate;
        }
      → process_one sha256 label set db ≡ (
        (checkpoint_success
            (leased set t)
            result
            cost
            tokens
            set.started
            set.worker_id
            set.finished_at
            (granted set t (record db { idempotency = rows }))).0,
        worked,
      )
  unfolding process_one claim_one after_claim run_claimed finish beat start
  turn-eq a rows result cost tokens acted duplicate loaded ran =
      rw
        (
          claimed,
          alone 0 (granted set t db),
          loaded,
          ran,
          alone 1 (granted set t (record db { idempotency = rows })),
          quick,
          alone 2 (granted set t (record db { idempotency = rows })),
        )
        refl

  pub process_one-Checks :
      (task_def : TaskDef) (answer : TaskContext → Fields) (cost tokens : ℕ)
      → get t.task_def_id set.registry ≡ some task_def
      → ((ctx : TaskContext) → ctx.tier ≡ t.tier → task_def.run ctx ≡ returns (object (answer ctx)))
      → cost_of t.tier set.ladder ≡ some (cost, tokens)
      → Checks set db t (process_one sha256 label set db)
  unfolding run_task
  process_one-Checks task_def answer cost tokens known answers priced =
      let (a, loaded) = agent-loaded set db t claimed in
      let ctx = context_of sha256 label (leased set t) a in
      let (rows, calm, (result, (charged, (used, (acted, (duplicate, e)))))) =
        execute-Finishes set.ladder task_def ctx (answer ctx) cost tokens (answers ctx refl) priced
          set.started (granted set t db) settled sha256 label (set.meanwhile 4) (alone 4) in
      let ran : run_task sha256 label set.registry set.ladder (leased set t) a (set.meanwhile 4)
            set.started (granted set t db)
          ≡ record {
            db = granted set t (record db { idempotency = rows });
            acted = acted;
            execution = finished result charged used duplicate;
          } =
        rw (known, run_task) e in
      (
        rows,
        calm,
        (
          result,
          (
            charged,
            (
              used,
              turn-eq a rows result charged used acted duplicate loaded ran
                  ∙ ap (λ (d : Db). (d, worked)) (committed rows result charged used),
            ),
          ),
        ),
      )
