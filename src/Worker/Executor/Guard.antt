-- ===== src/Worker/Executor/Guard.antt =====
-- worker/executor.py: when a side-effecting task acts, and what a second run of the same task is
-- told.
use reliable_ai_agents.Prelude.{ℕ, ◌≡◌, refl, sym, ap, ◌∙◌, String, true, false, some, List, arith}
use reliable_ai_agents.Json.{Json, object}
use reliable_ai_agents.Schema.{Tier, Detail, Reservation, Db}
use reliable_ai_agents.Failures.{TaskFailure, infra_failure}
use reliable_ai_agents.Protocol.{TaskContext, TaskDef}
use reliable_ai_agents.Orchestrator.Ledger.{
  Verdict, proceed, already, unsettled, close, reservation, verdict_of, lookup, begin, settle,
}
use reliable_ai_agents.Orchestrator.Ledger.Replay.{lookup-begin, settled_entry, lookup-settle}
use reliable_ai_agents.Worker.Executor.{
  finished, failed, Trace, Labels, key_of, perform, guarded, execute, is_dict, stored_or_empty,
}

module _ (ladder : List Tier) (task_def : TaskDef) (ctx : TaskContext) (key now : ℕ) (db : Db) where
  failed-keeps_reservation :
      (failure : TaskFailure)
      → (perform ladder task_def ctx (some key) now db).execution ≡ failed failure
      → (perform ladder task_def ctx (some key) now db).db ≡ db
  unfolding perform
  failed-keeps_reservation failure h = ground arith

  finished-settles :
      (result : Json) (cost tokens : ℕ)
      → (perform ladder task_def ctx (some key) now db).execution
        ≡ finished result cost tokens false
      → ((perform ladder task_def ctx (some key) now db).db ≡ (settle key result now db).0)
        × (is_dict result ≡ true)
  unfolding perform
  finished-settles result cost tokens h = ground arith

stored_dict : (result : Json) → is_dict result ≡ true → stored_or_empty (some result) ≡ result
stored_dict (object fs) h = refl
stored_dict _ h = cc

begin-told :
    (key agent_id seq : ℕ) (action_type : String) (now : ℕ) (db : Db) (r : Reservation)
    → lookup key db ≡ some r
    → begin key agent_id seq action_type now db ≡ (db, verdict_of r.state r.result)
unfolding begin
begin-told key agent_id seq action_type now db r e = ground arith

module _ (sha256 : ℕ × ℕ × String → ℕ) (label : Labels) (task_def : TaskDef) (ctx : TaskContext)
    (side_effecting : task_def.side_effecting ≡ true) where
  abbrev pub key : ℕ
  key = key_of sha256 label ctx task_def

  abbrev pub ask : ℕ → Db → Db × Verdict
  ask now db = begin key ctx.agent_id ctx.seq (label task_def.id) now db

  execute-guarded :
      (ladder : List Tier) (during : Db → Db) (now : ℕ) (db : Db)
      → execute sha256 label ladder task_def ctx during now db
        ≡ guarded ladder task_def ctx key during now (ask now db)
  unfolding execute
  execute-guarded ladder during now db = ground arith

  guarded-acts :
      (ladder : List Tier) (during : Db → Db) (now : ℕ) (r : Db × Verdict)
      → (guarded ladder task_def ctx key during now r).acted ≡ true
      → (r.1 ≡ proceed)
        × (guarded ladder task_def ctx key during now r
            ≡ perform ladder task_def ctx (some key) now (during r.0))
  unfolding guarded
  guarded-acts ladder during now (db, proceed) h = (refl, refl)
  guarded-acts ladder during now (db, already stored) h = cc
  guarded-acts ladder during now (db, unsettled) h = cc

  acts-cleared :
      (ladder : List Tier) (during : Db → Db) (now : ℕ) (db : Db)
      → (execute sha256 label ladder task_def ctx during now db).acted ≡ true
      → ((ask now db).1 ≡ proceed)
        × (execute sha256 label ladder task_def ctx during now db
            ≡ perform ladder task_def ctx (some key) now (during (ask now db).0))
  acts-cleared ladder during now db h =
      let e = execute-guarded ladder during now db in
      let r =
        guarded-acts ladder during now (ask now db) (sym (ap (λ (t : Trace). t.acted) e) ∙ h) in
      (r.0, e ∙ r.1)

  -- The run of the task at another tier, as after a promotion.
  abbrev pub again : String → TaskContext
  again tier = record ctx { tier = tier }

  abbrev pub refusal : Db → Trace
  refusal db = record {
    db = db;
    acted = false;
    execution = failed (infra_failure (Detail.in_flight ctx.agent_id ctx.seq task_def.id));
  }

  abbrev pub replay : Json → Db → Trace
  replay result db = record { db = db; acted = false; execution = finished result 0 0 true }

  again-guarded :
      (ladder : List Tier) (tier : String) (during : Db → Db) (now : ℕ) (db : Db)
      → execute sha256 label ladder task_def (again tier) during now db
        ≡ guarded ladder task_def (again tier) key during now (ask now db)
  unfolding execute
  again-guarded ladder tier during now db = ground arith

  module _ (ladder : List Tier) (tier : String) (during : Db → Db) (now : ℕ) (db : Db) where
    guarded-refuses :
        guarded ladder task_def (again tier) key during now (db, unsettled) ≡ refusal db
    unfolding guarded
    guarded-refuses = refl

    guarded-replays :
        (result : Json)
        → is_dict result ≡ true
        → guarded ladder task_def (again tier) key during now (db, already (some result))
          ≡ replay result db
    unfolding guarded
    guarded-replays result d = ap (λ x. replay x db) (stored_dict result d)

    -- What the next run is told by the reservation that it finds.
    again-told :
        (r : Reservation)
        → lookup key db ≡ some r
        → execute sha256 label ladder task_def (again tier) during now db
          ≡ guarded ladder task_def (again tier) key during now (db, verdict_of r.state r.result)
    again-told r e =
        again-guarded ladder tier during now db
        ∙ ap (guarded ladder task_def (again tier) key during now)
            (begin-told key ctx.agent_id ctx.seq (label task_def.id) now db r e)

  -- While the task ran, no other process settled, released or reconciled its reservation.
  abbrev pub Undisturbed : (Db → Db) → ℕ → Db → Type 0
  Undisturbed during now db = lookup key (during (ask now db).0) ≡ lookup key (ask now db).0

  module _ (ladder : List Tier) (during : Db → Db) (t₀ : ℕ) (db : Db)
      (acted : (execute sha256 label ladder task_def ctx during t₀ db).acted ≡ true)
      (undisturbed : Undisturbed during t₀ db) where
    abbrev first : Trace
    first = execute sha256 label ladder task_def ctx during t₀ db

    abbrev mine : Reservation
    mine = reservation key ctx.agent_id ctx.seq (label task_def.id) t₀

    reserved : lookup key (during (ask t₀ db).0) ≡ some mine
    reserved =
        undisturbed
        ∙ lookup-begin key ctx.agent_id ctx.seq (label task_def.id) t₀ db
            (acts-cleared ladder during t₀ db acted).0

    left_open :
        (failure : TaskFailure) → first.execution ≡ failed failure → lookup key first.db ≡ some mine
    left_open failure fails =
        let (cleared, ran) = acts-cleared ladder during t₀ db acted in
        ap (lookup key) (
          ap (λ (t : Trace). t.db) ran
          ∙ failed-keeps_reservation ladder task_def ctx key t₀ (during (ask t₀ db).0) failure
              (sym (ap (λ (t : Trace). t.execution) ran) ∙ fails))
        ∙ reserved

    left_settled :
        (result : Json) (cost tokens : ℕ)
        → first.execution ≡ finished result cost tokens false
        → (lookup key first.db ≡ some (close result t₀ mine)) × (is_dict result ≡ true)
    left_settled result cost tokens ok =
        let (cleared, ran) = acts-cleared ladder during t₀ db acted in
        let (settled, dict) =
          finished-settles ladder task_def ctx key t₀ (during (ask t₀ db).0) result cost tokens
            (sym (ap (λ (t : Trace). t.execution) ran) ∙ ok) in
        (
          ap (lookup key) (ap (λ (t : Trace). t.db) ran ∙ settled)
              ∙ (lookup-settle key result t₀ (during (ask t₀ db).0)
                  ∙ ap (settled_entry result t₀) reserved),
          dict,
        )

    -- A side-effecting task acted and failed, in whatever way, while no other process settled,
    -- released or reconciled its reservation. Then a later run of the task, at any tier, over a
    -- database in which that reservation is still as the first run left it, does not act, writes
    -- nothing and reports an infra failure.
    pub execute-after_failure :
        (failure : TaskFailure)
        → first.execution ≡ failed failure
        → (ladder' : List Tier) (tier' : String) (during' : Db → Db) (t₁ : ℕ) (later : Db)
        → lookup key later ≡ lookup key first.db
        → execute sha256 label ladder' task_def (again tier') during' t₁ later ≡ refusal later
    execute-after_failure failure fails ladder' tier' during' t₁ later kept =
        again-told ladder' tier' during' t₁ later mine (kept ∙ left_open failure fails)
        ∙ guarded-refuses ladder' tier' during' t₁ later

    -- A side-effecting task acted and finished, while no other process settled, released or
    -- reconciled its reservation. Then a later run of the task, at any tier, over a database in which
    -- that reservation is still as the first run left it, does not act, writes nothing and returns
    -- the same result at no cost, marked as a duplicate.
    pub execute-after_success :
        (result : Json) (cost tokens : ℕ)
        → first.execution ≡ finished result cost tokens false
        → (ladder' : List Tier) (tier' : String) (during' : Db → Db) (t₁ : ℕ) (later : Db)
        → lookup key later ≡ lookup key first.db
        → execute sha256 label ladder' task_def (again tier') during' t₁ later ≡ replay result later
    execute-after_success result cost tokens ok ladder' tier' during' t₁ later kept =
        let (closed, dict) = left_settled result cost tokens ok in
        again-told ladder' tier' during' t₁ later (close result t₀ mine) (kept ∙ closed)
        ∙ guarded-replays ladder' tier' during' t₁ later result dict
