-- ===== src/Orchestrator/Ledger/Replay.antt =====
-- orchestrator/ledger.py: what a later `begin` of an action is told.
use reliable_ai_agents.Prelude.{
  ℕ, ◌≡◌, refl, ap, ◌∙◌, String, true, false, Option, none, some, List, [], ◌∷◌, ◌++◌, arith, ◌==◌,
  if◌then◌else◌, ==-refl, head?, select, exists_where, update_where,
}
use reliable_ai_agents.Json.{Json}
use reliable_ai_agents.Schema.{Reservation, Db, is_in_flight}
use reliable_ai_agents.Orchestrator.Ledger.{
  Verdict, proceed, already, unsettled, has_key, is_open, close, reservation, verdict_of, lookup,
  begin, settle,
}

abbrev entry : ℕ → List Reservation → Option Reservation
entry key rows = head? (select (has_key key) rows)

abbrev pub settled_entry : Json → ℕ → Option Reservation → Option Reservation
settled_entry result now none = none
settled_entry result now (some r) =
    if is_in_flight r.state then some (close result now r) else some r

entry-settle :
    (key : ℕ) (result : Json) (now : ℕ) (rows : List Reservation)
    → entry key (update_where (is_open key) (close result now) rows)
      ≡ settled_entry result now (entry key rows)
unfolding select update_where
entry-settle key result now [] = refl
entry-settle key result now (x ∷ xs) = ground (arith, entry-settle key result now xs)

all_closed :
    (key : ℕ) (result : Json) (now : ℕ) (rows : List Reservation)
    → exists_where (is_open key) (update_where (is_open key) (close result now) rows) ≡ false
unfolding exists_where update_where
all_closed key result now [] = refl
all_closed key result now (x ∷ xs) = ground (arith, all_closed key result now xs)

entry-append :
    (key : ℕ) (rows : List Reservation) (r : Reservation)
    → entry key rows ≡ none
    → (r.key == key) ≡ true
    → entry key (rows ++ r ∷ []) ≡ some r
unfolding select
entry-append key [] r h k = ground arith
entry-append key (x ∷ xs) r h k = ground (arith, entry-append key xs r)

abbrev answer : Option Reservation → Verdict
answer none = proceed
answer (some r) = verdict_of r.state r.result

module _ (key agent_id seq : ℕ) (action_type : String) (now : ℕ) (db : Db) where
  pub begin-answer : (begin key agent_id seq action_type now db).1 ≡ answer (lookup key db)
  unfolding begin
  begin-answer = ground arith

  pub lookup-begin :
      (begin key agent_id seq action_type now db).1 ≡ proceed
      → lookup key (begin key agent_id seq action_type now db).0
        ≡ some (reservation key agent_id seq action_type now)
  unfolding begin lookup
  lookup-begin h = ground (
    arith,
    entry-append key db.idempotency (reservation key agent_id seq action_type now),
    ==-refl key,
  )

pub lookup-settle :
    (key : ℕ) (result : Json) (now : ℕ) (db : Db)
    → lookup key (settle key result now db).0 ≡ settled_entry result now (lookup key db)
unfolding lookup settle
lookup-settle key result now db = entry-settle key result now db.idempotency

settle_again :
    (key : ℕ) (first second : Json) (t₁ t₂ : ℕ) (db : Db)
    → (settle key second t₂ (settle key first t₁ db).0).1 ≡ false
unfolding settle
settle_again key first second t₁ t₂ db = all_closed key first t₁ db.idempotency

module _ (key agent_id seq : ℕ) (action_type : String) (t₀ t₁ t₂ : ℕ) (db : Db) where
  abbrev db₀ : Db
  db₀ = (begin key agent_id seq action_type t₀ db).0

  -- An action that `begin` cleared and that is then settled answers every later `begin`, by whichever
  -- worker, with the result that was settled; and a second settlement does not replace it.
  pub begin-settle :
      (first second : Json)
      → (begin key agent_id seq action_type t₀ db).1 ≡ proceed
      → ((begin key agent_id seq action_type t₂ (settle key first t₁ db₀).0).1
          ≡ already (some first))
        × ((settle key second t₂ (settle key first t₁ db₀).0).1 ≡ false)
        × ((begin key agent_id seq action_type t₂
              (settle key second t₂ (settle key first t₁ db₀).0).0).1
            ≡ already (some first))
  begin-settle first second h =
      let e₀ = lookup-begin key agent_id seq action_type t₀ db h in
      let e₁ = lookup-settle key first t₁ db₀ ∙ ap (settled_entry first t₁) e₀ in
      let e₂ =
        lookup-settle key second t₂ (settle key first t₁ db₀).0 ∙ ap (settled_entry second t₂) e₁ in
      (
        begin-answer key agent_id seq action_type t₂ (settle key first t₁ db₀).0 ∙ ap answer e₁,
        settle_again key first second t₁ t₂ db₀,
        begin-answer key agent_id seq action_type t₂
              (settle key second t₂ (settle key first t₁ db₀).0).0
            ∙ ap answer e₂,
      )

  -- An action that was cleared and not settled is refused, not cleared again.
  pub begin-begin :
      (begin key agent_id seq action_type t₀ db).1 ≡ proceed
      → (begin key agent_id seq action_type t₁ db₀ ≡ (db₀, unsettled))
  unfolding begin
  begin-begin h = ground (arith, lookup-begin key agent_id seq action_type t₀ db)
