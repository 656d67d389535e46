-- ===== src/Orchestrator/Ledger/Once.antt =====
-- orchestrator/ledger.py: how often the ledger clears an action. An interleaving of `begin`,
-- `settle`, `release` and the reconciliation sweep, by any number of workers, is a list of events.
use reliable_ai_agents.Prelude.{
  ℕ, ◌+◌, ◌≤◌, ◌≡◌, refl, inl, inr, String, Bool, true, false, Option, none, some, List, [], ◌∷◌,
  ◌++◌, arith, ◌==◌, if◌then◌else◌, head?, select, exists_where, update_where, delete_where,
  Bool-cases,
}
use reliable_ai_agents.Json.{Json}
use reliable_ai_agents.Schema.{Reservation, Db}
use reliable_ai_agents.Orchestrator.Ledger.{
  Verdict, proceed, has_key, is_open, close, reservation, unresolved, begin, settle, release,
  reconcile, is_orphan, orphaned,
}

pub data Event : Type 0 where
  asks : ℕ → ℕ → ℕ → String → ℕ → Event
  settles : ℕ → Json → ℕ → Event
  releases : ℕ → Event
  sweep : (ℕ → Bool) → ℕ → ℕ → ℕ → Event

-- The database after an event, and how often it cleared an action of `key`.
abbrev pub cleared : Bool → Verdict → ℕ
cleared true proceed = 1
cleared _ _ = 0

abbrev pub react : ℕ → Event → Db → Db × ℕ
react key (asks k agent_id seq action_type now) db =
    let r = begin k agent_id seq action_type now db in (r.0, cleared (k == key) r.1)
react key (settles k result now) db = ((settle k result now db).0, 0)
react key (releases k) db = ((release k db).0, 0)
react key (sweep locked batch age now) db = ((reconcile locked batch age now db).0, 0)

-- How often a history cleared `key`, and how often it released it.
unfoldable pub clearances : ℕ → List Event → Db → ℕ
clearances key [] db = 0
clearances key (e ∷ es) db = (react key e db).1 + clearances key es (react key e db).0

abbrev pub is_release : ℕ → Event → ℕ
is_release key (releases k) = if k == key then 1 else 0
is_release key _ = 0

unfoldable pub release_count : ℕ → List Event → ℕ
release_count key [] = 0
release_count key (e ∷ es) = is_release key e + release_count key es

-- 1 where the key is in the table.
abbrev held : Option Reservation → ℕ
held none = 0
held (some r) = 1

abbrev entry : ℕ → List Reservation → Option Reservation
entry key rows = head? (select (has_key key) rows)

entry-append :
    (key : ℕ) (rows : List Reservation) (r : Reservation)
    → entry key rows ≡ none
    → held (entry key (rows ++ r ∷ [])) ≡ (if r.key == key then 1 else 0)
unfolding select
entry-append key [] r h = ground arith
entry-append key (x ∷ xs) r h = ground (arith, entry-append key xs r)

entry-append_other :
    (key : ℕ) (rows : List Reservation) (r : Reservation)
    → (r.key == key) ≡ false
    → entry key (rows ++ r ∷ []) ≡ entry key rows
unfolding select
entry-append_other key [] r h = ground arith
entry-append_other key (x ∷ xs) r h = ground (arith, entry-append_other key xs r)

entry-update :
    (key : ℕ) (p : Reservation → Bool) (f : Reservation → Reservation) (rows : List Reservation)
    → ((r : Reservation) → (f r).key ≡ r.key)
    → held (entry key (update_where p f rows)) ≡ held (entry key rows)
unfolding select update_where
entry-update key p f [] same = refl
entry-update key p f (x ∷ xs) same = ground (arith, same x, entry-update key p f xs same)

entry-delete :
    (key k : ℕ) (rows : List Reservation)
    → held (entry key rows)
      ≤ held (entry key (delete_where (is_open k) rows)) + (if k == key then 1 else 0)
unfolding select delete_where
entry-delete key k [] = ground arith
entry-delete key k (x ∷ xs) = ground (arith, entry-delete key k xs)

held-exists :
    (key : ℕ) (rows : List Reservation)
    → held (entry key rows) ≡ (if exists_where (has_key key) rows then 1 else 0)
unfolding select exists_where
held-exists key [] = refl
held-exists key (x ∷ xs) = ground (arith, held-exists key xs)

abbrev now_held : ℕ → Db → ℕ
now_held key db = held (entry key db.idempotency)

held-le-one : (o : Option Reservation) → held o ≤ 1
held-le-one none = omega arith
held-le-one (some r) = omega arith

begin-budget :
    (key k agent_id seq : ℕ) (action_type : String) (now : ℕ) (db : Db)
    → let r = begin k agent_id seq action_type now db in
      cleared (k == key) r.1 + now_held key db ≤ now_held key r.0
unfolding begin
begin-budget key k agent_id seq action_type now db = elim (Bool-cases (k == key)) [
  | inl same ↦
      let e : k ≡ key = ground arith in
      rw e (
        ground
          (arith, entry-append key db.idempotency (reservation key agent_id seq action_type now)))
  | inr other ↦
      ground
        (arith, entry-append_other key db.idempotency (reservation k agent_id seq action_type now))
]

react-budget :
    (key : ℕ) (e : Event) (db : Db)
    → (react key e db).1 + now_held key db ≤ now_held key (react key e db).0 + is_release key e
unfolding settle release reconcile
react-budget key (asks k agent_id seq action_type now) db =
    omega (arith, begin-budget key k agent_id seq action_type now db)
react-budget key (settles k result now) db =
    omega (arith, entry-update key (is_open k) (close result now) db.idempotency (λ r. refl))
react-budget key (releases k) db = ground (arith, entry-delete key k db.idempotency)
react-budget key (sweep locked batch age now) db = omega (
  arith,
  entry-update key (is_orphan (orphaned locked batch age now db)) (close unresolved now)
      db.idempotency (λ r. refl),
)

history-budget :
    (key : ℕ) (es : List Event) (db : Db)
    → clearances key es db + now_held key db ≤ 1 + release_count key es
unfolding clearances release_count
history-budget key [] db = omega (arith, held-le-one (entry key db.idempotency))
history-budget key (e ∷ es) db =
    omega (arith, react-budget key e db, history-budget key es (react key e db).0)

-- Over any history of reservations, settlements, releases and reconciliations, an action id is
-- cleared at most once more often than it is explicitly released, and if it is in the table at the
-- start, at most as often as it is released.
pub clearances-le-releases :
    (key : ℕ) (es : List Event) (db : Db)
    → clearances key es db + (if exists_where (has_key key) db.idempotency then 1 else 0)
      ≤ 1 + release_count key es
clearances-le-releases key es db =
    ground (arith, history-budget key es db, held-exists key db.idempotency)
