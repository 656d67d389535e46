-- ===== src/Orchestrator/Ledger/Slots.antt =====
-- orchestrator/ledger.py: the slot of an action id under each statement. The ids are a primary key.
use reliable_ai_agents.Prelude.{
  ℕ, ◌≡◌, refl, inl, inr, subst, Bool, true, false, Option, none, some, List, [], ◌∷◌, ◌++◌, arith,
  if◌then◌else◌, ◌==◌, head?, select, exists_where, update_where, delete_where, Bool-cases,
}
use reliable_ai_agents.Json.{Json}
use reliable_ai_agents.Schema.{Reservation}
use reliable_ai_agents.Orchestrator.Ledger.{has_key, is_open, close}
use reliable_ai_agents.Orchestrator.Ledger.Spec.{Slot, taken, slot_of, settle_slot, release_slot}

abbrev pub entry : ℕ → List Reservation → Option Reservation
entry key rows = head? (select (has_key key) rows)

abbrev pub slot : ℕ → List Reservation → Slot
slot key rows = slot_of (entry key rows)

-- The primary key.
abbrev pub Distinct : List Reservation → Type 0
Distinct [] = Unit
Distinct (r ∷ rs) = (exists_where (has_key r.key) rs ≡ false) × Distinct rs

pub slot-append :
    (k : ℕ) (rows : List Reservation) (r : Reservation)
    → entry r.key rows ≡ none
    → slot k (rows ++ r ∷ []) ≡ (if k == r.key then slot_of (some r) else slot k rows)
unfolding select
slot-append k [] r h = ground arith
slot-append k (x ∷ xs) r h = ground (arith, slot-append k xs r)

-- SETTLE_SQL
pub slot-settle :
    (k key : ℕ) (result : Json) (now : ℕ) (rows : List Reservation)
    → slot k (update_where (is_open key) (close result now) rows)
      ≡ (if k == key then (settle_slot result (slot key rows)).0 else slot k rows)
unfolding select update_where
slot-settle k key result now [] = ground arith
slot-settle k key result now (x ∷ xs) = ground (arith, slot-settle k key result now xs)

abbrev pub is_taken : Slot → Bool
is_taken (taken since) = true
is_taken _ = false

entry-absent :
    (key : ℕ) (rows : List Reservation)
    → exists_where (has_key key) rows ≡ false
    → entry key rows ≡ none
unfolding select exists_where
entry-absent key [] h = refl
entry-absent key (x ∷ xs) h = ground (arith, entry-absent key xs)

absent-entry :
    (key : ℕ) (rows : List Reservation)
    → entry key rows ≡ none
    → exists_where (has_key key) rows ≡ false
unfolding select exists_where
absent-entry key [] h = refl
absent-entry key (x ∷ xs) h = ground (arith, absent-entry key xs)

open-absent :
    (key : ℕ) (rows : List Reservation)
    → exists_where (has_key key) rows ≡ false
    → exists_where (is_open key) rows ≡ false
unfolding exists_where
open-absent key [] h = refl
open-absent key (x ∷ xs) h = ground (arith, open-absent key xs)

pub open-taken :
    (key : ℕ) (rows : List Reservation)
    → Distinct rows
    → exists_where (is_open key) rows ≡ is_taken (slot key rows)
unfolding select exists_where
open-taken key [] d = refl
open-taken key (x ∷ xs) d = elim (Bool-cases (x.key == key)) [
  | inl hit ↦
      let e : x.key ≡ key = ground (arith, hit) in
      let absent = subst (λ k. exists_where (has_key k) xs ≡ false) e d.0 in
      ground (arith, hit, open-absent key xs absent)
  | inr miss ↦ ground (arith, miss, open-taken key xs d.1)
]

pub slot-release :
    (k key : ℕ) (rows : List Reservation)
    → Distinct rows
    → slot k (delete_where (is_open key) rows)
      ≡ (if k == key then (release_slot (slot key rows)).0 else slot k rows)
unfolding select delete_where
slot-release k key [] d = ground arith
slot-release k key (x ∷ xs) d = elim (Bool-cases (x.key == key)) [
  | inl hit ↦
      let e : x.key ≡ key = ground (arith, hit) in
      let absent = subst (λ k. exists_where (has_key k) xs ≡ false) e d.0 in
      ground (arith, hit, slot-release k key xs d.1, entry-absent key xs absent)
  | inr miss ↦ ground (arith, miss, slot-release k key xs d.1)
]

-- The key stays a key.
update-has_key :
    (key : ℕ) (p : Reservation → Bool) (f : Reservation → Reservation) (rows : List Reservation)
    → ((r : Reservation) → (f r).key ≡ r.key)
    → exists_where (has_key key) (update_where p f rows) ≡ exists_where (has_key key) rows
unfolding exists_where update_where
update-has_key key p f [] same = refl
update-has_key key p f (x ∷ xs) same = ground (arith, same x, update-has_key key p f xs same)

pub Distinct-update :
    (p : Reservation → Bool) (f : Reservation → Reservation) (rows : List Reservation)
    → ((r : Reservation) → (f r).key ≡ r.key)
    → Distinct rows
    → Distinct (update_where p f rows)
unfolding update_where
Distinct-update p f [] same d = tt
Distinct-update p f (x ∷ xs) same d = (
  (let e : (if p x then f x else x).key ≡ x.key = ground (arith, same x) in
      rw (e, update-has_key x.key p f xs same) d.0),
  Distinct-update p f xs same d.1,
)

delete-has_key :
    (key : ℕ) (p : Reservation → Bool) (rows : List Reservation)
    → exists_where (has_key key) rows ≡ false
    → exists_where (has_key key) (delete_where p rows) ≡ false
unfolding exists_where delete_where
delete-has_key key p [] h = refl
delete-has_key key p (x ∷ xs) h = ground (arith, delete-has_key key p xs)

pub Distinct-delete :
    (p : Reservation → Bool) (rows : List Reservation)
    → Distinct rows
    → Distinct (delete_where p rows)
unfolding delete_where
Distinct-delete p [] d = tt
Distinct-delete p (x ∷ xs) d = elim (Bool-cases (p x)) [
  | inl gone ↦ rw gone (Distinct-delete p xs d.1)
  | inr stays ↦ rw stays (delete-has_key x.key p xs d.0, Distinct-delete p xs d.1)
]

append-has_key :
    (key : ℕ) (rows : List Reservation) (r : Reservation)
    → exists_where (has_key key) rows ≡ false
    → (r.key == key) ≡ false
    → exists_where (has_key key) (rows ++ r ∷ []) ≡ false
unfolding exists_where
append-has_key key [] r h ne = ground arith
append-has_key key (x ∷ xs) r h ne = ground (arith, append-has_key key xs r)

pub Distinct-append :
    (rows : List Reservation) (r : Reservation)
    → entry r.key rows ≡ none
    → Distinct rows
    → Distinct (rows ++ r ∷ [])
unfolding exists_where select
Distinct-append [] r h d = (refl, tt)
Distinct-append (x ∷ xs) r h d = elim (Bool-cases (x.key == r.key)) [
  | inl hit ↦ absurd (ground (arith, h, hit))
  | inr miss ↦ (
    append-has_key x.key xs r d.0 (ground (arith, miss)),
    Distinct-append xs r (ground (arith, h, miss)) d.1,
  )
]
