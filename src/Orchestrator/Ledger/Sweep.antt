-- ===== src/Orchestrator/Ledger/Sweep.antt =====
-- orchestrator/ledger.py against the slots: the reconciliation sweep.
use reliable_ai_agents.Prelude.{
  ℕ, ◌+◌, ◌*◌, ◌<◌, length, map, ◌≡◌, refl, sym, ap, ◌∙◌, inl, inr, subst, Bool, true, false, ◌&&◌,
  not, Option, none, some, some-injective, List, [], ◌∷◌, arith, if◌then◌else◌, ◌==◌, ==-refl,
  select, exists_where, update_where, Bool-cases, Memᴰ, mem-take, mem-select, mem-order_by,
  mem-of_exists_where,
}
use reliable_ai_agents.Schema.{Reservation, ReservationState, in_flight, done, Db, is_in_flight}
use reliable_ai_agents.Orchestrator.Ledger.{
  has_key, close, unresolved, is_stranded, orphaned, is_orphan,
}
use reliable_ai_agents.Orchestrator.Ledger.Spec.{names, Swept, slot_of}
use reliable_ai_agents.Orchestrator.Ledger.Slots.{entry, Distinct}

pub entry-update :
    (k : ℕ) (p : Reservation → Bool) (f : Reservation → Reservation) (rows : List Reservation)
    → ((r : Reservation) → (f r).key ≡ r.key)
    → entry k (update_where p f rows)
      ≡ elim (entry k rows) [ none ↦ none | some r ↦ some (if p r then f r else r) ]
unfolding select update_where
entry-update k p f [] same = refl
entry-update k p f (x ∷ xs) same = elim (Bool-cases (x.key == k)) [
  | inl hit ↦
      let kept : ((if p x then f x else x).key == k) ≡ true = ground (arith, same x, hit) in
      rw hit (rw kept refl)
  | inr miss ↦
      let kept : ((if p x then f x else x).key == k) ≡ false = ground (arith, same x, miss) in
      rw miss (rw kept (entry-update k p f xs same))
]

absent_mem :
    (k : ℕ) (rows : List Reservation) {r : Reservation}
    → exists_where (has_key k) rows ≡ false
    → Memᴰ r rows
    → (r.key == k) ≡ false
unfolding exists_where
absent_mem k [] h m = elim m [ ]
absent_mem k (x ∷ xs) h (Memᴰ.head e) =
    subst (λ (y : Reservation). (y.key == k) ≡ false) (sym e) (ground (arith, h))
absent_mem k (x ∷ xs) h (Memᴰ.tail m) = absent_mem k xs (ground (arith, h)) m

entry-of_mem :
    (rows : List Reservation) (r : Reservation)
    → Distinct rows
    → Memᴰ r rows
    → entry r.key rows ≡ some r
unfolding select
entry-of_mem [] r d m = elim m [ ]
entry-of_mem (x ∷ xs) r d (Memᴰ.head e) = rw e (rw (==-refl x.key) refl)
entry-of_mem (x ∷ xs) r d (Memᴰ.tail m) =
    let other = absent_mem x.key xs d.0 m in
    let miss : (x.key == r.key) ≡ false = ground (arith, other) in rw miss (entry-of_mem xs r d.1 m)

in_flight-of_test : (s : ReservationState) → is_in_flight s ≡ true → s ≡ in_flight
in_flight-of_test in_flight h = refl
in_flight-of_test done h = absurd (cc)

stranded-parts :
    (locked : ℕ → Bool) (age now : ℕ) (x : Reservation)
    → (is_stranded age now x && not (locked x.key)) ≡ true
    → (x.state ≡ in_flight) × (x.created_at + age * 1000 < now) × (locked x.key ≡ false)
unfolding is_stranded
stranded-parts locked age now x h =
    (in_flight-of_test x.state (ground (arith, h)), ground (arith, h), ground (arith, h))

entry-key : (k : ℕ) (rows : List Reservation) (r : Reservation) → entry k rows ≡ some r → r.key ≡ k
unfolding select
entry-key k [] r e = absurd (cc)
entry-key k (x ∷ xs) r e = elim (Bool-cases (x.key == k)) [
  | inl hit ↦ ground (arith, e, hit)
  | inr miss ↦ entry-key k xs r (ground (arith, e, miss))
]

exists_where-map :
    {A B : Type 0} (p : B → Bool) (f : A → B) (xs : List A)
    → exists_where p (map f xs) ≡ exists_where (λ x. p (f x)) xs
unfolding exists_where
exists_where-map p f [] = refl
exists_where-map p f (x ∷ xs) = rw (exists_where-map p f xs) refl

pub length-keys : (xs : List Reservation) → length (map (λ o. o.key) xs) ≡ length xs
length-keys [] = refl
length-keys (x ∷ xs) = rw (length-keys xs) refl

module _ (locked : ℕ → Bool) (batch age now : ℕ) (db : Db)
    (distinct : Distinct db.idempotency) where
  abbrev orphans : List Reservation
  orphans = orphaned locked batch age now db

  orphan-old :
      (r : Reservation)
      → entry r.key db.idempotency ≡ some r
      → is_orphan orphans r ≡ true
      → (r.state ≡ in_flight) × (r.created_at + age * 1000 < now) × (locked r.key ≡ false)
  unfolding is_orphan orphaned
  orphan-old r found h =
      let (o, m, e) = mem-of_exists_where (λ o. r.key == o.key) orphans h in
      let picked =
        mem-select (λ x. is_stranded age now x && not (locked x.key)) db.idempotency
          (mem-order_by (λ x. x.created_at) _ (mem-take batch _ m)) in
      let same_key : r.key ≡ o.key = ground (arith, e) in
      let same : r ≡ o = some-injective _ _ (
        sym found
        ∙ ap (λ k. entry k db.idempotency) same_key
        ∙ entry-of_mem db.idempotency o distinct picked.0) in
      rw same (stranded-parts locked age now o picked.1)

  abbrev keys : List ℕ
  keys = map (λ o. o.key) orphans

  names-orphan : (k : ℕ) → names keys k ≡ exists_where (λ o. k == o.key) orphans
  names-orphan k = exists_where-map (λ n. k == n) (λ o. o.key) orphans

  unnamed : (k : ℕ) → entry k db.idempotency ≡ none → exists_where (λ o. k == o.key) orphans ≡ false
  unfolding orphaned
  unnamed k e = elim (Bool-cases (exists_where (λ o. k == o.key) orphans)) [
    | inr h ↦ h
    | inl h ↦
        let (o, m, here) = mem-of_exists_where (λ o. k == o.key) orphans h in
        let picked =
          mem-select (λ x. is_stranded age now x && not (locked x.key)) db.idempotency
            (mem-order_by (λ x. x.created_at) _ (mem-take batch _ m)) in
        let same_key : k ≡ o.key = ground (arith, here) in
        let found : none ≡ some o =
          sym e
          ∙ ap (λ k. entry k db.idempotency) same_key
          ∙ entry-of_mem db.idempotency o distinct picked.0 in
        absurd (cc)
  ]

  pub slot-Swept :
      (k : ℕ) (o : Option Reservation)
      → entry k db.idempotency ≡ o
      → Swept locked age now keys k (slot_of o) (
          slot_of (elim o [
            | none ↦ none
            | some r ↦ some (if is_orphan orphans r then close unresolved now r else r)
          ]))
  unfolding is_orphan
  slot-Swept k none e = inl (names-orphan k ∙ unnamed k e, refl)
  slot-Swept k (some r) e =
      let key : r.key ≡ k = entry-key k db.idempotency r e in
      let named : names keys k ≡ exists_where (λ o. r.key == o.key) orphans =
        simp (key, names-orphan k) (refl) in
      elim (Bool-cases (exists_where (λ o. r.key == o.key) orphans)) [
        | inr keeps ↦ rw keeps (inl (named ∙ keeps, refl))
        | inl closes ↦
            let (state, old, free_lock) = orphan-old r (simp key e) closes in
            rw (closes, state)
              (inr (named ∙ closes, rw (sym key) free_lock, (r.created_at, refl, old, refl)))
      ]
