-- ===== src/Prelude/Table.antt =====
-- Tables as lists of rows, with the statements that the queries are made of: WHERE, UPDATE, DELETE,
-- EXISTS, count(*), ORDER BY one number.
use Prim.Native.Nat.{ℕ, suc, ◌+◌}
use mathlib.Core.Path.{◌≡◌, refl, subst, sym, ap, ◌∙◌}
use mathlib.Core.Bool.{Bool, true, false, ◌||◌}
use mathlib.Core.Logic.{◌⊎◌, inl, inr}
use mathlib.Core.List.{List, [], ◌∷◌, ◌++◌, Memᴰ}
use mathlib.Core.List.Memᴰ
use native.Mathlib.Omega.{arith}
use reliable_ai_agents.Prelude.Tests.{if◌then◌else◌, leb, Bool-cases}
use reliable_ai_agents.Prelude.Lists.{All, length}

module _ {ℓ} {A : Type ℓ} where
  -- The rows that a WHERE clause keeps.
  unfoldable pub select : (A → Bool) → List A → List A
  select p [] = []
  select p (x ∷ xs) = let rest = select p xs in if p x then x ∷ rest else rest

  unfoldable pub exists_where : (A → Bool) → List A → Bool
  exists_where p [] = false
  exists_where p (x ∷ xs) = p x || exists_where p xs

  unfoldable pub count_where : (A → Bool) → List A → ℕ
  count_where p [] = 0
  count_where p (x ∷ xs) = let rest = count_where p xs in if p x then suc rest else rest

  unfoldable pub update_where : (A → Bool) → (A → A) → List A → List A
  update_where p f [] = []
  update_where p f (x ∷ xs) = (if p x then f x else x) ∷ update_where p f xs

  unfoldable pub delete_where : (A → Bool) → List A → List A
  delete_where p [] = []
  delete_where p (x ∷ xs) = let rest = delete_where p xs in if p x then rest else x ∷ rest

  unfoldable pub insert_by : (A → ℕ) → A → List A → List A
  insert_by key x [] = x ∷ []
  insert_by key x (y ∷ ys) =
      let rest = insert_by key x ys in if leb (key x) (key y) then x ∷ y ∷ ys else y ∷ rest

  -- Stable and ascending.
  unfoldable pub order_by : (A → ℕ) → List A → List A
  unfolding insert_by
  order_by key [] = []
  order_by key (x ∷ xs) = insert_by key x (order_by key xs)

module _ {ℓ} {A : Type ℓ} where
  mem-cons_if :
      (b : Bool) (x : A) (xs : List A) {a : A}
      → Memᴰ a (if b then x ∷ xs else xs)
      → ((b ≡ true) × (a ≡ x)) ⊎ Memᴰ a xs
  mem-cons_if true x xs (Memᴰ.head e) = inl (refl, e)
  mem-cons_if true x xs (Memᴰ.tail m) = inr m
  mem-cons_if false x xs m = inr m

  pub mem-select :
      (p : A → Bool) (xs : List A) {a : A} → Memᴰ a (select p xs) → Memᴰ a xs × (p a ≡ true)
  unfolding select
  mem-select p [] m = elim m [ ]
  mem-select p (x ∷ xs) m = elim (mem-cons_if (p x) x (select p xs) m) [
    | inl r ↦ (Memᴰ.head r.1, subst (λ y. p y ≡ true) (sym r.1) r.0)
    | inr m' ↦ let r = mem-select p xs m' in (Memᴰ.tail r.0, r.1)
  ]

  pub select-of_mem :
      (p : A → Bool) (xs : List A) {a : A} → Memᴰ a xs → p a ≡ true → Memᴰ a (select p xs)
  unfolding select
  select-of_mem p [] m h = elim m [ ]
  select-of_mem p (x ∷ xs) (Memᴰ.head e) h =
      let px : p x ≡ true = subst (λ y. p y ≡ true) e h in rw px (Memᴰ.head e)
  select-of_mem p (x ∷ xs) (Memᴰ.tail m) h = elim (Bool-cases (p x)) [
    | inl e ↦ rw e (Memᴰ.tail (select-of_mem p xs m h))
    | inr e ↦ rw e (select-of_mem p xs m h)
  ]

  pub mem-insert_by :
      (key : A → ℕ) (x : A) (xs : List A) {a : A} → Memᴰ a (insert_by key x xs) → Memᴰ a (x ∷ xs)
  unfolding insert_by
  mem-insert_by key x [] m = m
  mem-insert_by key x (y ∷ ys) m = elim (Bool-cases (leb (key x) (key y))) [
    | inl e ↦ rw e at m
    | inr e ↦ elim (Memᴰ.cases_cons (rw e at m)) [
      | inl q ↦ Memᴰ.tail (Memᴰ.head q)
      | inr m' ↦ elim (Memᴰ.cases_cons (mem-insert_by key x ys m')) [
        | inl q ↦ Memᴰ.head q
        | inr m'' ↦ Memᴰ.tail (Memᴰ.tail m'')
      ]
    ]
  ]

  pub mem-order_by : (key : A → ℕ) (xs : List A) {a : A} → Memᴰ a (order_by key xs) → Memᴰ a xs
  unfolding order_by
  mem-order_by key [] m = m
  mem-order_by key (x ∷ xs) m = elim (Memᴰ.cases_cons (mem-insert_by key x (order_by key xs) m)) [
    | inl q ↦ Memᴰ.head q
    | inr m' ↦ Memᴰ.tail (mem-order_by key xs m')
  ]

  pub insert_by-of_mem :
      (key : A → ℕ) (x : A) (xs : List A) {a : A} → Memᴰ a (x ∷ xs) → Memᴰ a (insert_by key x xs)
  unfolding insert_by
  insert_by-of_mem key x [] m = m
  insert_by-of_mem key x (y ∷ ys) m = elim (Bool-cases (leb (key x) (key y))) [
    | inl e ↦ rw e m
    | inr e ↦ rw e (elim (Memᴰ.cases_cons m) [
      | inl q ↦ Memᴰ.tail (insert_by-of_mem key x ys (Memᴰ.head q))
      | inr m' ↦ elim (Memᴰ.cases_cons m') [
        | inl q ↦ Memᴰ.head q
        | inr m'' ↦ Memᴰ.tail (insert_by-of_mem key x ys (Memᴰ.tail m''))
      ]
    ])
  ]

  pub order_by-of_mem : (key : A → ℕ) (xs : List A) {a : A} → Memᴰ a xs → Memᴰ a (order_by key xs)
  unfolding order_by
  order_by-of_mem key [] m = m
  order_by-of_mem key (x ∷ xs) (Memᴰ.head q) =
      insert_by-of_mem key x (order_by key xs) (Memᴰ.head q)
  order_by-of_mem key (x ∷ xs) (Memᴰ.tail m) =
      insert_by-of_mem key x (order_by key xs) (Memᴰ.tail (order_by-of_mem key xs m))

  length-insert_by :
      (key : A → ℕ) (x : A) (xs : List A) → length (insert_by key x xs) ≡ suc (length xs)
  unfolding insert_by
  length-insert_by key x [] = refl
  length-insert_by key x (y ∷ ys) = elim (Bool-cases (leb (key x) (key y))) [
    | inl e ↦ rw e
    | inr e ↦ rw e (ap suc (length-insert_by key x ys))
  ]

  pub length-order_by : (key : A → ℕ) (xs : List A) → length (order_by key xs) ≡ length xs
  unfolding order_by
  length-order_by key [] = refl
  length-order_by key (x ∷ xs) =
      length-insert_by key x (order_by key xs) ∙ ap suc (length-order_by key xs)

module _ {ℓ} {A : Type ℓ} where
  pub exists_where-of_mem :
      (p : A → Bool) (xs : List A) {a : A} → Memᴰ a xs → p a ≡ true → exists_where p xs ≡ true
  unfolding exists_where
  exists_where-of_mem p [] m h = elim m [ ]
  exists_where-of_mem p (x ∷ xs) (Memᴰ.head e) h =
      let px : p x ≡ true = subst (λ y. p y ≡ true) e h in rw px
  exists_where-of_mem p (x ∷ xs) (Memᴰ.tail m) h = elim (Bool-cases (p x)) [
    | inl e ↦ rw e
    | inr e ↦ rw e (exists_where-of_mem p xs m h)
  ]

  pub mem-of_exists_where :
      (p : A → Bool) (xs : List A) → exists_where p xs ≡ true → (a : A) × Memᴰ a xs × (p a ≡ true)
  unfolding exists_where
  mem-of_exists_where p [] h = cc
  mem-of_exists_where p (x ∷ xs) h = elim (Bool-cases (p x)) [
    | inl e ↦ (x, Memᴰ.head refl, e)
    | inr e ↦ let r = mem-of_exists_where p xs (rw e at h) in (r.0, Memᴰ.tail r.1, r.2)
  ]

  pub length-update_where :
      (p : A → Bool) (f : A → A) (xs : List A) → length (update_where p f xs) ≡ length xs
  unfolding update_where
  length-update_where p f [] = refl
  length-update_where p f (x ∷ xs) = ap suc (length-update_where p f xs)

  -- An update whose WHERE clause and new values keep every row's test keeps the count.
  pub count_where-update_where :
      (q p : A → Bool) (f : A → A) (xs : List A)
      → ((x : A) → q (f x) ≡ q x)
      → count_where q (update_where p f xs) ≡ count_where q xs
  unfolding count_where update_where
  count_where-update_where q p f [] same = refl
  count_where-update_where q p f (x ∷ xs) same =
      ground (arith, count_where-update_where q p f xs same, same x)

  pub count_where-append :
      (q : A → Bool) (xs ys : List A)
      → count_where q (xs ++ ys) ≡ count_where q xs + count_where q ys
  unfolding count_where
  count_where-append q [] ys = omega arith
  count_where-append q (x ∷ xs) ys = ground (arith, count_where-append q xs ys)

module _ {ℓ κ μ} {A : Type ℓ} (P : A → Type κ) (Q : A → Type μ) (p : A → Bool) (f : A → A) where
  -- What holds of the rows of an updated table.
  pub All-update_where :
      (xs : List A)
      → ((x : A) → P x → p x ≡ false → Q x)
      → ((x : A) → P x → p x ≡ true → Q (f x))
      → All P xs
      → All Q (update_where p f xs)
  unfolding update_where
  All-update_where [] keep change h = tt
  All-update_where (x ∷ xs) keep change h = (row, All-update_where xs keep change h.1)
    where
      row : Q (if p x then f x else x)
      row = elim (Bool-cases (p x)) [ inl e ↦ rw e (change x h.0 e) | inr e ↦ rw e (keep x h.0 e) ]

module _ {ℓ} {A : Type ℓ} where
  -- A row of an updated table comes from a row of the table.
  pub mem-update_where :
      (p : A → Bool) (f : A → A) (xs : List A) {a : A}
      → Memᴰ a (update_where p f xs)
      → (x : A) × Memᴰ x xs × (a ≡ (if p x then f x else x))
  unfolding update_where
  mem-update_where p f [] m = elim m [ ]
  mem-update_where p f (x ∷ xs) (Memᴰ.head e) = (x, Memᴰ.head refl, e)
  mem-update_where p f (x ∷ xs) (Memᴰ.tail m) =
      let (y, n, e) = mem-update_where p f xs m in (y, Memᴰ.tail n, e)

  pub update_where-of_mem :
      (p : A → Bool) (f : A → A) (xs : List A) {x : A}
      → Memᴰ x xs
      → Memᴰ (if p x then f x else x) (update_where p f xs)
  unfolding update_where
  update_where-of_mem p f [] m = elim m [ ]
  update_where-of_mem p f (y ∷ ys) (Memᴰ.head e) = Memᴰ.head (ap (λ z. if p z then f z else z) e)
  update_where-of_mem p f (y ∷ ys) (Memᴰ.tail m) = Memᴰ.tail (update_where-of_mem p f ys m)

module _ {ℓ} {A : Type ℓ} where
  pub length-select : (p : A → Bool) (xs : List A) → length (select p xs) ≡ count_where p xs
  unfolding select count_where
  length-select p [] = refl
  length-select p (x ∷ xs) = ground (arith, length-select p xs)

  pub count_where-none :
      (p : A → Bool) (xs : List A) → ((x : A) → Memᴰ x xs → p x ≡ false) → count_where p xs ≡ 0
  unfolding count_where
  count_where-none p [] h = refl
  count_where-none p (x ∷ xs) h =
      rw (h x (Memᴰ.head refl)) (count_where-none p xs (λ y m. h y (Memᴰ.tail m)))
