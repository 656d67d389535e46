-- ===== src/Prelude/Order.antt =====
-- Relations between any two rows of a table, and what ORDER BY makes of them.
use Prim.Native.Nat.{ℕ, ◌≤◌}
use mathlib.Core.Path.{◌≡◌}
use mathlib.Core.Logic.{inl, inr}
use mathlib.Core.List.{List, [], ◌∷◌}
use native.Mathlib.Omega.{arith}
use reliable_ai_agents.Prelude.Tests.{leb, leb→le, Bool-cases, if◌then◌else◌}
use mathlib.Core.Bool.{Bool, true, false}
use reliable_ai_agents.Prelude.Lists.{All, All-imp}
use reliable_ai_agents.Prelude.Table.{insert_by, order_by, update_where}

-- Each row stands in `R` to every later row.
abbrev pub Pairwise {ℓ κ} : {A : Type ℓ} → (A → A → Type κ) → List A → Type κ
Pairwise R [] = Unit
Pairwise R (x ∷ xs) = All (R x) xs × Pairwise R xs

module _ {ℓ κ} {A : Type ℓ} (P : A → Type κ) (key : A → ℕ) where
  pub All-insert_by : (x : A) (xs : List A) → P x → All P xs → All P (insert_by key x xs)
  unfolding insert_by
  All-insert_by x [] p h = (p, tt)
  All-insert_by x (y ∷ ys) p h = elim (Bool-cases (leb (key x) (key y))) [
    | inl e ↦ rw e (p, h)
    | inr e ↦ rw e (h.0, All-insert_by x ys p h.1)
  ]

  pub All-order_by : (xs : List A) → All P xs → All P (order_by key xs)
  unfolding order_by
  All-order_by [] h = tt
  All-order_by (x ∷ xs) h = All-insert_by x (order_by key xs) h.0 (All-order_by xs h.1)

module _ {ℓ κ} {A : Type ℓ} (R : A → A → Type κ) (key : A → ℕ) where
  Pairwise-insert_by :
      (x : A) (xs : List A)
      → ((a b : A) → R a b → R b a)
      → All (R x) xs
      → Pairwise R xs
      → Pairwise R (insert_by key x xs)
  unfolding insert_by
  Pairwise-insert_by x [] symm a h = (tt, tt)
  Pairwise-insert_by x (y ∷ ys) symm a h = elim (Bool-cases (leb (key x) (key y))) [
    | inl e ↦ rw e (a, h)
    | inr e ↦
        rw e (All-insert_by (R y) key x ys (symm x y a.0) h.0, Pairwise-insert_by x ys symm a.1 h.1)
  ]

  -- A symmetric relation survives the sort.
  pub Pairwise-order_by :
      (xs : List A) → ((a b : A) → R a b → R b a) → Pairwise R xs → Pairwise R (order_by key xs)
  unfolding order_by
  Pairwise-order_by [] symm h = tt
  Pairwise-order_by (x ∷ xs) symm h =
      Pairwise-insert_by x (order_by key xs) symm (All-order_by (R x) key xs h.0)
        (Pairwise-order_by xs symm h.1)

module _ {ℓ} {A : Type ℓ} (key : A → ℕ) where
  abbrev pub IsSorted : List A → Type 0
  IsSorted = Pairwise (λ x y. key x ≤ key y)

  IsSorted-insert_by : (x : A) (xs : List A) → IsSorted xs → IsSorted (insert_by key x xs)
  unfolding insert_by
  IsSorted-insert_by x [] h = (tt, tt)
  IsSorted-insert_by x (y ∷ ys) h = elim (Bool-cases (leb (key x) (key y))) [
    | inl e ↦
        let le : key x ≤ key y = leb→le _ _ e in
        rw e ((le, All-imp _ _ ys (λ z (m : key y ≤ key z). omega arith) h.0), h)
    | inr e ↦
        let ge : key y ≤ key x = ground arith in
        rw e (All-insert_by (λ z. key y ≤ key z) key x ys ge h.0, IsSorted-insert_by x ys h.1)
  ]

  pub order_by-IsSorted : (xs : List A) → IsSorted (order_by key xs)
  unfolding order_by
  order_by-IsSorted [] = tt
  order_by-IsSorted (x ∷ xs) = IsSorted-insert_by x (order_by key xs) (order_by-IsSorted xs)

pub Pairwise-zip {ℓ κ μ ν} :
    {A : Type ℓ} (R : A → A → Type κ) (S : A → A → Type μ) (T : A → A → Type ν) (xs : List A)
    → ((a b : A) → R a b → S a b → T a b)
    → Pairwise R xs
    → Pairwise S xs
    → Pairwise T xs
Pairwise-zip R S T [] f h k = tt
Pairwise-zip R S T (x ∷ xs) f h k = (row xs h.0 k.0, Pairwise-zip R S T xs f h.1 k.1)
  where
    row : (ys : List _) → All (R x) ys → All (S x) ys → All (T x) ys
    row [] p q = tt
    row (y ∷ ys) p q = (f x y p.0 q.0, row ys p.1 q.1)

pub data Never {κ} : Type κ where

-- Each row of the first table stands in `R` to the row at its place in the second, which may have
-- more rows at its end.
abbrev pub Evolves {ℓ κ} : {A : Type ℓ} → (A → A → Type κ) → List A → List A → Type κ
Evolves R [] ys = Unit
Evolves R (x ∷ xs) [] = Never
Evolves R (x ∷ xs) (y ∷ ys) = R x y × Evolves R xs ys

module _ {ℓ κ} {A : Type ℓ} (R : A → A → Type κ) where
  pub Evolves-update_where :
      (p : A → Bool) (f : A → A) (xs : List A)
      → ((x : A) → p x ≡ false → R x x)
      → ((x : A) → p x ≡ true → R x (f x))
      → Evolves R xs (update_where p f xs)
  unfolding update_where
  Evolves-update_where p f [] keep change = tt
  Evolves-update_where p f (x ∷ xs) keep change = (row, Evolves-update_where p f xs keep change)
    where
      row : R x (if p x then f x else x)
      row = elim (Bool-cases (p x)) [ inl e ↦ rw e (change x e) | inr e ↦ rw e (keep x e) ]
