-- ===== src/System/Remaining.antt =====
-- What agents have left of their plans, and rows with distinct keys, under an update.
use reliable_ai_agents.Prelude.{
  ℕ, ◌+◌, ◌-◌, ◌≤◌, ◌<◌, ◌≡◌, inl, inr, refl, sym, ap, ◌∙◌, subst, Bool, true, false, List, [], ◌∷◌,
  Memᴰ, arith, if◌then◌else◌, length, Bool-cases, exists_where, update_where, mem-update_where,
  update_where-of_mem,
}
use reliable_ai_agents.Schema.{Agent, is_live}

-- Rows with one key are one row.
abbrev pub IsKeyed : {A : Type 0} → (A → ℕ) → List A → Type 0
IsKeyed {A} key xs = (x y : A) → Memᴰ x xs → Memᴰ y xs → key x ≡ key y → x ≡ y

module _ {A : Type 0} (key : A → ℕ) (p : A → Bool) (f : A → A)
    (same : (x : A) → key (f x) ≡ key x) where
  abbrev touched : A → A
  touched x = if p x then f x else x

  key-touched : (x : A) → key (touched x) ≡ key x
  key-touched x = elim (Bool-cases (p x)) [ inl e ↦ rw e (same x) | inr e ↦ rw e refl ]

  pub IsKeyed-update : (xs : List A) → IsKeyed key xs → IsKeyed key (update_where p f xs)
  IsKeyed-update xs keyed x y mx my e =
      let (a, ma, ea) = mem-update_where p f xs mx in
      let (b, mb, eb) = mem-update_where p f xs my in
      let keys : key a ≡ key b =
        sym (ap key ea ∙ key-touched a) ∙ (e ∙ (ap key eb ∙ key-touched b)) in
      ea ∙ (ap touched (keyed a b ma mb keys) ∙ sym eb)

pub update_where-misses :
    {A : Type 0} (p : A → Bool) (f : A → A) (xs : List A) {x : A}
    → Memᴰ x xs
    → p x ≡ false
    → Memᴰ x (update_where p f xs)
update_where-misses p f xs {x} m miss =
    subst (λ b. Memᴰ (if b then f x else x) (update_where p f xs)) miss
      (update_where-of_mem p f xs m)

-- The tasks of its plan that an agent has before it.
abbrev pub remaining : Agent → ℕ
remaining a = if is_live a.status then length a.plan - a.cursor else 0

unfoldable pub turns_left : List Agent → ℕ
turns_left [] = 0
turns_left (a ∷ rest) = remaining a + turns_left rest

module _ (p : Agent → Bool) (f : Agent → Agent) where
  turns_left-keeps :
      (xs : List Agent)
      → ((x : Agent) → Memᴰ x xs → p x ≡ true → remaining (f x) < remaining x)
      → turns_left (update_where p f xs) ≤ turns_left xs
  unfolding turns_left update_where
  turns_left-keeps [] less = omega arith
  turns_left-keeps (x ∷ xs) less =
      let rest = turns_left-keeps xs (λ y m. less y (Memᴰ.tail m)) in
      elim (Bool-cases (p x)) [
        | inl e ↦ let first = less x (Memᴰ.head refl) e in rw e (omega (arith, first, rest))
        | inr e ↦ rw e (omega (arith, rest))
      ]

  pub turns_left-drops :
      (xs : List Agent)
      → ((x : Agent) → Memᴰ x xs → p x ≡ true → remaining (f x) < remaining x)
      → exists_where p xs ≡ true
      → turns_left (update_where p f xs) < turns_left xs
  unfolding turns_left update_where exists_where
  turns_left-drops [] less hit = absurd (cc)
  turns_left-drops (x ∷ xs) less hit =
      let later = λ (y : Agent) (m : Memᴰ y xs). less y (Memᴰ.tail m) in
      elim (Bool-cases (p x)) [
        | inl e ↦
            let first = less x (Memᴰ.head refl) e in
            let rest = turns_left-keeps xs later in rw e (omega (arith, first, rest))
        | inr e ↦
            let rest = turns_left-drops xs later (ground (arith, hit, e)) in
            rw e (omega (arith, rest))
      ]

pub remaining-le : (xs : List Agent) {a : Agent} → Memᴰ a xs → remaining a ≤ turns_left xs
unfolding turns_left
remaining-le [] m = elim m [ ]
remaining-le (x ∷ xs) (Memᴰ.head e) = rw e (omega arith)
remaining-le (x ∷ xs) (Memᴰ.tail m) = let rest = remaining-le xs m in omega (arith, rest)
