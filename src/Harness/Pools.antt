-- ===== src/Harness/Pools.antt =====
-- chaos/harness.py: the names that `workers` gives to the processes of its pools.
use reliable_ai_agents.Prelude.{
  ℤ, ℕ, zero, suc, ◌<◌, ◌≡◌, ◌≢◌, refl, sym, ◌∙◌, subst, inl, inr, String, str_eq, eq_iff, Option,
  none, some, some-injective, List, [], ◌∷◌, ◌++◌, arith, if◌then◌else◌, All, All-imp, All-append,
  Pairwise, Bool-cases, Option-cases,
}
use reliable_ai_agents.Harness.{
  Process, rounds_of, workers_from, pools, orchestrators_from, spawn_pools,
}
use reliable_ai_agents.Harness.Commands.{
  partition, count_of, assign, read_spec, pool_sizes, workers_command,
}

Pairwise-append :
    {A : Type 0} (R : A → A → Type 0) (xs ys : List A)
    → Pairwise R xs
    → Pairwise R ys
    → All (λ x. All (R x) ys) xs
    → Pairwise R (xs ++ ys)
Pairwise-append R [] ys h k cross = k
Pairwise-append R (x ∷ xs) ys h k cross =
    (All-append (R x) xs ys h.0 cross.0, Pairwise-append R xs ys h.1 k cross.1)

All-always : {A : Type 0} (P : A → Type 0) (xs : List A) → ((x : A) → P x) → All P xs
All-always P [] f = tt
All-always P (x ∷ xs) f = (f x, All-always P xs f)

-- A dictionary has each key once.
abbrev pub IsDict : {A : Type 0} → List (String × A) → Type 0
IsDict = Pairwise (λ a b. a.0 ≢ b.0)

assign-away :
    (key tier : String) (count : ℤ) (spec : List (String × ℤ))
    → key ≢ tier
    → All (λ (e : String × ℤ). key ≢ e.0) spec
    → All (λ (e : String × ℤ). key ≢ e.0) (assign tier count spec)
unfolding assign
assign-away key tier count [] ne h = (ne, tt)
assign-away key tier count ((t, n) ∷ rest) ne h = elim (Bool-cases (str_eq t tier)) [
  | inl e ↦ rw e h
  | inr e ↦ rw e (h.0, assign-away key tier count rest ne h.1)
]

assign-IsDict :
    (tier : String) (count : ℤ) (spec : List (String × ℤ))
    → IsDict spec
    → IsDict (assign tier count spec)
unfolding assign
assign-IsDict tier count [] h = (tt, tt)
assign-IsDict tier count ((t, n) ∷ rest) h = elim (Bool-cases (str_eq t tier)) [
  | inl e ↦ rw e h
  | inr e ↦
      let other : t ≢ tier = λ q. let k = (eq_iff t tier).1 q in ground (arith, e, k) in
      rw e (assign-away t tier count rest other h.0, assign-IsDict tier count rest h.1)
]

read_spec-IsDict :
    (words : List String) (spec out : List (String × ℤ))
    → IsDict spec
    → read_spec words spec ≡ some out
    → IsDict out
unfolding read_spec
read_spec-IsDict [] spec out d h = subst IsDict (some-injective _ _ h) d
read_spec-IsDict (s ∷ words) spec out d h = elim (Option-cases (count_of (partition s).1)) [
  | inl e ↦ let q : none ≡ some out = (rw (e, read_spec) at h) in absurd (cc)
  | inr (n, e) ↦
      let q : read_spec words (assign (partition s).0 n spec) ≡ some out =
        (rw (e, read_spec) at h) in
      read_spec-IsDict words (assign (partition s).0 n spec) out
        (assign-IsDict (partition s).0 n spec d) q
]

pool_sizes-away :
    (key : String) (spec : List (String × ℤ))
    → All (λ (e : String × ℤ). key ≢ e.0) spec
    → All (λ (e : String × ℕ). key ≢ e.0) (pool_sizes spec)
pool_sizes-away key [] h = tt
pool_sizes-away key ((t, n) ∷ rest) h = (h.0, pool_sizes-away key rest h.1)

pool_sizes-IsDict : (spec : List (String × ℤ)) → IsDict spec → IsDict (pool_sizes spec)
pool_sizes-IsDict [] h = tt
pool_sizes-IsDict ((t, n) ∷ rest) h = (pool_sizes-away t rest h.0, pool_sizes-IsDict rest h.1)

-- The value of a variable of a process's environment.
abbrev env_value : String → List (String × String) → Option String
env_value name [] = none
env_value name ((k, v) ∷ rest) = if str_eq k name then some v else env_value name rest

abbrev pub worker_id : Process → Option String
worker_id p = env_value "WORKER_ID" p.environment

-- No WORKER_ID is given to both.
abbrev pub Apart : Process → Process → Type 0
Apart p q = (name : String) → worker_id p ≡ some name → worker_id q ≢ some name

module _ (numbered : String → ℕ → String)
    (injective : (a b : String) (i j : ℕ) → numbered a i ≡ numbered b j → (a ≡ b) × (i ≡ j)) where
  abbrev Numbered : String → ℕ → Process → Type 0
  Numbered tier i p = (k : ℕ) × (i < k) × (worker_id p ≡ some (numbered tier k))

  workers_from-Numbered :
      (tier : String) (i n : ℕ) → All (Numbered tier i) (workers_from numbered tier i n)
  unfolding workers_from
  workers_from-Numbered tier i zero = tt
  workers_from-Numbered tier i (suc n) = (
    (suc i, omega arith, refl),
    All-imp (Numbered tier (suc i)) (Numbered tier i) (workers_from numbered tier (suc i) n)
        (λ p named. (named.0, omega (arith, named.1), named.2))
        (workers_from-Numbered tier (suc i) n),
  )

  workers_from-Apart : (tier : String) (i n : ℕ) → Pairwise Apart (workers_from numbered tier i n)
  unfolding workers_from
  workers_from-Apart tier i zero = tt
  workers_from-Apart tier i (suc n) = (
    All-imp (Numbered tier (suc i))
        (λ q. (name : String) → some (numbered tier (suc i)) ≡ some name → worker_id q ≢ some name)
        (workers_from numbered tier (suc i) n)
        (λ q named name own other.
          let (a, b) =
            injective tier tier (suc i) named.0
              (some-injective _ _ (own ∙ (sym other ∙ named.2))) in
          omega (arith, named.1, b))
        (workers_from-Numbered tier (suc i) n),
    workers_from-Apart tier (suc i) n,
  )

  -- No name of the tier is given.
  abbrev Foreign : String → Process → Type 0
  Foreign tier q = (k : ℕ) → worker_id q ≢ some (numbered tier k)

  pools-Foreign :
      (tier : String) (spec : List (String × ℕ))
      → All (λ (e : String × ℕ). tier ≢ e.0) spec
      → All (Foreign tier) (pools numbered spec)
  unfolding pools
  pools-Foreign tier [] h = tt
  pools-Foreign tier ((t, n) ∷ rest) h =
      All-append (Foreign tier) (workers_from numbered t 0 n) (pools numbered rest)
        (All-imp (Numbered t 0) (Foreign tier) (workers_from numbered t 0 n)
          (λ q named k same.
            let (a, b) = injective t tier named.0 k (some-injective _ _ (sym named.2 ∙ same)) in
            h.0 (sym a))
          (workers_from-Numbered t 0 n))
        (pools-Foreign tier rest h.1)

  pools-Apart : (spec : List (String × ℕ)) → IsDict spec → Pairwise Apart (pools numbered spec)
  unfolding pools
  pools-Apart [] h = tt
  pools-Apart ((t, n) ∷ rest) h =
      Pairwise-append Apart (workers_from numbered t 0 n) (pools numbered rest)
        (workers_from-Apart t 0 n) (pools-Apart rest h.1)
        (All-imp (Numbered t 0) (λ p. All (Apart p) (pools numbered rest))
          (workers_from numbered t 0 n)
          (λ p named.
            All-imp (Foreign t) (Apart p) (pools numbered rest)
              (λ q foreign name own other. foreign named.0 (other ∙ (sym own ∙ named.2)))
              (pools-Foreign t rest h.0))
          (workers_from-Numbered t 0 n))

  abbrev Nameless : Process → Type 0
  Nameless p = worker_id p ≡ none

  orchestrators-Nameless : (i n : ℕ) → All Nameless (orchestrators_from numbered i n)
  unfolding orchestrators_from
  orchestrators-Nameless i zero = tt
  orchestrators-Nameless i (suc n) = (refl, orchestrators-Nameless (suc i) n)

  Nameless-Apart : (ps qs : List Process) → All Nameless ps → All (λ p. All (Apart p) qs) ps
  Nameless-Apart ps qs h =
      All-imp Nameless (λ p. All (Apart p) qs) ps
        (λ p empty.
          All-always (Apart p) qs
            (λ q name own other. let clash : none ≡ some name = sym empty ∙ own in absurd (cc)))
        h

  Nameless-Pairwise : (ps : List Process) → All Nameless ps → Pairwise Apart ps
  Nameless-Pairwise [] h = tt
  Nameless-Pairwise (p ∷ ps) h =
      ((Nameless-Apart (p ∷ []) ps (h.0, tt)).0, Nameless-Pairwise ps h.1)

  -- Where numbering a tier is injective, as "tier-number" is, the processes that `workers` starts
  -- never share a WORKER_ID, whatever words it is given: a tier that is named twice is one pool.
  pub workers_command-Apart :
      (words : List String) (orchestrators : ℤ) (ps : List Process)
      → workers_command numbered words orchestrators ≡ some ps
      → Pairwise Apart ps
  unfolding workers_command spawn_pools
  workers_command-Apart words orchestrators ps h = elim (Option-cases (read_spec words [])) [
    | inl e ↦ let q : none ≡ some ps = (rw (e, workers_command) at h) in absurd (cc)
    | inr (spec, e) ↦
        let n = rounds_of orchestrators in
        let q : some (spawn_pools numbered (pool_sizes spec) n) ≡ some ps =
          (rw (e, workers_command) at h) in
        let dict = read_spec-IsDict words [] spec tt e in
        let nameless = orchestrators-Nameless 0 n in
        subst (Pairwise Apart) (some-injective _ _ q) (
          Pairwise-append Apart (orchestrators_from numbered 0 n) (pools numbered (pool_sizes spec))
            (Nameless-Pairwise (orchestrators_from numbered 0 n) nameless)
            (pools-Apart (pool_sizes spec) (pool_sizes-IsDict spec dict))
            (Nameless-Apart (orchestrators_from numbered 0 n) (pools numbered (pool_sizes spec))
              nameless))
  ]
