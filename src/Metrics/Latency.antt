-- ===== src/Metrics/Latency.antt =====
-- common/metrics.py: the percentiles of latency. A worker takes the start of an attempt from its own
-- clock and the database its end from its own, so a duration may be negative.
use reliable_ai_agents.Prelude.{
  ℤ, pos, negsuc, ℕ, suc, ◌-◌, ◌*◌, Bool, true, false, none, some, List, [], ◌∷◌, if◌then◌else◌,
  leb, length,
}
use reliable_ai_agents.Schema.{Attempt}

abbrev pub minus : ℕ → ℕ → ℤ
minus a b = if leb b a then pos (a - b) else negsuc (b - a - 1)

abbrev pub leq : ℤ → ℤ → Bool
leq (pos a) (pos b) = leb a b
leq (pos a) (negsuc b) = false
leq (negsuc a) (pos b) = true
leq (negsuc a) (negsuc b) = leb b a

module _ {A : Type 0} where
  unfoldable pub insert_sorted : (A → A → Bool) → A → List A → List A
  insert_sorted below x [] = x ∷ []
  insert_sorted below x (y ∷ ys) =
      let rest = insert_sorted below x ys in if below x y then x ∷ y ∷ ys else y ∷ rest

  unfoldable pub sort_by : (A → A → Bool) → List A → List A
  sort_by below [] = []
  sort_by below (x ∷ xs) = insert_sorted below x (sort_by below xs)

  -- The first value whose place, counted from one after `passed`, has reached the fraction.
  unfoldable pub first_at : (ℕ → Bool) → A → ℕ → List A → A
  first_at reached default passed [] = default
  first_at reached default passed (v ∷ vs) =
      let rest = first_at reached default (suc passed) vs in
      if reached (suc passed) then v else rest

  -- coalesce(percentile_disc(num / den) WITHIN GROUP (ORDER BY ...), default)
  unfoldable pub percentile_disc : (A → A → Bool) → A → ℕ → ℕ → List A → A
  unfolding first_at
  percentile_disc below default num den xs =
      first_at (λ k. leb (num * length xs) (den * k)) default 0 (sort_by below xs)

-- ended_at - started_at of the rows with an end, in milliseconds
unfoldable pub durations : List Attempt → List ℤ
durations [] = []
durations (a ∷ rest) = elim a.ended_at [
  | none ↦ durations rest
  | some ended ↦ minus ended a.started_at ∷ durations rest
]
