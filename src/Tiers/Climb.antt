-- ===== src/Tiers/Climb.antt =====
-- common/tiers.py: which tier `next_tier` names.
use mathlib.Core.List.Memᴰ
use reliable_ai_agents.Prelude.{
  ◌≤◌, ◌<◌, ◌≡◌, ◌≢◌, refl, sym, ap, ◌⊎◌, subst, inl, inr, String, str_eq, eq_iff, eq_refl, false,
  Option, none, some, List, [], ◌∷◌, Memᴰ, arith, head?, Bool-cases, All-mem, Pairwise,
  Pairwise-order_by, Pairwise-zip, order_by, order_by-IsSorted, mem-order_by, order_by-of_mem,
}
use reliable_ai_agents.Schema.{Tier, Db}
use reliable_ai_agents.Tiers.{load, next_tier, name_of}

-- The keys of the table: no two tiers share a name, none a rank.
abbrev pub Keyed : List Tier → Type 0
Keyed = Pairwise (λ t u. (t.name ≢ u.name) × (t.rank ≢ u.rank))

abbrev Ascending : List Tier → Type 0
Ascending = Pairwise (λ t u. (t.name ≢ u.name) × (t.rank < u.rank))

load-Ascending : (db : Db) → Keyed db.tiers → Ascending (load db)
unfolding load
load-Ascending db keyed =
    Pairwise-zip _ _ _ (order_by (λ t. t.rank) db.tiers)
      (λ t u (ne : (t.name ≢ u.name) × (t.rank ≢ u.rank)) (le : t.rank ≤ u.rank).
        (ne.0, omega (arith, ne.1)))
      (Pairwise-order_by _ (λ t. t.rank) db.tiers (λ t u ne. (λ e. ne.0 (sym e), λ e. ne.1 (sym e)))
        keyed)
      (order_by-IsSorted (λ t. t.rank) db.tiers)

-- The tier that `next_tier` names: above `s`, and below every other tier above `s`.
pub record IsNext (tiers : List Tier) (s : Tier) (name : String) : Type 0 where
  pub tier : Tier
  pub mem : Memᴰ tier tiers
  pub named : tier.name ≡ name
  pub above : s.rank < tier.rank
  pub least : (u : Tier) → Memᴰ u tiers → (u.rank ≤ s.rank) ⊎ (tier.rank ≤ u.rank)

different : (t s : Tier) → t.name ≢ s.name → str_eq t.name s.name ≡ false
different t s ne = elim (Bool-cases (str_eq t.name s.name)) [
  | inl e ↦ absurd (ne ((eq_iff t.name s.name).0 e))
  | inr e ↦ e
]

next_tier-first : (s : Tier) (ts : List Tier) → next_tier s.name (s ∷ ts) ≡ name_of (head? ts)
unfolding next_tier
next_tier-first s ts = rw (eq_refl s.name)

next_tier-later :
    (s t : Tier) (ts : List Tier)
    → t.name ≢ s.name
    → next_tier s.name (t ∷ ts) ≡ next_tier s.name ts
unfolding next_tier
next_tier-later s t ts ne = rw (different t s ne)

-- What an answer of `next_tier` says: a tier to climb to, or that there is none above.
abbrev pub Climbs : List Tier → Tier → Option String → Type 0
Climbs tiers s none = (u : Tier) → Memᴰ u tiers → u.rank ≤ s.rank
Climbs tiers s (some name) = IsNext tiers s name

first-Climbs :
    (s : Tier) (ts : List Tier) → Ascending (s ∷ ts) → Climbs (s ∷ ts) s (name_of (head? ts))
first-Climbs s [] asc =
    λ u m. let e = ap (λ (x : Tier). x.rank) (Memᴰ.eq_of_singleton m) in ground (arith, e)
first-Climbs s (t ∷ ts) asc = record {
  tier = t;
  mem = Memᴰ.tail (Memᴰ.head refl);
  named = refl;
  above = asc.0.0.1;
  least = λ u m. elim (Memᴰ.cases_cons m) [
    | inl e ↦ inl (ground (arith, ap (λ (x : Tier). x.rank) e))
    | inr m' ↦ elim (Memᴰ.cases_cons m') [
      | inl e ↦ inr (ground (arith, ap (λ (x : Tier). x.rank) e))
      | inr m'' ↦ inr (ground (arith, (All-mem _ ts asc.1.0 m'').1))
    ]
  ];
}

Climbs-cons :
    (t s : Tier) (ts : List Tier) (o : Option String)
    → t.rank < s.rank
    → Climbs ts s o
    → Climbs (t ∷ ts) s o
Climbs-cons t s ts none lower h = λ u m. elim (Memᴰ.cases_cons m) [
  | inl e ↦ ground (arith, ap (λ (x : Tier). x.rank) e)
  | inr m' ↦ h u m'
]
Climbs-cons t s ts (some name) lower h = record {
  tier = h.tier;
  mem = Memᴰ.tail h.mem;
  named = h.named;
  above = h.above;
  least = λ u m. elim (Memᴰ.cases_cons m) [
    | inl e ↦ inl (ground (arith, ap (λ (x : Tier). x.rank) e))
    | inr m' ↦ h.least u m'
  ];
}

ladder-Climbs :
    (ts : List Tier) (s : Tier) → Ascending ts → Memᴰ s ts → Climbs ts s (next_tier s.name ts)
ladder-Climbs [] s asc m = absurd (Memᴰ.not-nil m)
ladder-Climbs (t ∷ ts) s asc m = elim (Memᴰ.cases_cons m) [
  | inl e ↦
      subst (λ x. Climbs (x ∷ ts) s (next_tier s.name (x ∷ ts))) e
        (subst (Climbs (s ∷ ts) s) (sym (next_tier-first s ts))
          (first-Climbs s ts (subst (λ x. Ascending (x ∷ ts)) (sym e) asc)))
  | inr m' ↦
      let apart = All-mem _ ts asc.0 m' in
      subst (Climbs (t ∷ ts) s) (sym (next_tier-later s t ts apart.0))
        (Climbs-cons t s ts (next_tier s.name ts) apart.1 (ladder-Climbs ts s asc.1 m'))
]

module _ (db : Db) where
  Climbs-load : (s : Tier) (o : Option String) → Climbs (load db) s o → Climbs db.tiers s o
  unfolding load
  Climbs-load s none h = λ u m. h u (order_by-of_mem (λ t. t.rank) db.tiers m)
  Climbs-load s (some name) h = record {
    tier = h.tier;
    mem = mem-order_by (λ t. t.rank) db.tiers h.mem;
    named = h.named;
    above = h.above;
    least = λ u m. h.least u (order_by-of_mem (λ t. t.rank) db.tiers m);
  }

  load-of_mem : (s : Tier) → Memᴰ s db.tiers → Memᴰ s (load db)
  unfolding load
  load-of_mem s m = order_by-of_mem (λ t. t.rank) db.tiers m

  -- Where names and ranks are keys of the table, `next_tier` of a tier in the table names the tier
  -- of the least rank above it, and answers none exactly for a tier that no other is above.
  pub next_tier-Climbs :
      (s : Tier) → Keyed db.tiers → Memᴰ s db.tiers → Climbs db.tiers s (next_tier s.name (load db))
  next_tier-Climbs s keyed m =
      Climbs-load s (next_tier s.name (load db))
        (ladder-Climbs (load db) s (load-Ascending db keyed) (load-of_mem s m))
