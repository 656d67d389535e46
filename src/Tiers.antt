-- ===== src/Tiers.antt =====
-- common/tiers.py: the escalation ladder, read from the `tiers` table.
-- `none` stands for the exception that the function raises: KeyError for a tier that is not in the
-- table, IndexError for an empty ladder.
pub mod Climb
use reliable_ai_agents.Prelude.{
  ℕ, String, str_eq, Bool, Option, none, some, List, [], ◌∷◌, if◌then◌else◌, head?, order_by,
}
use reliable_ai_agents.Schema.{Tier, Db}

-- LOAD_SQL
unfoldable pub load : Db → List Tier
load db = order_by (λ t. t.rank) db.tiers

-- The cache `_cache` goes in and comes out beside the ladder.
unfoldable pub all_tiers : Bool → Db → Option (List Tier) → Option (List Tier) × List Tier
unfolding load
all_tiers refresh db none = (some (load db), load db)
all_tiers refresh db (some cached) =
    if refresh then (some (load db), load db) else (some cached, cached)

unfoldable pub tier : String → List Tier → Option Tier
tier name [] = none
tier name (t ∷ ts) = if str_eq t.name name then some t else tier name ts

abbrev pub name_of : Option Tier → Option String
name_of none = none
name_of (some t) = some t.name

unfoldable pub base_tier : List Tier → Option String
base_tier ladder = name_of (head? ladder)

unfoldable pub top_tier : List Tier → Option String
top_tier [] = none
top_tier (t ∷ []) = some t.name
top_tier (t ∷ u ∷ ts) = top_tier (u ∷ ts)

unfoldable pub next_tier : String → List Tier → Option String
next_tier current [] = none
next_tier current (t ∷ ts) =
    let rest = next_tier current ts in if str_eq t.name current then name_of (head? ts) else rest

abbrev cost : Option Tier → Option (ℕ × ℕ)
cost none = none
cost (some t) = some (t.cost_units, t.tokens)

unfoldable pub cost_of : String → List Tier → Option (ℕ × ℕ)
unfolding tier
cost_of name ladder = cost (tier name ladder)
