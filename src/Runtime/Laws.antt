-- ===== src/Runtime/Laws.antt =====
-- common/runtime.py: lookups in the flags after writes.
use reliable_ai_agents.Prelude.{
  ◌≡◌, refl, String, str_eq, eq_iff, false, Option-cases, inl, inr, Option, some, [], ◌∷◌, arith,
  if◌then◌else◌,
}
use reliable_ai_agents.Json.{Json}
use reliable_ai_agents.Runtime.{Flags, get, set_config, map_row}

pub get-set_config :
    (j k : String) (v : Json) (rows : Flags)
    → get j (set_config k v rows) ≡ (if str_eq k j then some v else get j rows)
unfolding get set_config
get-set_config j k v [] = refl
get-set_config j k v ((i, w) ∷ rows) =
    ground (arith, eq_iff k j, eq_iff i k, eq_iff i j, get-set_config j k v rows)

-- The row that the statement is about.
pub get-map_row :
    (k : String) (f : Json → Option Json) (rows rows' : Flags) (v : Json)
    → map_row k f rows ≡ some rows'
    → get k rows ≡ some v
    → get k rows' ≡ f v
unfolding get map_row
get-map_row k f [] rows' v h g = cc
get-map_row k f ((i, w) ∷ rows) rows' v h g = elim (Option-cases (map_row k f rows)) [
  | inl failed ↦ elim (Option-cases (f w)) [
    | inl refused ↦ ground (arith, failed, refused)
    | inr new ↦ ground (arith, failed, new.1)
  ]
  | inr rest ↦ elim (Option-cases (f w)) [
    | inl refused ↦ ground (arith, rest.1, refused, get-map_row k f rows rest.0 v rest.1)
    | inr new ↦ ground (arith, rest.1, new.1, get-map_row k f rows rest.0 v rest.1)
  ]
]

-- The other rows.
pub get-map_row_other :
    (j k : String) (f : Json → Option Json) (rows rows' : Flags)
    → str_eq k j ≡ false
    → map_row k f rows ≡ some rows'
    → get j rows' ≡ get j rows
unfolding get map_row
get-map_row_other j k f [] rows' ne h = ground arith
get-map_row_other j k f ((i, w) ∷ rows) rows' ne h = elim (Option-cases (map_row k f rows)) [
  | inl failed ↦ elim (Option-cases (f w)) [
    | inl refused ↦ ground (arith, failed, refused)
    | inr new ↦ ground (arith, failed, new.1, eq_iff i k, eq_iff i j, eq_iff k j)
  ]
  | inr rest ↦ elim (Option-cases (f w)) [
    | inl refused ↦ ground (arith, rest.1, refused, get-map_row_other j k f rows rest.0 ne rest.1)
    | inr new ↦ ground (
      arith,
      rest.1,
      new.1,
      get-map_row_other j k f rows rest.0 ne rest.1,
      eq_iff i k,
      eq_iff i j,
      eq_iff k j,
    )
  ]
]
