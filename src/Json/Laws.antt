-- ===== src/Json/Laws.antt =====
-- Lookups in objects after writes and merges.
use reliable_ai_agents.Prelude.{
  ◌≡◌, refl, ap, ◌∙◌, String, str_eq, eq_iff, Option, some, arith, if◌then◌else◌,
}
use reliable_ai_agents.Json.{Json, Fields, end, field, field_of, set_field, merge_fields}

pub field_of-set_field :
    (j k : String) (v : Json) (fs : Fields)
    → field_of j (set_field k v fs) ≡ (if str_eq k j then some v else field_of j fs)
unfolding field_of set_field
field_of-set_field j k v end = refl
field_of-set_field j k v (field i w fs) =
    ground (arith, eq_iff k j, eq_iff i k, eq_iff i j, field_of-set_field j k v fs)

-- The last entry of `gs` under a key, or what there was.
abbrev pub last_of : String → Fields → Option Json → Option Json
last_of j end before = before
last_of j (field k v gs) before = last_of j gs (if str_eq k j then some v else before)

pub field_of-merge_fields :
    (j : String) (fs gs : Fields) → field_of j (merge_fields fs gs) ≡ last_of j gs (field_of j fs)
unfolding merge_fields
field_of-merge_fields j fs end = refl
field_of-merge_fields j fs (field k v gs) =
    field_of-merge_fields j (set_field k v fs) gs ∙ ap (last_of j gs) (field_of-set_field j k v fs)
