-- ===== src/Tasks/Tools/Writes.antt =====
-- tasks/tools.py: the descriptions of the tools after a write of one entry of the overrides.
use reliable_ai_agents.Prelude.{
  ◌≡◌, ◌≢◌, refl, sym, ap, ◌∙◌, String, str_eq, eq_iff, false, Option, some, Bool-cases,
  Option-cases, inl, inr,
}
use reliable_ai_agents.Json.{Json, num, str, object, Fields, end, field, set_field, jsonb_set}
use reliable_ai_agents.Runtime.{Flags, get, map_row}
use reliable_ai_agents.Runtime.Laws.{get-map_row, get-map_row_other}
use reliable_ai_agents.Tasks.Tools.{
  Tool, Tools, find, load_config, or_default, Description, described, describe, set_mode,
}
use reliable_ai_agents.Tasks.Tools.Overrides.{
  common_mode, describe-override, describe-unknown, entry-set_field, entry-set_field_other,
}

str_eq-false : (a b : String) → a ≢ b → str_eq a b ≡ false
str_eq-false a b ne = elim (Bool-cases (str_eq a b)) [
  | inl e ↦ absurd (ne ((eq_iff a b).0 e))
  | inr e ↦ e
]

-- A write of one entry of the row of overrides.
module _ (name : String) (new : Json) (f : Json → Option Json) (rows rows' : Flags) (fs : Fields)
    (row : get "tool_overrides" rows ≡ some (object fs))
    (puts : f (object fs) ≡ some (object (set_field name new fs)))
    (write : map_row "tool_overrides" f rows ≡ some rows') where
  written_row : get "tool_overrides" rows' ≡ some (object (set_field name new fs))
  written_row = get-map_row "tool_overrides" f rows rows' (object fs) write row ∙ puts

  same_mode : common_mode rows' ≡ common_mode rows
  same_mode =
      ap (or_default (str "mock"))
        (get-map_row_other "tool_mode" "tool_overrides" f rows rows' refl write)

  pub described_other :
      (tools : Tools) (other : String)
      → name ≢ other
      → describe other tools (load_config rows') ≡ describe other tools (load_config rows)
  described_other tools other ne = elim (Option-cases (find other tools)) [
    | inl unknown ↦
        describe-unknown other tools _ unknown ∙ sym (describe-unknown other tools _ unknown)
    | inr r ↦
        let kept = entry-set_field_other other name new fs (str_eq-false name other ne) in
        describe-override other tools rows' (set_field name new fs) r.0 written_row r.1
        ∙ rw (same_mode, kept) refl
        ∙ sym (describe-override other tools rows fs r.0 row r.1)
  ]

  pub described_own :
      (tools : Tools) (t : Tool) (ov : Fields)
      → find name tools ≡ some t
      → new ≡ object ov
      → describe name tools (load_config rows') ≡ some (described t (common_mode rows) ov)
  described_own tools t ov found whole =
      describe-override name tools rows' (set_field name new fs) t written_row found
      ∙ rw (same_mode, entry-set_field name new fs, whole) refl

-- Where the row of overrides is a dictionary: setting the mode of one tool drops every other setting
-- that was made for it, so that its latency and failure rate are those it was registered with; the
-- descriptions of the other tools stay.
pub set_mode_lem :
    (tools : Tools) (name mode : String) (rows rows' : Flags) (fs : Fields) (t : Tool)
    → find name tools ≡ some t
    → get "tool_overrides" rows ≡ some (object fs)
    → set_mode (some name) mode rows ≡ some rows'
    → ((d : Description) × (describe name tools (load_config rows') ≡ some d)
        × (d.latency_ms ≡ num t.latency_ms)
        × (d.failure_rate ≡ t.failure_rate))
      × ((other : String)
          → name ≢ other
          → describe other tools (load_config rows') ≡ describe other tools (load_config rows))
unfolding set_mode jsonb_set described
set_mode_lem tools name mode rows rows' fs t found row h =
    let new = object (field "mode" (str mode) end) in
    (
      (
        described t (common_mode rows) (field "mode" (str mode) end),
        described_own name new (jsonb_set name new) rows rows' fs row refl h tools t
            (field "mode" (str mode) end) found refl,
        refl,
        refl,
      ),
      described_other name new (jsonb_set name new) rows rows' fs row refl h tools,
    )
