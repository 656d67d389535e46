-- ===== src/Tasks/Tools/Overrides.antt =====
-- tasks/tools.py: how `describe` reads the row of overrides.
use reliable_ai_agents.Prelude.{
  ◌≡◌, refl, ap, ◌∙◌, String, str_eq, eq_refl, Bool, false, none, some, if◌then◌else◌,
}
use reliable_ai_agents.Json.{
  Json, null, bool, num, decimal, str, list, object, Fields, end, field, field_of, set_field,
  truthy,
}
use reliable_ai_agents.Json.Laws.{field_of-set_field}
use reliable_ai_agents.Runtime.{Flags, get}
use reliable_ai_agents.Tasks.Tools.{
  Tool, Tools, find, ToolConfig, or_default, load_config, override, settings_of, get_default,
  describe_tool, describe,
}

-- The entry of a tool, the empty dictionary where there is none.
abbrev pub entry : String → Fields → Json
entry name fs = get_default (object end) (field_of name fs)

pub override-entry :
    (name : String) (fs : Fields) → override name (object fs) ≡ settings_of (entry name fs)
unfolding override truthy
override-entry name end = refl
override-entry name (field k v fs) = refl

pub object-of_settings : (j : Json) (ov : Fields) → settings_of j ≡ some ov → j ≡ object ov
object-of_settings null ov h = cc
object-of_settings (bool b) ov h = cc
object-of_settings (num n) ov h = cc
object-of_settings (decimal m k) ov h = cc
object-of_settings (str s) ov h = cc
object-of_settings (list xs) ov h = cc
object-of_settings (object fs) ov h = cc

or_default-object : (fs : Fields) → or_default (object end) (some (object fs)) ≡ object fs
unfolding truthy
or_default-object end = refl
or_default-object (field k v fs) = refl

-- The mode of the tools that have none of their own.
abbrev pub common_mode : Flags → Json
common_mode rows = or_default (str "mock") (get "tool_mode" rows)

describe-found :
    (name : String) (tools : Tools) (cfg : ToolConfig) (t : Tool)
    → find name tools ≡ some t
    → describe name tools cfg ≡ describe_tool t cfg (override name cfg.overrides)
unfolding describe
describe-found name tools cfg t found = rw (found, describe) refl

overrides-row :
    (rows : Flags) (fs : Fields)
    → get "tool_overrides" rows ≡ some (object fs)
    → load_config rows ≡ record { overrides = object fs; mode = common_mode rows }
unfolding load_config
overrides-row rows fs row =
    ap (λ (j : Json). record { overrides = j; mode = common_mode rows })
      (ap (or_default (object end)) row ∙ or_default-object fs)

-- The settings of a tool in a row of overrides, for the overrides of `rows`.
pub describe-override :
    (name : String) (tools : Tools) (rows : Flags) (fs : Fields) (t : Tool)
    → get "tool_overrides" rows ≡ some (object fs)
    → find name tools ≡ some t
    → describe name tools (load_config rows)
      ≡ describe_tool t
          (record { overrides = object fs; mode = common_mode rows })
          (settings_of (entry name fs))
describe-override name tools rows fs t row found =
    ap (describe name tools) (overrides-row rows fs row)
    ∙ describe-found name tools _ t found
    ∙ ap (describe_tool t (record { overrides = object fs; mode = common_mode rows }))
        (override-entry name fs)

pub describe-unknown :
    (name : String) (tools : Tools) (cfg : ToolConfig)
    → find name tools ≡ none
    → describe name tools cfg ≡ none
unfolding describe
describe-unknown name tools cfg unknown = rw (unknown, describe) refl

pub entry-set_field :
    (name : String) (v : Json) (fs : Fields) → entry name (set_field name v fs) ≡ v
entry-set_field name v fs =
    ap (get_default (object end)) (field_of-set_field name name v fs)
    ∙ ap (λ (b : Bool). get_default (object end) (if b then some v else field_of name fs))
        (eq_refl name)

pub entry-set_field_other :
    (other name : String) (v : Json) (fs : Fields)
    → str_eq name other ≡ false
    → entry other (set_field name v fs) ≡ entry other fs
entry-set_field_other other name v fs ne =
    ap (get_default (object end)) (field_of-set_field other name v fs)
    ∙ ap (λ (b : Bool). get_default (object end) (if b then some v else field_of other fs)) ne
