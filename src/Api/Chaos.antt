-- ===== src/Api/Chaos.antt =====
-- api/main.py: `POST /chaos/tool`.
pub mod Effect
pub mod Patch
use reliable_ai_agents.Prelude.{
  ℕ, ◌^◌, String, str_eq, Bool, true, false, not, ◌&&◌, ◌||◌, Option, none, some, if◌then◌else◌,
  leb,
}
use reliable_ai_agents.Json.{
  Json, num, decimal, str, object, Fields, end, field, get, concat, jsonb_set,
}
use reliable_ai_agents.Schema.{Db}
use reliable_ai_agents.Runtime.{Flags, map_row}
use reliable_ai_agents.Tasks.Tools.{Tools, find, get_default}

-- The body of `POST /chaos/tool`: a field that was not sent, or sent as null, is `none`.
pub record ToolChaos : Type 0 where
  pub name : String
  pub failure_rate : Option Json
  pub latency_ms : Option ℕ
  pub mode : Option String

pub data ToolResponse : Type 0 where
  applied : Fields → ToolResponse
  invalid_body : ToolResponse
  not_a_tool : String → ToolResponse
  no_settings : ToolResponse
  database_error : ToolResponse

-- ge=0.0, le=1.0
abbrev pub is_rate : Option Json → Bool
is_rate none = true
is_rate (some (num n)) = leb n 1
is_rate (some (decimal m k)) = leb m (10 ^ k)
is_rate (some _) = false

abbrev pub is_mode : Option String → Bool
is_mode none = true
is_mode (some mode) = str_eq mode "mock" || str_eq mode "live"

abbrev pub sent : String → Option Json → Fields → Fields
sent key none rest = rest
sent key (some value) rest = field key value rest

abbrev pub number : Option ℕ → Option Json
number none = none
number (some n) = some (num n)

abbrev pub text : Option String → Option Json
text none = none
text (some s) = some (str s)

-- model_dump(exclude_unset=True, exclude_none=True) less the name
abbrev pub patch_of : ToolChaos → Fields
patch_of body =
    sent "failure_rate" body.failure_rate
      (sent "latency_ms" (number body.latency_ms) (sent "mode" (text body.mode) end))

abbrev pub is_blank : Fields → Bool
is_blank end = true
is_blank (field k v fs) = false

-- SET_TOOL_OVERRIDE_SQL
unfoldable pub patched : String → Fields → Json → Option Json
unfolding jsonb_set concat get
patched name patch value =
    jsonb_set name (concat (get_default (object end) (get name value)) (object patch)) value

abbrev pub written : Fields → Db → Option Flags → Db × ToolResponse
written patch db none = (db, database_error)
written patch db (some rows) = (record db { runtime_config = rows }, applied patch)

unfoldable pub chaos_tool : Tools → ToolChaos → Db → Db × ToolResponse
unfolding find map_row patched
chaos_tool tools body db =
    if not (is_rate body.failure_rate && is_mode body.mode)
    then (db, invalid_body)
    else elim (find body.name tools) [
      | none ↦ (db, not_a_tool body.name)
      | some t ↦
          if is_blank (patch_of body)
          then (db, no_settings)
          else written (patch_of body) db
              (map_row "tool_overrides" (patched body.name (patch_of body)) db.runtime_config)
    ]
