-- ===== src/Tasks/Tools.antt =====
-- tasks/tools.py: the tools, their settings, and `call`. An implementation is Python code that may
-- return a value, raise one of the failures, or raise anything else. Times are milliseconds.
pub mod Overrides
pub mod Writes
pub mod Failures
pub mod Mocks
pub mod Live
use reliable_ai_agents.Prelude.{
  ℕ, ◌+◌, ◌-◌, ◌*◌, ◌^◌, String, str_eq, Bool, true, false, not, ◌&&◌, ◌||◌, Option, none, some,
  List, [], ◌∷◌, if◌then◌else◌, ltb,
}
use reliable_ai_agents.Json.{
  Json, null, bool, num, decimal, str, list, object, Fields, end, field, field_of, truthy,
  set_field, merge_fields, jsonb_set,
}
use reliable_ai_agents.Schema.{FailureClass, Detail, Db}
use reliable_ai_agents.Failures.{TaskFailure, infra_failure, poison_failure}
use reliable_ai_agents.Protocol.{Run, returns, fails, crashes}
use reliable_ai_agents.Runtime.{Flags, get, set_config, map_row}

abbrev pub Implementation : Type 0
Implementation = Fields → Run

pub record Tool : Type 0 where
  pub name : String
  pub mock : Implementation
  pub live : Option Implementation
  pub latency_ms : ℕ
  pub failure_rate : Json
  pub side_effecting : Bool

-- TOOLS, in insertion order.
abbrev pub Tools : Type 0
Tools = List Tool

unfoldable pub find : String → Tools → Option Tool
find name [] = none
find name (t ∷ ts) = if str_eq t.name name then some t else find name ts

-- TOOLS[name] = Tool(…)
unfoldable pub tool : Tool → Tools → Tools
tool new [] = new ∷ []
tool new (t ∷ ts) = if str_eq t.name new.name then new ∷ ts else t ∷ tool new ts

-- TOOLS[name].live = fn; `none` is the KeyError.
unfoldable pub live_impl : String → Implementation → Tools → Option Tools
live_impl name fn [] = none
live_impl name fn (t ∷ ts) =
    if str_eq t.name name
    then some (record t { live = some fn } ∷ ts)
    else elim (live_impl name fn ts) [ none ↦ none | some rest ↦ some (t ∷ rest) ]

-- What `_config` returns.
pub record ToolConfig : Type 0 where
  pub overrides : Json
  pub mode : Json

-- `_cfg` and `_cfg_at`.
pub record ToolCache : Type 0 where
  pub cfg : ToolConfig
  pub cfg_at : ℕ

abbrev pub cache_ms : ℕ
cache_ms = 1000

abbrev pub no_overrides : ToolConfig
no_overrides = record { overrides = object end; mode = str "mock" }

-- value or default
abbrev pub or_default : Json → Option Json → Json
or_default d none = d
or_default d (some value) = if truthy value then value else d

unfoldable pub load_config : Flags → ToolConfig
unfolding get truthy
load_config rows = record {
  overrides = or_default (object end) (get "tool_overrides" rows);
  mode = or_default (str "mock") (get "tool_mode" rows);
}

-- `down`: the query raises. The settings are read again a second after they were read last.
unfoldable pub config : Bool → ℕ → Db → ToolCache → ToolCache × ToolConfig
unfolding load_config
config down now db cache =
    let cfg = if down then no_overrides else load_config db.runtime_config in
    if ltb (now - cache.cfg_at) cache_ms
    then (cache, cache.cfg)
    else (record { cfg = cfg; cfg_at = now }, cfg)

pub record Description : Type 0 where
  pub name : String
  pub mode : Json
  pub has_live : Bool
  pub latency_ms : Json
  pub failure_rate : Json
  pub side_effecting : Bool

abbrev pub is_text : String → Json → Bool
is_text name (str s) = str_eq s name
is_text name _ = false

abbrev pub is_there : Option Implementation → Bool
is_there none = false
is_there (some fn) = true

-- d.get(key, default)
abbrev pub get_default : Json → Option Json → Json
get_default d none = d
get_default d (some value) = value

-- (cfg["overrides"] or {}).get(name, {}), which both are to be dictionaries; `none` raises.
abbrev pub settings_of : Json → Option Fields
settings_of (object fs) = some fs
settings_of _ = none

unfoldable pub override : String → Json → Option Fields
unfolding truthy field_of
override name overrides = elim (if truthy overrides then settings_of overrides else some end) [
  | none ↦ none
  | some fs ↦ settings_of (get_default (object end) (field_of name fs))
]

unfoldable pub described : Tool → Json → Fields → Description
unfolding field_of
described t default_mode ov =
    let mode = get_default default_mode (field_of "mode" ov) in
    record {
      name = t.name;
      mode = if is_text "mock" mode || is_there t.live then mode else str "mock";
      has_live = is_there t.live;
      latency_ms = get_default (num t.latency_ms) (field_of "latency_ms" ov);
      failure_rate = get_default t.failure_rate (field_of "failure_rate" ov);
      side_effecting = t.side_effecting;
    }

abbrev pub describe_tool : Tool → ToolConfig → Option Fields → Option Description
describe_tool t cfg none = none
describe_tool t cfg (some ov) = some (described t cfg.mode ov)

-- `none` is an exception: the KeyError of a name that is no tool, or settings that are no dictionary.
unfoldable pub describe : String → Tools → ToolConfig → Option Description
unfolding find override described
describe name tools cfg = elim (find name tools) [
  | none ↦ none
  | some t ↦ describe_tool t cfg (override name cfg.overrides)
]

-- A number m / 10 ^ k, as Python's arithmetic takes it; a text that reads as a number is left out.
abbrev pub as_number : Json → Option (ℕ × ℕ)
as_number (num n) = some (n, 0)
as_number (decimal m k) = some (m, k)
as_number (bool true) = some (1, 0)
as_number (bool false) = some (0, 0)
as_number _ = none

-- random.random() is `draw` / 2 ^ 53.
unfoldable pub is_below : ℕ → ℕ × ℕ → Bool
is_below draw (m, k) = ltb (draw * 10 ^ k) (m * 2 ^ 53)

-- impl = t.live if (d["mode"] == "live" and t.live) else t.mock
abbrev pub choose : Bool → Option Implementation → Implementation → Implementation
choose true (some live) mock = live
choose _ _ mock = mock

-- except (InfraFailure, PoisonFailure): raise; any other exception, a CapabilityFailure too, is
-- wrapped.
abbrev pub wrap_failure : String → FailureClass → TaskFailure → TaskFailure
wrap_failure name FailureClass.capability f = infra_failure (Detail.tool_raised name f.detail)
wrap_failure name _ f = f

-- The answer is a dictionary that starts with three entries of its own; `**out` of anything else
-- raises a TypeError.
unfoldable pub answer : String → Json → ℕ → Run → Run
unfolding merge_fields
answer name mode ms (returns (object out)) = returns (
    object
      (merge_fields (field "tool" (str name) (field "mode" mode (field "ms" (num ms) end))) out))
answer name mode ms (returns _) = crashes "TypeError"
answer name mode ms (fails f) = fails (wrap_failure name f.failure_class f)
answer name mode ms (crashes e) = fails (infra_failure (Detail.tool_raised name (Detail.message e)))

-- From the draw on; drawing against something that is no number raises.
unfoldable pub run_tool : Tool → Description → ℕ → ℕ → Fields → Run
unfolding is_below answer
run_tool t d draw ms payload = elim (as_number d.failure_rate) [
  | none ↦ crashes "TypeError"
  | some rate ↦
      if is_below draw rate
      then fails (infra_failure (Detail.injected t.name))
      else answer t.name d.mode ms (choose (is_text "live" d.mode) t.live t.mock payload)
]

abbrev pub is_number : Option (ℕ × ℕ) → Bool
is_number none = false
is_number (some n) = true

-- time.sleep in mock mode
unfoldable pub sleeps : Description → Bool
sleeps d = not (is_text "mock" d.mode) || is_number (as_number d.latency_ms)

abbrev pub tried : Tool → Option Description → ℕ → ℕ → Fields → Run
tried t none draw ms payload = crashes "AttributeError"
tried t (some d) draw ms payload =
    if sleeps d then run_tool t d draw ms payload else crashes "TypeError"

-- `payload or {}` is `payload`: the empty dictionary for none.
unfoldable pub call : Tools → ToolConfig → ℕ → ℕ → String → Fields → Run
unfolding find describe run_tool sleeps
call tools cfg draw ms name payload = elim (find name tools) [
  | none ↦ fails (poison_failure (Detail.unknown_tool name))
  | some t ↦ tried t (describe name tools cfg) draw ms payload
]

-- One tool, or all where no name is given; `none` is the error of jsonb_set.
unfoldable pub set_mode : Option String → String → Flags → Option Flags
unfolding jsonb_set map_row set_config
set_mode none mode rows = some (set_config "tool_mode" (str mode) rows)
set_mode (some name) mode rows =
    map_row "tool_overrides" (jsonb_set name (object (field "mode" (str mode) end))) rows
