-- ===== src/Runtime.antt =====
-- common/runtime.py: the chaos and benchmark flags, read from `runtime_config` through a cache.
-- Times are milliseconds of the monotonic clock.
pub mod Laws
pub mod Stale
use reliable_ai_agents.Prelude.{
  ℕ, ◌-◌, String, str_eq, Bool, true, false, not, ◌&&◌, Option, none, some, List, [], ◌∷◌, ◌++◌,
  if◌then◌else◌, ltb,
}
use reliable_ai_agents.Json.{Json, null, bool, num, object, end, str, truthy}
use reliable_ai_agents.Schema.{Db}

abbrev pub Flags : Type 0
Flags = List (String × Json)

abbrev pub cache_ms : ℕ
cache_ms = 2000

abbrev pub defaults : Flags
defaults =
    ("retries_enabled", bool true)
    ∷ ("escalation_enabled", bool true)
    ∷ ("force_tier", null)
    ∷ ("lease_ttl_seconds", num 30)
    ∷ ("tool_overrides", object end)
    ∷ []

-- A dictionary's `get`: the first entry with the key.
unfoldable pub get : String → Flags → Option Json
get key [] = none
get key ((k, v) ∷ rest) = if str_eq k key then some v else get key rest

-- `_cache` and `_cached_at`.
pub record Cache : Type 0 where
  pub entries : Flags
  pub cached_at : ℕ

abbrev pub is_empty : Flags → Bool
is_empty [] = true
is_empty (e ∷ es) = false

-- {**DEFAULTS, **rows}: a row hides the default of its key.
unfoldable pub merged : Db → Flags
merged db = db.runtime_config ++ defaults

unfoldable pub flags : Bool → ℕ → Db → Cache → Cache × Flags
unfolding merged
flags fresh now db cache =
    if not fresh && (not (is_empty cache.entries) && ltb (now - cache.cached_at) cache_ms)
    then (cache, cache.entries)
    else (record { entries = merged db; cached_at = now }, merged db)

abbrev truthy_or_true : Option Json → Bool
truthy_or_true none = true
truthy_or_true (some value) = truthy value

unfoldable pub retries_enabled : Flags → Bool
unfolding get truthy
retries_enabled fs = truthy_or_true (get "retries_enabled" fs)

unfoldable pub escalation_enabled : Flags → Bool
unfolding get truthy
escalation_enabled fs = truthy_or_true (get "escalation_enabled" fs)

-- The values that the API writes are null and texts; `str` of another value is not modelled.
abbrev pinned : Option Json → Option String
pinned (some (str s)) = if truthy (str s) then some s else none
pinned _ = none

unfoldable pub force_tier : Flags → Option String
unfolding get truthy
force_tier fs = pinned (get "force_tier" fs)

unfoldable pub invalidate : Cache
invalidate = record { entries = []; cached_at = 0 }

-- INSERT … ON CONFLICT (key) DO UPDATE
unfoldable pub set_config : String → Json → Flags → Flags
set_config key value [] = (key, value) ∷ []
set_config key value ((k, v) ∷ rest) =
    if str_eq k key then (key, value) ∷ rest else (k, v) ∷ set_config key value rest

-- UPDATE runtime_config SET value = f(value) WHERE key = key, a primary key; `none` is an error of f.
abbrev pub with_value : String → Option Json → Flags → Option Flags
with_value key none rest = none
with_value key (some value) rest = some ((key, value) ∷ rest)

abbrev pub before_rest : String × Json → Option Flags → Option Flags
before_rest row none = none
before_rest row (some rest) = some (row ∷ rest)

unfoldable pub map_row : String → (Json → Option Json) → Flags → Option Flags
map_row key f [] = some []
map_row key f ((k, v) ∷ rest) =
    let later = before_rest (k, v) (map_row key f rest) in
    if str_eq k key then with_value k (f v) rest else later
