-- ===== src/Registry/Discover.antt =====
-- common/registry.py: the decorator `task`, and `discover`, which imports the modules of a package so
-- that their decorators fire. What an import does is importlib's: here it is the registrations that
-- the module's own code asks for, in order, up to its end or its exception.
use Prim.Native.Char.{Char, code}
use text.Mathlib.Text.{starts_with}
use reliable_ai_agents.Prelude.{
  ℕ, String, str_eq, Bool, true, false, not, Option, none, some, List, [], ◌∷◌, if◌then◌else◌, ◌==◌,
  select,
}
use reliable_ai_agents.Protocol.{TaskContext, Run, Difficulty, TaskDef}
use reliable_ai_agents.Registry.{Registry, merge}

-- fn.__name__ with "-" for "_"
abbrev dash : Char → Char
dash c = if code c == 95 then "-" else c

unfoldable pub dashed : String → String
dashed String.[] = String.[]
dashed (String.◌∷◌ c s) = String.◌∷◌ (dash c) (dashed s)

abbrev or_name : Option String → String → String
or_name none function = dashed function
or_name (some name) function = if str_eq name "" then dashed function else name

-- The definition that @task(id, name, ...) adds for a function.
unfoldable pub decorated :
    ℕ → Option String → Difficulty → Bool → Option String → String → (TaskContext → Run) → TaskDef
unfolding dashed
decorated id name difficulty side_effecting tool function run = record {
  id = id;
  name = or_name name function;
  run = run;
  difficulty = difficulty;
  side_effecting = side_effecting;
  tool = tool;
}

pub record Module : Type 0 where
  pub name : String
  pub additions : List TaskDef

-- The import of <package>.registry, where the package itself has no TASK_DEFS.
pub data Fallback : Type 0 where
  absent : Fallback
  raising : List TaskDef → Fallback
  loaded : List TaskDef → Option (List TaskDef) → Fallback

pub record Package : Type 0 where
  pub additions : List TaskDef
  pub modules : List Module
  pub task_defs : Option (List TaskDef)
  pub fallback : Fallback

unfoldable pub is_public : Module → Bool
is_public m = not (starts_with m.name "_")

-- A module whose import raises keeps what it had added; the loop logs it and goes on.
unfoldable pub import_all : List Module → Registry → Registry
import_all [] defs = defs
import_all (m ∷ rest) defs = import_all rest (merge m.additions defs).0

-- An empty dictionary is falsy, and merging it does nothing.
abbrev pub fold_in : Option (List TaskDef) → Registry → Registry × Bool
fold_in none defs = (defs, true)
fold_in (some legacy) defs = merge legacy defs

abbrev pub fall_back : Fallback → Registry → Registry × Bool
fall_back absent defs = (defs, true)
fall_back (raising additions) defs = ((merge additions defs).0, false)
fall_back (loaded additions legacy) defs = fold_in legacy (merge additions defs).0

abbrev pub legacy_step : Package → Registry → Registry × Bool
legacy_step p defs = elim p.task_defs [
  | some legacy ↦ merge legacy defs
  | none ↦ fall_back p.fallback defs
]

-- The first import: the package cannot be found, its own code raises after these registrations, or
-- it ends.
pub data Import : Type 0 where
  not_found : Import
  broken : List TaskDef → Import
  imported : Package → Import

-- The flag is false where an exception leaves `discover`: that of `merge`, or one of the two imports
-- that is not ModuleNotFoundError.
unfoldable pub discover : Import → Registry → Registry × Bool
unfolding is_public import_all
discover not_found defs = (defs, true)
discover (broken additions) defs = ((merge additions defs).0, false)
discover (imported p) defs =
    legacy_step p (import_all (select is_public p.modules) (merge p.additions defs).0)
