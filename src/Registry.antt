-- ===== src/Registry.antt =====
-- common/registry.py: the task registry, a dictionary from ids to definitions in insertion order.
-- `none` is the ValueError of `add`.
pub mod Laws
pub mod Merge
pub mod Discover
pub mod Found
use reliable_ai_agents.Prelude.{
  ℕ, str_eq, Bool, true, false, not, Option, none, some, List, [], ◌∷◌, if◌then◌else◌, ◌==◌,
}
use reliable_ai_agents.Protocol.{TaskDef}

abbrev pub Registry : Type 0
Registry = List TaskDef

unfoldable pub get : ℕ → Registry → Option TaskDef
get task_id [] = none
get task_id (d ∷ ds) = if d.id == task_id then some d else get task_id ds

-- self._defs[task_def.id] = task_def
unfoldable pub put : TaskDef → Registry → Registry
put task_def [] = task_def ∷ []
put task_def (d ∷ ds) = if d.id == task_def.id then task_def ∷ ds else d ∷ put task_def ds

unfoldable pub refuses : TaskDef → Option TaskDef → Bool
refuses task_def none = false
refuses task_def (some existing) = not (str_eq existing.name task_def.name)

unfoldable pub add : TaskDef → Registry → Option Registry
unfolding get put refuses
add task_def defs =
    if refuses task_def (get task_def.id defs) then none else some (put task_def defs)

-- The additions made before an error stay, so the registry comes back beside the flag of success.
unfoldable pub merge : List TaskDef → Registry → Registry × Bool
unfolding add
merge [] defs = (defs, true)
merge (d ∷ ds) defs = elim (add d defs) [ none ↦ (defs, false) | some defs' ↦ merge ds defs' ]

unfoldable pub contains : ℕ → Registry → Bool
contains task_id [] = false
contains task_id (d ∷ ds) = if d.id == task_id then true else contains task_id ds
