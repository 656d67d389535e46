-- ===== src/Harness/Commands.antt =====
-- chaos/harness.py: the commands of `main` that list, and `workers`, which starts processes. A printed
-- line is the record of the values that it shows.
use Prim.Native.Char.{code}
use reliable_ai_agents.Prelude.{
  ℤ, pos, ℕ, String, str_eq, Bool, true, false, Option, none, some, List, [], ◌∷◌, ◌++◌, map,
  if◌then◌else◌, ◌==◌, order_by,
}
use reliable_ai_agents.Protocol.{Difficulty, TaskDef}
use reliable_ai_agents.Registry.{Registry}
use reliable_ai_agents.Tasks.Tools.{Tool, Tools, ToolConfig, Description, describe}
use reliable_ai_agents.Harness.Text.{codes, int}
use reliable_ai_agents.Harness.{Process, rounds_of, spawn_pools}

-- The words after a task's name.
pub data Mark : Type 0 where
  hard side_effect : Mark
  tool : String → Mark

abbrev pub difficulty_marks : Difficulty → List Mark
difficulty_marks Difficulty.hard = hard ∷ []
difficulty_marks Difficulty.easy = []

abbrev pub effect_marks : Bool → List Mark
effect_marks true = side_effect ∷ []
effect_marks false = []

abbrev pub tool_marks : Option String → List Mark
tool_marks none = []
tool_marks (some name) = if str_eq name "" then [] else tool name ∷ []

unfoldable pub marks : TaskDef → List Mark
marks t = difficulty_marks t.difficulty ++ (effect_marks t.side_effecting ++ tool_marks t.tool)

pub record TaskLine : Type 0 where
  pub id : ℕ
  pub name : String
  pub flags : List Mark

-- `tasks`, in the order of the ids
unfoldable pub task_lines : Registry → List TaskLine
unfolding marks
task_lines defs =
    map (λ (t : TaskDef). record { id = t.id; name = t.name; flags = marks t })
      (order_by (λ (t : TaskDef). t.id) defs)

-- s.partition("="), without the separator
unfoldable pub partition : String → String × String
partition String.[] = (String.[], String.[])
partition (String.◌∷◌ c s) =
    let (before, after) = partition s in
    if code c == 61 then (String.[], s) else (String.◌∷◌ c before, after)

-- int(n or 1)
abbrev pub count_of : String → Option ℤ
count_of n = if str_eq n "" then some (pos 1) else int (codes n)

-- spec[tier] = count
unfoldable pub assign : String → ℤ → List (String × ℤ) → List (String × ℤ)
assign tier count [] = (tier, count) ∷ []
assign tier count ((t, n) ∷ rest) =
    if str_eq t tier then (t, count) ∷ rest else (t, n) ∷ assign tier count rest

-- `none` is the ValueError of `int`.
unfoldable pub read_spec : List String → List (String × ℤ) → Option (List (String × ℤ))
unfolding partition codes int assign
read_spec [] spec = some spec
read_spec (s ∷ rest) spec =
    let (tier, n) = partition s in
    elim (count_of n) [ none ↦ none | some count ↦ read_spec rest (assign tier count spec) ]

-- spec.items() with the length of each range
abbrev pub pool_sizes : List (String × ℤ) → List (String × ℕ)
pool_sizes [] = []
pool_sizes ((tier, count) ∷ rest) = (tier, rounds_of count) ∷ pool_sizes rest

-- `workers`: the processes that it starts, orchestrators first.
unfoldable pub workers_command : (String → ℕ → String) → List String → ℤ → Option (List Process)
unfolding read_spec spawn_pools
workers_command numbered words orchestrators = elim (read_spec words []) [
  | none ↦ none
  | some spec ↦ some (spawn_pools numbered (pool_sizes spec) (rounds_of orchestrators))
]

-- How a process ends after Ctrl-C: by SIGTERM within its ten seconds, or killed.
pub data Ending : Type 0 where
  terminated killed : Ending

unfoldable pub stopped : (Process → Bool) → List Process → List (Process × Ending)
stopped obeys [] = []
stopped obeys (p ∷ rest) = (p, if obeys p then terminated else killed) ∷ stopped obeys rest

-- `tools`: what `describe` says of each tool, in the order of TOOLS.
unfoldable pub tool_lines : Tools → ToolConfig → List (Option Description)
unfolding describe
tool_lines tools cfg = map (λ (t : Tool). describe t.name tools cfg) tools
