-- ===== src/Harness.antt =====
-- chaos/harness.py: the named plans, the plan that `seed` is given, and the processes of `workers`;
-- tasks/registry.py: the plans that come with it. `rank` is the order of the database's collation.
pub mod Text
pub mod Plans
pub mod Named
pub mod Commands
pub mod Pools
use reliable_ai_agents.Prelude.{
  ℤ, pos, negsuc, ℕ, suc, zero, String, str_eq, Bool, true, false, not, Option, none, some, List,
  [], ◌∷◌, ◌++◌, map, if◌then◌else◌, select, exists_where, update_where, delete_where, order_by,
}
use reliable_ai_agents.Json.{Json, object, field, end, jsonb_set}
use reliable_ai_agents.Schema.{Pipeline, Db}
use reliable_ai_agents.Runtime.{Flags, map_row}
use reliable_ai_agents.Api.{seed}
use reliable_ai_agents.Registry.{Registry, contains}
use reliable_ai_agents.Harness.Text.{ids_of}

unfoldable pub is_named : String → Pipeline → Bool
is_named name p = str_eq p.name name

abbrev pub pipeline : String → List ℕ → String → Pipeline
pipeline name plan description = record { name = name; plan = plan; description = description }

-- DEFAULT_PIPELINES
abbrev pub default_pipelines : List Pipeline
default_pipelines =
    pipeline "smoke" (1 ∷ 30 ∷ []) "two steps, no tools -- fastest sanity check"
    ∷ pipeline "quick-triage" (1 ∷ 2 ∷ 10 ∷ 30 ∷ 41 ∷ [])
        "cheap path, no hard tasks, never escalates"
    ∷ pipeline "investigation" (1 ∷ 10 ∷ 21 ∷ 40 ∷ 41 ∷ [])
        "the demo plan: one hard task, one side effect"
    ∷ pipeline "deep-investigation" (1 ∷ 3 ∷ 10 ∷ 11 ∷ 12 ∷ 20 ∷ 21 ∷ 31 ∷ 40 ∷ 42 ∷ [])
        "many observations, three hard steps"
    ∷ pipeline "code-audit" (1 ∷ 13 ∷ 14 ∷ 23 ∷ 30 ∷ 40 ∷ [])
        "filesystem + shell tools, one hard ranking step"
    ∷ pipeline "full-incident"
        (1 ∷ 2 ∷ 3 ∷ 10 ∷ 11 ∷ 12 ∷ 15 ∷ 20 ∷ 21 ∷ 22 ∷ 31 ∷ 32 ∷ 40 ∷ 42 ∷ 41 ∷ 50 ∷ 51 ∷ [])
        "17 steps end to end -- the long-running showcase"
    ∷ []

-- INSERT … ON CONFLICT (name) DO NOTHING
unfoldable pub insert_absent : Pipeline → List Pipeline → List Pipeline
unfolding is_named
insert_absent p rows = if exists_where (is_named p.name) rows then rows else rows ++ p ∷ []

unfoldable pub insert_all : List Pipeline → List Pipeline → List Pipeline
unfolding insert_absent
insert_all [] rows = rows
insert_all (p ∷ ps) rows = insert_all ps (insert_absent p rows)

unfoldable pub ensure_default_pipelines : Db → Db
unfolding insert_all
ensure_default_pipelines db = record db { pipelines = insert_all default_pipelines db.pipelines }

unfoldable pub list_pipelines : (String → ℕ) → Db → Db × List Pipeline
unfolding ensure_default_pipelines
list_pipelines rank db =
    let db' = ensure_default_pipelines db in (db', order_by (λ p. rank p.name) db'.pipelines)

-- t in TASK_DEFS; no task has a negative id.
abbrev pub is_known : Registry → ℤ → Bool
is_known task_defs (pos n) = contains n task_defs
is_known task_defs (negsuc n) = false

unfoldable pub unknown_of : Registry → List ℤ → List ℤ
unfolding contains
unknown_of task_defs plan = select (λ t. not (is_known task_defs t)) plan

-- The plan as the column INT[] holds it, once every id is known.
unfoldable pub plan_of : List ℤ → List ℕ
plan_of [] = []
plan_of (pos n ∷ ids) = n ∷ plan_of ids
plan_of (negsuc n ∷ ids) = plan_of ids

abbrev pub replace : Pipeline → Pipeline → Pipeline
replace new p = record p { plan = new.plan; description = new.description }

-- INSERT … ON CONFLICT (name) DO UPDATE
unfoldable pub upsert : Pipeline → List Pipeline → List Pipeline
unfolding is_named
upsert p rows =
    if exists_where (is_named p.name) rows
    then update_where (is_named p.name) (replace p) rows
    else rows ++ p ∷ []

-- `some` of the unknown ids is the SystemExit.
unfoldable pub create_pipeline : Registry → String → List ℤ → String → Db → Db × Option (List ℤ)
unfolding unknown_of plan_of upsert
create_pipeline task_defs name plan description db = elim (unknown_of task_defs plan) [
  | [] ↦ (
    record db { pipelines = upsert (pipeline name (plan_of plan) description) db.pipelines },
    none,
  )
  | id ∷ ids ↦ (db, some (id ∷ ids))
]

-- DELETE FROM pipelines WHERE name = …
unfoldable pub delete_pipeline : String → Db → Db
unfolding is_named
delete_pipeline name db = record db { pipelines = delete_where (is_named name) db.pipelines }

-- A plan and its label, or why the command ends.
pub data Resolved : Type 0 where
  resolved : List ℕ → String → Resolved
  not_numbers : Resolved
  unknown_ids : List ℤ → Resolved
  no_pipeline : String → Resolved

abbrev pub row_plan : String → List Pipeline → Resolved
row_plan name [] = no_pipeline name
row_plan name (p ∷ ps) = resolved p.plan name

abbrev pub inline_plan : Registry → Option (List ℤ) → Resolved
inline_plan task_defs none = not_numbers
inline_plan task_defs (some ids) = elim (unknown_of task_defs ids) [
  | [] ↦ resolved (plan_of ids) "(inline)"
  | id ∷ unknown ↦ unknown_ids (id ∷ unknown)
]

-- value or default, for a text.
abbrev pub text_or : String → Option String → String
text_or default none = default
text_or default (some s) = if str_eq s "" then default else s

-- An empty text is no plan. The list of names in the message of a missing pipeline writes nothing
-- that was not written before.
unfoldable pub resolve_plan : Registry → Option String → Option String → Db → Db × Resolved
unfolding ids_of unknown_of plan_of ensure_default_pipelines is_named
resolve_plan task_defs wanted plan db =
    let typed = text_or "" plan in
    let name = text_or "investigation" wanted in
    let db' = ensure_default_pipelines db in
    if not (str_eq typed "")
    then (db, inline_plan task_defs (ids_of typed))
    else (db', row_plan name (select (is_named name) db'.pipelines))

-- `pipeline create`, whose plan may be left out.
unfoldable pub create_command :
    Registry → String → Option String → String → Db → Db × Option Resolved
unfolding ids_of create_pipeline
create_command task_defs name plan description db = elim (ids_of (text_or "" plan)) [
  | none ↦ (db, some not_numbers)
  | some ids ↦
      let (db', refused) = create_pipeline task_defs name ids description db in
      (db', elim refused [ none ↦ none | some unknown ↦ some (unknown_ids unknown) ])
]

-- range(n)
abbrev pub rounds_of : ℤ → ℕ
rounds_of (pos n) = n
rounds_of (negsuc n) = 0

abbrev pub seed_resolved : (ℕ → ℕ) → ℤ → ℕ → Db × Resolved → Db × Option (List ℕ)
seed_resolved uuid count now (db, resolved plan label) =
    let (db', ids) = seed uuid (rounds_of count) plan now db in (db', some ids)
seed_resolved uuid count now (db, other) = (db, none)

-- `seed`: the ids of the new agents, or none where no plan was resolved.
unfoldable pub seed_command :
    Registry → (ℕ → ℕ) → ℤ → Option String → Option String → ℕ → Db → Db × Option (List ℕ)
unfolding resolve_plan seed
seed_command task_defs uuid count wanted plan now db =
    seed_resolved uuid count now (resolve_plan task_defs wanted plan db)

-- `tool`: jsonb_set on the tool's settings; `none` is the database's error.
unfoldable pub tool_command : String → Json → Flags → Option Flags
unfolding jsonb_set map_row
tool_command name failure_rate rows =
    map_row "tool_overrides" (jsonb_set name (object (field "failure_rate" failure_rate end))) rows

-- A process that `spawn_pools` starts: the module that it runs, and its environment beside the
-- parent's and PYTHONPATH. Texts of numbers are the parameter `numbered`.
pub record Process : Type 0 where
  pub module_name : String
  pub environment : List (String × String)

unfoldable pub orchestrators_from : (String → ℕ → String) → ℕ → ℕ → List Process
orchestrators_from numbered i zero = []
orchestrators_from numbered i (suc n) =
    record {
      module_name = "orchestrator.main";
      environment = ("ORCHESTRATOR_ID", numbered "orch" (suc i)) ∷ [];
    }
    ∷ orchestrators_from numbered (suc i) n

unfoldable pub workers_from : (String → ℕ → String) → String → ℕ → ℕ → List Process
workers_from numbered tier i zero = []
workers_from numbered tier i (suc n) =
    record {
      module_name = "worker.main";
      environment = ("POOL_TIER", tier) ∷ ("WORKER_ID", numbered tier (suc i)) ∷ [];
    }
    ∷ workers_from numbered tier (suc i) n

unfoldable pub pools : (String → ℕ → String) → List (String × ℕ) → List Process
unfolding workers_from
pools numbered [] = []
pools numbered ((tier, count) ∷ rest) = workers_from numbered tier 0 count ++ pools numbered rest

unfoldable pub spawn_pools : (String → ℕ → String) → List (String × ℕ) → ℕ → List Process
unfolding orchestrators_from pools
spawn_pools numbered spec orchestrators =
    orchestrators_from numbered 0 orchestrators ++ pools numbered spec
