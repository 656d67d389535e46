-- ===== src/Tests/Tools.antt =====
-- The mock tools under settings that an operator made, and the library's tasks on them.
use reliable_ai_agents.Prelude.{◌≡◌, ◌≢◌, ◌↔◌, refl, String, false, some, none, [], ◌∷◌, Memᴰ}
use reliable_ai_agents.Json.{num, decimal, str, object, Fields, field, end}
use reliable_ai_agents.Schema.{Db, capability, Detail}
use reliable_ai_agents.Failures.{TaskFailure, infra_failure}
use reliable_ai_agents.Protocol.{TaskContext}
use reliable_ai_agents.Runtime.{Flags, get}
use reliable_ai_agents.Tasks.Tools.{
  Tool, Tools, ToolConfig, Description, find, load_config, describe, call, set_mode,
}
use reliable_ai_agents.Tasks.Tools.Mocks.{logs}
use reliable_ai_agents.Tasks.Tools.Writes.{set_mode_lem}
use reliable_ai_agents.Tasks.Tools.Failures.{Explains, call-Explains}
use reliable_ai_agents.Tasks.Library.{task_defs, root_cause_analysis}
use reliable_ai_agents.Tasks.Library.Hard.{FailsOnMerits, IsBeyond, task_defs-MeritsRule}
use reliable_ai_agents.Api.Chaos.{ToolChaos, chaos_tool}
use reliable_ai_agents.Api.Chaos.Patch.{IsPatched}
use reliable_ai_agents.Api.Chaos.Effect.{chaos_tool-IsPatched}
use reliable_ai_agents.Tests.Samples.{empty_db}

-- The log search is slow, after an operator set its failure rate.
abbrev slow_logs : Tool
slow_logs = record {
  name = "logs";
  mock = logs;
  live = none;
  latency_ms = 800;
  failure_rate = decimal 5 2;
  side_effecting = false;
}

abbrev tools : Tools
tools = slow_logs ∷ []

abbrev rows : Flags
rows =
    ("tool_overrides", object (field "logs" (object (field "failure_rate" (num 1) end)) end)) ∷ []

abbrev rows_after : Flags
rows_after =
    ("tool_overrides", object (field "logs" (object (field "mode" (str "mock") end)) end)) ∷ []

abbrev db : Db
db = record empty_db { runtime_config = rows }

set_mode_lem_example :
    ((d : Description) × (describe "logs" tools (load_config rows_after) ≡ some d)
      × (d.latency_ms ≡ num 800)
      × (d.failure_rate ≡ decimal 5 2))
    × ((other : String)
        → "logs" ≢ other
        → describe other tools (load_config rows_after) ≡ describe other tools (load_config rows))
unfolding find set_mode get
set_mode_lem_example =
    set_mode_lem tools "logs" "mock" rows rows_after
      (field "logs" (object (field "failure_rate" (num 1) end)) end) slow_logs refl refl refl

abbrev down : ToolConfig
down = record {
  overrides = object (field "logs" (object (field "failure_rate" (num 1) end)) end);
  mode = str "mock";
}

abbrev dropped : TaskFailure
dropped = infra_failure (Detail.injected "logs")

call-Explains_example : Explains tools "logs" end dropped × (dropped.failure_class ≢ capability)
unfolding call
call-Explains_example = call-Explains tools "logs" end down 12345 801 dropped refl

abbrev ctx : TaskContext
ctx = record {
  agent_id = 100;
  seq = 1;
  tier = "junior";
  prior = (0, str "found") ∷ [];
  idem_key = none;
}

task_defs-MeritsRule_example :
    FailsOnMerits ((root_cause_analysis (some "junior")).run ctx)
    ↔ IsBeyond (some "junior") ctx (root_cause_analysis (some "junior"))
unfolding task_defs
task_defs-MeritsRule_example =
    task_defs-MeritsRule tools down 12345 801 (some "junior") ctx
      (root_cause_analysis (some "junior"))
      (Memᴰ.tail (
        Memᴰ.tail (
          Memᴰ.tail (
            Memᴰ.tail (
              Memᴰ.tail (
                Memᴰ.tail
                  (Memᴰ.tail (Memᴰ.tail (Memᴰ.tail (Memᴰ.tail (Memᴰ.tail (Memᴰ.head refl))))))))))))

abbrev body : ToolChaos
body = record { name = "logs"; failure_rate = none; latency_ms = some 20; mode = some "live" }

abbrev patch : Fields
patch = field "latency_ms" (num 20) (field "mode" (str "live") end)

abbrev overrides_after : Fields
overrides_after =
    field "logs"
      (object (
        field "failure_rate" (num 1) (field "latency_ms" (num 20) (field "mode" (str "live") end))))
      end

abbrev db_after : Db
db_after = record empty_db { runtime_config = ("tool_overrides", object overrides_after) ∷ [] }

abbrev before : Description
before = record {
  name = "logs";
  mode = str "mock";
  has_live = false;
  latency_ms = num 800;
  failure_rate = num 1;
  side_effecting = false;
}

chaos_tool-IsPatched_example :
    ((d' : Description) × (describe "logs" tools (load_config db_after.runtime_config) ≡ some d')
      × IsPatched body before d')
    × ((other : String)
        → "logs" ≢ other
        → describe other tools (load_config db_after.runtime_config)
          ≡ describe other tools (load_config rows))
unfolding chaos_tool describe load_config
chaos_tool-IsPatched_example =
    chaos_tool-IsPatched tools body db db_after patch
      (field "logs" (object (field "failure_rate" (num 1) end)) end) before refl refl refl
