-- ===== src/Tests/Plans.antt =====
-- Plans that were typed and named, for the library's tasks and for two of them.
use reliable_ai_agents.Prelude.{◌≡◌, refl, some, none, [], ◌∷◌, select}
use reliable_ai_agents.Schema.{Db}
use reliable_ai_agents.Registry.{contains}
use reliable_ai_agents.Tasks.Library.{Call, task_defs}
use reliable_ai_agents.Tasks.Tools.{no_overrides, call}
use reliable_ai_agents.Api.{unknown_ids}
use reliable_ai_agents.Prelude.{pos}
use reliable_ai_agents.Harness.{resolved, unknown_of, plan_of, create_pipeline, resolve_plan}
use reliable_ai_agents.Harness.Plans.{Edited, starts, creates, resolve_plan-known}
use reliable_ai_agents.Harness.Named.{create-resolve}
use reliable_ai_agents.Tests.Samples.{empty_db, registry}

abbrev mocked : Call
mocked = call [] no_overrides 7 1

abbrev edited_db : Db
edited_db =
    (create_pipeline (task_defs (some "junior") mocked) "mine" (pos 1 ∷ pos 21 ∷ []) "" empty_db).0

edited : Edited (task_defs (some "junior") mocked) edited_db
edited = creates "mine" (pos 1 ∷ pos 21 ∷ []) "" (starts empty_db refl)

typed_eq :
    (resolve_plan (task_defs (some "junior") mocked) none (some "1, +2_1,,") edited_db).1
    ≡ resolved (1 ∷ 21 ∷ []) "(inline)"
unfolding resolve_plan task_defs contains select
typed_eq = refl

resolve_plan-known_example : unknown_ids (task_defs (some "junior") mocked) (1 ∷ 21 ∷ []) ≡ []
resolve_plan-known_example =
    resolve_plan-known (some "junior") mocked edited_db none (some "1, +2_1,,") (1 ∷ 21 ∷ [])
      "(inline)" edited typed_eq

create-resolve_example :
    (resolve_plan registry
      (some "smoke")
      none
      (create_pipeline registry "smoke" (pos 8 ∷ pos 7 ∷ []) "mine" empty_db).0).1
    ≡ resolved (8 ∷ 7 ∷ []) "smoke"
unfolding unknown_of contains select plan_of
create-resolve_example =
    create-resolve registry "smoke" "mine" (pos 8 ∷ pos 7 ∷ []) empty_db refl refl
