-- ===== src/Api.antt =====
-- api/main.py: submission and the chaos controls; chaos/harness.py: `seed`. `uuid` gives the ids
-- that the database draws, in the order of the INSERT statements.
pub mod Admission
pub mod Chaos
pub mod Views
use reliable_ai_agents.Prelude.{
  ℕ, zero, suc, ◌+◌, ◌-◌, String, str_eq, Bool, true, false, not, ◌&&◌, ◌||◌, Option, none, some,
  List, [], ◌∷◌, ◌++◌, if◌then◌else◌, ltb, leb, ◌==◌, length, select, exists_where, count_where,
}
use reliable_ai_agents.Json.{Json, null, bool, str}
use reliable_ai_agents.Schema.{Agent, AgentStatus, Tier, Task, Db, is_live}
use reliable_ai_agents.Tiers.{base_tier}
use reliable_ai_agents.Runtime.{Flags, force_tier, set_config}
use reliable_ai_agents.Registry.{Registry, contains}
use reliable_ai_agents.Orchestrator.Queue.{new_task}
use reliable_ai_agents.Scale.{active_agents}

pub record Submission : Type 0 where
  pub plan : List ℕ
  pub count : ℕ

-- The answers of `POST /agents`. `server_error` is the IndexError of an empty ladder.
pub data Response : Type 0 where
  created : List ℕ → Response
  invalid_count : Response
  unknown_tasks : List ℕ → Response
  empty_plan : Response
  at_capacity : ℕ → ℕ → ℕ → Response
  server_error : Response

unfoldable pub new_agent : ℕ → List ℕ → ℕ → Agent
new_agent id plan now = record {
  id = id;
  plan = plan;
  cursor = 0;
  status = AgentStatus.running;
  context = [];
  cost_units = 0;
  tokens_used = 0;
  created_at = now;
  updated_at = now;
}

-- for seq, task_def_id in enumerate(plan)
unfoldable pub plan_rows : (ℕ → ℕ) → ℕ → ℕ → String → ℕ → ℕ → List ℕ → List Task
unfolding new_task
plan_rows uuid i agent_id tier now seq [] = []
plan_rows uuid i agent_id tier now seq (def ∷ rest) =
    new_task (uuid i) agent_id seq def tier now
    ∷ plan_rows uuid (suc i) agent_id tier now (suc seq) rest

-- The body of one round of the loop, whose first id is number `i`.
unfoldable pub insert_agent : (ℕ → ℕ) → ℕ → List ℕ → String → ℕ → Db → Db
unfolding new_agent plan_rows
insert_agent uuid i plan tier now db = record db {
  agents = db.agents ++ new_agent (uuid i) plan now ∷ [];
  tasks = db.tasks ++ plan_rows uuid (suc i) (uuid i) tier now 0 plan;
}

unfoldable pub insert_agents : (ℕ → ℕ) → ℕ → ℕ → List ℕ → String → ℕ → Db → List ℕ → Db × List ℕ
unfolding insert_agent
insert_agents uuid i zero plan tier now db ids = (db, ids)
insert_agents uuid i (suc n) plan tier now db ids =
    insert_agents uuid (suc i + length plan) n plan tier now (insert_agent uuid i plan tier now db)
      (ids ++ uuid i ∷ [])

-- force_tier() or base_tier()
abbrev pub tier_or_base : Option String → Option String → Option String
tier_or_base (some forced) base = some forced
tier_or_base none base = base

-- The transaction: the admission check and the inserts.
unfoldable pub admit : ℕ → (ℕ → ℕ) → Submission → String → ℕ → Db → Db × Response
unfolding insert_agents
admit max_active uuid body tier now db =
    let active = active_agents db in
    if ltb max_active (active + body.count)
    then (db, at_capacity active body.count (max_active - active))
    else (let r = insert_agents uuid 0 body.count body.plan tier now db [] in (r.0, created r.1))

unfoldable pub unknown_ids : Registry → List ℕ → List ℕ
unfolding contains
unknown_ids task_defs plan = select (λ tid. not (contains tid task_defs)) plan

abbrev pub is_nil : List ℕ → Bool
is_nil [] = true
is_nil (x ∷ xs) = false

-- The first test is that of the request model: 1 ≤ count ≤ 1000. The source sorts the unknown ids
-- and drops repetitions for its message.
unfoldable pub submit_agents :
    ℕ → Registry → List Tier → Flags → (ℕ → ℕ) → Submission → ℕ → Db → Db × Response
unfolding admit unknown_ids
submit_agents max_active task_defs ladder flags uuid body now db =
    if not (leb 1 body.count && leb body.count 1000)
    then (db, invalid_count)
    else (if not (is_nil (unknown_ids task_defs body.plan))
        then (db, unknown_tasks (unknown_ids task_defs body.plan))
        else (if is_nil body.plan
            then (db, empty_plan)
            else elim (tier_or_base (force_tier flags) (base_tier ladder)) [
              | none ↦ (db, server_error)
              | some tier ↦ admit max_active uuid body tier now db
            ]))

-- chaos/harness.py: `seed` leaves the tier to the column's default.
unfoldable pub seed : (ℕ → ℕ) → ℕ → List ℕ → ℕ → Db → Db × List ℕ
unfolding insert_agents
seed uuid n plan now db = insert_agents uuid 0 n plan "junior" now db []

-- The body of `POST /chaos/config`: a field that was not sent is `none`.
pub record ConfigChaos : Type 0 where
  pub retries_enabled : Option Json
  pub escalation_enabled : Option Json
  pub force_tier : Option Json

pub data ConfigResponse : Type 0 where
  updated : ConfigResponse
  no_fields : ConfigResponse
  unknown_tier : String → ConfigResponse

abbrev pub write : String → Option Json → Flags → Flags
write key none fs = fs
write key (some value) fs = set_config key value fs

abbrev pub is_sent : Option Json → Bool
is_sent none = false
is_sent (some value) = true

-- The text that `force_tier` must find in the tiers table.
abbrev pub bad_tier : List Tier → Option Json → Option String
bad_tier ladder (some (str name)) =
    if exists_where (λ t. str_eq t.name name) ladder then none else some name
bad_tier ladder _ = none

unfoldable pub chaos_config : List Tier → ConfigChaos → Db → Db × ConfigResponse
unfolding set_config
chaos_config ladder body db =
    if not
      (is_sent body.retries_enabled || (is_sent body.escalation_enabled || is_sent body.force_tier))
    then (db, no_fields)
    else elim (bad_tier ladder body.force_tier) [
      | some name ↦ (db, unknown_tier name)
      | none ↦ (
        record db {
          runtime_config = write "force_tier" body.force_tier (
              write "escalation_enabled" body.escalation_enabled
                (write "retries_enabled" body.retries_enabled db.runtime_config));
        },
        updated,
      )
    ]
