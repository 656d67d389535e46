-- ===== src/Orchestrator/Queue.antt =====
-- orchestrator/queue.py: the sweeps that repair and complete agents, and their counts. `locked` says
-- which agent rows other open transactions hold; `uuid` gives the ids that the database draws.
pub mod Repair
pub mod Gauge
use reliable_ai_agents.Prelude.{
  ℕ, zero, suc, ◌+◌, ◌-◌, String, Bool, true, not, ◌&&◌, Option, none, some, List, [], ◌∷◌, ◌++◌,
  map, if◌then◌else◌, leb, ltb, ◌==◌, length, get_or, take, select, exists_where, count_where,
  update_where, order_by,
}
use reliable_ai_agents.Schema.{
  Agent, AgentStatus, Task, TaskStatus, Db, is_live, is_pending, is_running, is_succeeded, Tier,
}
use reliable_ai_agents.Tiers.{base_tier}

unfoldable pub holds : Agent → Task → Bool
holds a t = t.agent_id == a.id && t.seq == a.cursor

unfoldable pub is_stalled : List Task → Agent → Bool
unfolding holds
is_stalled tasks a =
    is_live a.status && (ltb a.cursor (length a.plan) && not (exists_where (holds a) tasks))

-- A row as INSERT makes it, with the defaults of the other columns.
unfoldable pub new_task : ℕ → ℕ → ℕ → ℕ → String → ℕ → Task
new_task id agent_id seq task_def_id tier now = record {
  id = id;
  agent_id = agent_id;
  seq = seq;
  task_def_id = task_def_id;
  status = TaskStatus.pending;
  tier = tier;
  attempt = 0;
  max_attempts_per_tier = 2;
  lease_owner = none;
  lease_expires = none;
  next_run_at = now;
  result = none;
  last_error = none;
  failure_class = none;
  created_at = now;
  updated_at = now;
}

unfoldable pub conflicts : Task → Task → Bool
conflicts row t = t.agent_id == row.agent_id && t.seq == row.seq

-- The INSERT of REPAIR_SQL, a row for each stalled agent: plan[cursor + 1] of a 1-indexed array,
-- which `is_stalled` keeps in range, and ON CONFLICT (agent_id, seq) DO NOTHING. Returns the table
-- and the rows inserted.
unfoldable pub insert_missing :
    (ℕ → ℕ) → ℕ → String → ℕ → List Agent → List Task → List Task × List Task
unfolding new_task conflicts
insert_missing uuid i tier now [] tasks = (tasks, [])
insert_missing uuid i tier now (a ∷ rest) tasks =
    let row = new_task (uuid i) a.id a.cursor (get_or a.plan a.cursor 0) tier now in
    let skip = insert_missing uuid (suc i) tier now rest tasks in
    let add = insert_missing uuid (suc i) tier now rest (tasks ++ row ∷ []) in
    if exists_where (conflicts row) tasks then skip else (add.0, row ∷ add.1)

-- The CTE `stalled`.
unfoldable pub stalled : (ℕ → Bool) → ℕ → Db → List Agent
unfolding is_stalled
stalled locked batch db = take batch (
    order_by (λ a. a.created_at)
      (select (λ a. is_stalled db.tasks a && not (locked a.id)) db.agents))

-- `none` is the IndexError of `base_tier` on an empty ladder.
unfoldable pub repair_stalled :
    (ℕ → Bool) → ℕ → (ℕ → ℕ) → List Tier → ℕ → Db → Option (Db × List Task)
unfolding stalled insert_missing base_tier
repair_stalled locked batch uuid ladder now db = elim (base_tier ladder) [
  | none ↦ none
  | some tier ↦
      let filled = insert_missing uuid 0 tier now (stalled locked batch db) db.tasks in
      some (record db { tasks = filled.0 }, filled.1)
]

unfoldable pub is_unfinished : Agent → Task → Bool
is_unfinished a t = t.agent_id == a.id && not (is_succeeded t.status)

unfoldable pub is_exhausted : List Task → Agent → Bool
unfolding is_unfinished
is_exhausted tasks a =
    is_live a.status && (leb (length a.plan) a.cursor && not (exists_where (is_unfinished a) tasks))

-- The CTE `exhausted`.
unfoldable pub exhausted : (ℕ → Bool) → ℕ → Db → List Agent
unfolding is_exhausted
exhausted locked batch db = take batch (
    order_by (λ a. a.updated_at)
      (select (λ a. is_exhausted db.tasks a && not (locked a.id)) db.agents))

abbrev pub complete : ℕ → Agent → Agent
complete now a = record a { status = AgentStatus.completed; updated_at = now }

unfoldable pub is_chosen : List Agent → Agent → Bool
is_chosen rows a = exists_where (λ e. a.id == e.id) rows

unfoldable pub finalise_agents : (ℕ → Bool) → ℕ → ℕ → Db → Db × List ℕ
unfolding exhausted is_chosen
finalise_agents locked batch now db =
    let rows = exhausted locked batch db in
    (
      record db { agents = update_where (is_chosen rows) (complete now) db.agents },
      map (λ a. a.id) rows,
    )

-- STALLED_COUNT_SQL
unfoldable pub stalled_agents : Db → ℕ
unfolding is_stalled
stalled_agents db = count_where (is_stalled db.tasks) db.agents

pub record Depth : Type 0 where
  pub claimable : ℕ
  pub scheduled : ℕ
  pub waiting : ℕ
  pub running : ℕ
  pub oldest_claimable_ms : ℕ

-- The joined agents row, running, and whether its cursor is at the task.
unfoldable pub joins : Db → (Agent → Bool) → Task → Bool
joins db test t = exists_where (λ a. a.id == t.agent_id && (is_live a.status && test a)) db.agents

abbrev pub oldest : ℕ → List Task → ℕ
oldest now [] = 0
oldest now (t ∷ ts) = now - t.next_run_at

-- DEPTH_SQL
unfoldable pub depth : ℕ → Db → Depth
unfolding joins
depth now db =
    let here = λ (t : Task). joins db (λ a. t.seq == a.cursor) t in
    let ready = λ (t : Task). is_pending t.status && (leb t.next_run_at now && here t) in
    record {
      claimable = count_where ready db.tasks;
      scheduled =
          count_where (λ t. is_pending t.status && (ltb now t.next_run_at && here t)) db.tasks;
      waiting =
          count_where (λ t. is_pending t.status && joins db (λ a. not (t.seq == a.cursor)) t)
            db.tasks;
      running = count_where (λ t. is_running t.status && joins db (λ a. true) t) db.tasks;
      oldest_claimable_ms = oldest now (order_by (λ t. t.next_run_at) (select ready db.tasks));
    }
