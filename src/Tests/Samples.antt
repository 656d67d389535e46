-- ===== src/Tests/Samples.antt =====
-- Concrete data for the runs: a ladder of two tiers, a registry of two tasks, and one agent whose
-- plan is those two, at the stages of its first task.
use reliable_ai_agents.Prelude.{ℕ, ◌+◌, Bool, true, false, none, some, List, [], ◌∷◌}
use reliable_ai_agents.Json.{Json, num, object, field, end}
use reliable_ai_agents.Schema.{Agent, AgentStatus, Tier, Task, TaskStatus, Db}
use reliable_ai_agents.Protocol.{Difficulty, TaskDef, returns}
use reliable_ai_agents.Registry.{Registry}
use reliable_ai_agents.Api.{Submission}

abbrev pub junior : Tier
junior = record { name = "junior"; rank = 0; cost_units = 1; tokens = 200; latency_ms = 50 }

abbrev pub senior : Tier
senior = record { name = "senior"; rank = 1; cost_units = 8; tokens = 900; latency_ms = 120 }

abbrev pub ladder : List Tier
ladder = junior ∷ senior ∷ []

abbrev pub empty_db : Db
empty_db = record {
  agents = [];
  tiers = ladder;
  tasks = [];
  idempotency = [];
  attempts = [];
  dlq = [];
  runtime_config = [];
  pipelines = [];
}

abbrev pub answer : Json
answer = object (field "rows" (num 3) end)

abbrev pub fetch : TaskDef
fetch = record {
  id = 7;
  name = "fetch";
  run = λ ctx. returns answer;
  difficulty = Difficulty.easy;
  side_effecting = false;
  tool = none;
}

abbrev pub transfer : TaskDef
transfer = record {
  id = 8;
  name = "transfer";
  run = λ ctx. returns answer;
  difficulty = Difficulty.easy;
  side_effecting = true;
  tool = none;
}

abbrev pub registry : Registry
registry = fetch ∷ transfer ∷ []

abbrev pub uuid : ℕ → ℕ
uuid i = i + 100

abbrev pub free : ℕ → Bool
free key = false

abbrev pub submission : Submission
submission = record { plan = 7 ∷ 8 ∷ []; count = 1 }

-- The agent and its first task at each stage.
abbrev pub agent : Agent
agent = record {
  id = 100;
  plan = 7 ∷ 8 ∷ [];
  cursor = 0;
  status = AgentStatus.running;
  context = [];
  cost_units = 0;
  tokens_used = 0;
  created_at = 1000;
  updated_at = 1000;
}

abbrev pub first_task : Task
first_task = record {
  id = 101;
  agent_id = 100;
  seq = 0;
  task_def_id = 7;
  status = TaskStatus.pending;
  tier = "junior";
  attempt = 0;
  max_attempts_per_tier = 2;
  lease_owner = none;
  lease_expires = none;
  next_run_at = 1000;
  result = none;
  last_error = none;
  failure_class = none;
  created_at = 1000;
  updated_at = 1000;
}

abbrev pub second_task : Task
second_task = record first_task { id = 102; seq = 1; task_def_id = 8 }

abbrev pub running_task : Task
running_task = record first_task {
  status = TaskStatus.running;
  lease_owner = some "w1";
  lease_expires = some 31000;
  attempt = 1;
}

abbrev pub submitted_db : Db
submitted_db = record empty_db { agents = agent ∷ []; tasks = first_task ∷ second_task ∷ [] }

abbrev pub claimed_db : Db
claimed_db = record empty_db { agents = agent ∷ []; tasks = running_task ∷ second_task ∷ [] }
