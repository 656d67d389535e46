-- ===== src/Api/Views.antt =====
-- api/main.py: the endpoints that only read.
use reliable_ai_agents.Prelude.{
  ℕ, ◌-◌, Option, none, some, List, [], ◌∷◌, ◌++◌, ◌==◌, head?, take, select, order_by,
}
use reliable_ai_agents.Schema.{Agent, Task, DeadLetter, Tier, Db}
use reliable_ai_agents.Metrics.{Snapshot, snapshot}
use reliable_ai_agents.Scale.{active_agents}

-- `GET /health`
pub record Health : Type 0 where
  pub active : ℕ
  pub max_active : ℕ
  pub capacity_remaining : ℕ

unfoldable pub health : ℕ → Db → Health
unfolding active_agents
health max_active db = record {
  active = active_agents db;
  max_active = max_active;
  capacity_remaining = max_active - active_agents db;
}

-- `GET /agents/{agent_id}`; `none` is the 404.
unfoldable pub get_agent : ℕ → Db → Option (Agent × List Task)
get_agent agent_id db = elim (head? (select (λ a. a.id == agent_id) db.agents)) [
  | none ↦ none
  | some a ↦ some (a, order_by (λ t. t.seq) (select (λ t. t.agent_id == agent_id) db.tasks))
]

unfoldable pub newest_first : List DeadLetter → List DeadLetter
newest_first [] = []
newest_first (l ∷ ls) = newest_first ls ++ l ∷ []

-- `GET /dlq`: ORDER BY created_at DESC, where rows of one time may come in any order.
unfoldable pub dead_letter_queue : ℕ → Db → List DeadLetter
unfolding newest_first
dead_letter_queue limit db = take limit (newest_first (order_by (λ l. l.created_at) db.dlq))

-- `GET /metrics`
unfoldable pub metrics : ℕ → List Tier → ℕ → Db → Option Snapshot
unfolding snapshot
metrics ttl ladder now db = snapshot ttl ladder now db
