-- ===== src/Api/Admission.antt =====
-- api/main.py: admission control, what a submission does to the number of running agents.
use reliable_ai_agents.Prelude.{
  ℕ, suc, ◌++◌, Never, some, ◌+◌, ◌*◌, ◌≤◌, ◌≡◌, String, List, [], ◌∷◌, length,
}
use reliable_ai_agents.Schema.{Agent, AgentStatus, Task, TaskStatus, Tier, Db}
use reliable_ai_agents.Tiers.{base_tier}
use reliable_ai_agents.Runtime.{Flags, force_tier}
use reliable_ai_agents.Registry.{Registry}
use reliable_ai_agents.Scale.{active_agents}
use reliable_ai_agents.Api.{Submission, Response, created, submit_agents, tier_or_base}

-- One row for each position of the plan, in order: the task of the agent, position and definition,
-- which waits at `tier` and was never handed out.
abbrev pub Rows : ℕ → String → ℕ → List ℕ → List Task → Type 0
Rows agent_id tier seq [] [] = Unit
Rows agent_id tier seq (def ∷ defs) (t ∷ ts) =
    ((t.agent_id ≡ agent_id)
      × (t.seq ≡ seq)
      × (t.task_def_id ≡ def)
      × (t.tier ≡ tier)
      × (t.status ≡ TaskStatus.pending)
      × (t.attempt ≡ 0))
    × Rows agent_id tier (suc seq) defs ts
Rows agent_id tier seq _ _ = Never

-- From one database to another by new running agents with these ids, each at the first position of
-- the plan and with its rows; nothing else changes.
pub data Adds (plan : List ℕ) (tier : String) : Db → Db → List ℕ → Type 0 where
  no_more : {db : Db} → Adds plan tier db db []
  one_more :
      {db db' : Db} {ids : List ℕ} (a : Agent) (ts : List Task)
      → a.plan ≡ plan
      → a.cursor ≡ 0
      → a.status ≡ AgentStatus.running
      → Rows a.id tier 0 plan ts
      → Adds plan tier (record db { agents = db.agents ++ a ∷ []; tasks = db.tasks ++ ts }) db' ids
      → Adds plan tier db db' (a.id ∷ ids)

module _ (max_active : ℕ) (task_defs : Registry) (ladder : List Tier) (flags : Flags) (uuid : ℕ → ℕ)
    (body : Submission) (now : ℕ) (db : Db) where
  abbrev answer : Db × Response
  answer = submit_agents max_active task_defs ladder flags uuid body now db

  -- What an answer of the transaction has done, by its kind.
  abbrev pub Admitted : Db × Response → Type 0
  Admitted (db', created ids) =
      (active_agents db' ≡ active_agents db + body.count)
      × (active_agents db' ≤ max_active)
      × (length db'.tasks ≡ length db.tasks + body.count * length body.plan)
      × (length ids ≡ body.count)
      × ((tier : String) × (tier_or_base (force_tier flags) (base_tier ladder) ≡ some tier)
          × Adds body.plan tier db db' ids)
  Admitted (db', other) = db' ≡ db
