-- ===== src/Tests/Turn.antt =====
-- A submitted agent: the gauge before its first task is due, and a worker's turn that nothing disturbs.
use reliable_ai_agents.Prelude.{
  ℕ, ◌+◌, ◌*◌, ◌≡◌, ◌↔◌, false, refl, String, some, none, [], select, order_by, exists_where,
}
use reliable_ai_agents.Json.{Fields, num, field, end}
use reliable_ai_agents.Tiers.{cost_of}
use reliable_ai_agents.Protocol.{TaskContext}
use reliable_ai_agents.Registry.{get}
use reliable_ai_agents.Worker.Claim.{next_claim, claim_one}
use reliable_ai_agents.Orchestrator.Queue.{depth}
use reliable_ai_agents.Orchestrator.Queue.Gauge.{depth-claim_one}
use reliable_ai_agents.Worker.Process.{Setting, worked, process_one}
use reliable_ai_agents.System.Progress.{Done, process_one-Done}
use reliable_ai_agents.Tests.Samples.{ladder, registry, free, fetch, first_task, submitted_db}

abbrev alone : Setting
alone = record {
  pool_tier = "junior";
  worker_id = "w1";
  ttl = 30;
  registry = registry;
  ladder = ladder;
  locked = free;
  claimed_at = 1500;
  started = 1510;
  finished_at = 1900;
  rounds = [];
  meanwhile = λ i db. db;
}

abbrev digest : ℕ × ℕ × String → ℕ
digest (agent_id, seq, action_type) = agent_id * 1000 + seq

abbrev label : ℕ → String
label id = "task"

abbrev rows : Fields
rows = field "rows" (num 3) end

claimed : next_claim free submitted_db 1500 "junior" ≡ some first_task
unfolding next_claim select order_by exists_where
claimed = refl

process_one-Done_example :
    ((ctx : TaskContext) × (ctx.tier ≡ "junior")
      × Done first_task rows (process_one digest label alone submitted_db).0)
    × ((process_one digest label alone submitted_db).1 ≡ worked)
unfolding get cost_of
process_one-Done_example =
    process_one-Done alone submitted_db first_task claimed digest label fetch (λ ctx. rows) 1 200
      refl refl (λ ctx tier. refl) refl (λ i db. refl) refl

depth-claim_one_example :
    ((depth 500 submitted_db).claimable ≡ 0)
    ↔ ((tier : String) → (claim_one (λ id. false) 500 tier "w1" 30 submitted_db).1 ≡ none)
depth-claim_one_example = depth-claim_one 500 submitted_db "w1" 30
