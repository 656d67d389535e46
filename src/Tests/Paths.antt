-- ===== src/Tests/Paths.antt =====
-- One task that waits, under workers that die.
use reliable_ai_agents.Prelude.{◌≡◌, [], ◌∷◌, refl}
use reliable_ai_agents.Schema.{Task}
use reliable_ai_agents.Worker.Claim.{at_cursor}
use reliable_ai_agents.System.Steps.{Sys, Reach}
use reliable_ai_agents.System.Lapses.{Waits, lapses-Reach}
use reliable_ai_agents.Tests.Samples.{empty_db, agent, first_task}

abbrev waiting : Sys
waiting = record {
  db = record empty_db { agents = agent ∷ []; tasks = first_task ∷ [] };
  held = [];
}

waiting-Waits : Waits agent first_task waiting.db
unfolding at_cursor
waiting-Waits = (refl, refl, refl, refl)

lapses-Reach_example :
    (s' : Sys) × (t' : Task) × Reach waiting s'
    × Waits agent t' s'.db
    × (t'.attempt ≡ 40)
    × (s'.db.dlq ≡ [])
lapses-Reach_example = lapses-Reach agent first_task waiting 40 waiting-Waits
