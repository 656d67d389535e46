-- ===== src/Tests/Passes.antt =====
-- A claim of the longest waiting task, and a pass that reclaims a lease.
use reliable_ai_agents.Prelude.{ℕ, ◌+◌, ◌≤◌, ◌≡◌, refl, Bool, true, false, [], arith, count_where}
use reliable_ai_agents.Worker.Claim.{claim_one}
use reliable_ai_agents.Schema.{Db}
use reliable_ai_agents.Orchestrator.Queue.{finalise_agents}
use reliable_ai_agents.Orchestrator.Reaper.{orphaned_leases}
use reliable_ai_agents.Orchestrator.Sweeps.{Sweep, reclaimed, repaired, Surroundings, tick}
use reliable_ai_agents.Orchestrator.Sweeps.Cleared.{tick-clears_leases}
use reliable_ai_agents.Tests.Samples.{ladder, free, submitted_db, claimed_db}
use reliable_ai_agents.Worker.Claim.Oldest.{Granted, claim_one-Granted}

claim_one-Granted_example :
    Granted free 1000 "junior" submitted_db "w1" 30
      (claim_one free 1000 "junior" "w1" 30 submitted_db)
claim_one-Granted_example = claim_one-Granted free 1000 "junior" submitted_db "w1" 30

-- The repair has lost the database, and before each sweep another orchestrator finalises agents.
abbrev loses_repair : Sweep → Bool
loses_repair repaired = true
loses_repair _ = false

abbrev uuid_later : ℕ → ℕ
uuid_later i = i + 200

abbrev surroundings : Surroundings
surroundings = record {
  lease_ttl = 30;
  batch = 100;
  limit = 50;
  locked = free;
  jitter = λ id. 250;
  uuid = uuid_later;
  ladder = ladder;
  flags = [];
  now = 40000;
  down = loses_repair;
  meanwhile = λ s db. (finalise_agents free 10 39000 db).0;
}

one_orphan : orphaned_leases 40000 (surroundings.meanwhile reclaimed claimed_db) ≤ 100
unfolding orphaned_leases count_where finalise_agents
one_orphan = omega arith

others_calm :
    (s : Sweep) (d : Db)
    → orphaned_leases 40000 d ≡ 0
    → orphaned_leases 40000 (surroundings.meanwhile s d) ≡ 0
unfolding orphaned_leases finalise_agents
others_calm s d h = h

tick-clears_leases_example :
    (orphaned_leases 40000 (tick surroundings claimed_db).0 ≡ 0)
    × ((tick surroundings claimed_db).1.reclaimed
        ≡ orphaned_leases 40000 (surroundings.meanwhile reclaimed claimed_db))
tick-clears_leases_example =
    tick-clears_leases surroundings claimed_db refl refl one_orphan others_calm
