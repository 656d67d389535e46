-- ===== src/Tests/Sweeps.antt =====
-- A reaped lease, a repaired agent, a submission, the ladder, and the autoscaler.
use reliable_ai_agents.Prelude.{
  ℕ, ◌+◌, ◌*◌, ◌≤◌, ◌<◌, ◌≡◌, ◌≢◌, ◌⊎◌, refl, str_eq, true, false, some, List, [], Memᴰ, arith,
  length, exists_where, count_where, All,
}
use reliable_ai_agents.Schema.{Task, Db}
use reliable_ai_agents.Tiers.{base_tier, next_tier, load}
use reliable_ai_agents.Tests.Samples.{
  junior, senior, ladder, empty_db, uuid, free, submitted_db, claimed_db,
}
use reliable_ai_agents.Prelude.{eq_iff}
use reliable_ai_agents.Tiers.Climb.{Climbs, Keyed, next_tier-Climbs}
use reliable_ai_agents.Orchestrator.Reaper.{has_expired, reap, orphaned_leases}
use reliable_ai_agents.Orchestrator.Reaper.Complete.{WaitsAgain, Evidenced, reap_complete}
use reliable_ai_agents.Orchestrator.Queue.{repair_stalled, stalled_agents}
use reliable_ai_agents.Orchestrator.Queue.Repair.{IsNew, repair_stalled_complete}
use reliable_ai_agents.Scale.{defaults, desired_replicas}
use reliable_ai_agents.Scale.Bounds.{desired_replicas_serve}

one_orphan : orphaned_leases 40000 claimed_db ≤ 200
unfolding orphaned_leases count_where
one_orphan = omega arith

reap_complete_example :
    (orphaned_leases 40000 (reap free 200 (λ id. 250) 40000 claimed_db).0 ≡ 0)
    × (length (reap free 200 (λ id. 250) 40000 claimed_db).1 ≡ orphaned_leases 40000 claimed_db)
    × All
        (λ t.
          has_expired 40000 t ≡ true → WaitsAgain (reap free 200 (λ id. 250) 40000 claimed_db).0 t)
        claimed_db.tasks
    × Evidenced 200 (λ id. 250) 40000 claimed_db (reap free 200 (λ id. 250) 40000 claimed_db).0
reap_complete_example = reap_complete 200 (λ id. 250) 40000 claimed_db one_orphan

abbrev stalled_db : Db
stalled_db = record submitted_db { tasks = [] }

one_stalled : stalled_agents stalled_db ≤ 200
unfolding stalled_agents count_where exists_where
one_stalled = omega arith

junior_base : base_tier ladder ≡ some "junior"
unfolding base_tier
junior_base = refl

repair_stalled_complete_example :
    (db' : Db) × (rows : List Task) × (repair_stalled free 200 uuid ladder 2000 stalled_db
      ≡ some (db', rows))
    × (stalled_agents db' ≡ 0)
    × All (IsNew "junior") rows
repair_stalled_complete_example =
    repair_stalled_complete 200 uuid 2000 stalled_db ladder "junior" one_stalled junior_base

ladder-Keyed : Keyed ladder
ladder-Keyed = (((str_neq, λ e. omega (arith, e)), tt), (tt, tt))
  where
    str_neq : junior.name ≢ senior.name
    str_neq e =
        let same : str_eq "junior" "senior" ≡ true = (eq_iff junior.name senior.name).1 e in
        let other : str_eq "junior" "senior" ≡ false = refl in ground (arith, same, other)

next_tier-Climbs_example : Climbs ladder junior (next_tier "junior" (load empty_db))
next_tier-Climbs_example = next_tier-Climbs empty_db junior ladder-Keyed (Memᴰ.head refl)

below_limit : desired_replicas defaults 25 120 < defaults.max_replicas
unfolding desired_replicas
below_limit = omega arith

desired_replicas_serve_example :
    (25 ≤ 10 * desired_replicas defaults 25 120)
    × ((◌≡◌ {A = ℕ} 120 0) ⊎ (120 + 50 ≤ 50 * desired_replicas defaults 25 120))
desired_replicas_serve_example = desired_replicas_serve defaults 25 120 (omega arith) below_limit
