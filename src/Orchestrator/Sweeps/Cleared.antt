-- ===== src/Orchestrator/Sweeps/Cleared.antt =====
-- orchestrator/main.py: what a pass leaves of the expired leases, whatever its other sweeps do.
use reliable_ai_agents.Prelude.{
  ℕ, ◌≤◌, ◌≡◌, refl, subst, inl, inr, Bool, true, false, some, List, [], ◌∷◌, arith, All,
  Bool-cases, Option-cases, length, some-injective,
}
use reliable_ai_agents.Schema.{Db}
use reliable_ai_agents.Orchestrator.Reaper.{orphaned_leases}
use reliable_ai_agents.Orchestrator.Reaper.Complete.{reap_complete}
use reliable_ai_agents.Orchestrator.Queue.{repair_stalled, finalise_agents}
use reliable_ai_agents.Orchestrator.Classify.{classify}
use reliable_ai_agents.Orchestrator.Ledger.{reconcile}
use reliable_ai_agents.Orchestrator.Sweeps.{
  Sweep, reclaimed, repaired, finalised, routed, stranded, unresolved, TickCounts, no_counts,
  Surroundings, run_sweep, attempt, pass, tick,
}
use reliable_ai_agents.Orchestrator.Sweeps.Unexpired.{
  Clear, repair_stalled-Clear, route_all-Clear, orphaned-Clear, Clear-orphaned,
}

-- No lease has expired, and the sweep of the reaper has been counted.
abbrev Kept : ℕ → ℕ → Db × TickCounts → Type 0
Kept now n r = Clear now r.0 × (r.1.reclaimed ≡ n)

abbrev is_reclaim : Sweep → Bool
is_reclaim reclaimed = true
is_reclaim _ = false

module _ (env : Surroundings) (n : ℕ) where
  run_sweep-Kept :
      (s : Sweep) (db : Db) (counts : TickCounts) (r : Db × TickCounts)
      → is_reclaim s ≡ false
      → Kept env.now n (db, counts)
      → run_sweep env s db counts ≡ some r
      → Kept env.now n r
  unfolding run_sweep
  run_sweep-Kept reclaimed db counts r other h e = cc
  run_sweep-Kept repaired db counts r other h e =
      elim (Option-cases (repair_stalled env.locked env.batch env.uuid env.ladder env.now db)) [
        | inl refused ↦ absurd (ground (arith, e, refused))
        | inr (q, out) ↦
            let same : (q.0, record counts { repaired = length q.1 }) ≡ r =
              ground (arith, e, out) in
            subst (Kept env.now n) same (
              repair_stalled-Clear env.now env.locked env.batch env.uuid env.ladder env.now db q h.0
                  out,
              h.1,
            )
      ]
  run_sweep-Kept finalised db counts r other h e =
      subst (Kept env.now n) (some-injective _ _ e) (unfold finalise_agents in h)
  run_sweep-Kept routed db counts r other h e =
      elim (Option-cases (classify env.locked env.limit env.ladder env.flags env.now db)) [
        | inl refused ↦ absurd (ground (arith, e, refused))
        | inr (q, out) ↦
            let same : (
              q.0,
              record counts { retry = q.1.retries; promote = q.1.promotions; dlq = q.1.dead },
            )
                ≡ r =
              ground (arith, e, out) in
            subst (Kept env.now n) same (
              unfold classify in
                  route_all-Clear env.now env.ladder env.flags env.now _ _ db q h.0 out,
              h.1,
            )
      ]
  run_sweep-Kept stranded db counts r other h e = subst (Kept env.now n) (some-injective _ _ e) h
  run_sweep-Kept unresolved db counts r other h e =
      subst (Kept env.now n) (some-injective _ _ e) (unfold reconcile in h)

  attempt-Kept :
      (s : Sweep) (before : Db × TickCounts)
      → is_reclaim s ≡ false
      → Kept env.now n before
      → Kept env.now n (attempt env s before)
  unfolding attempt
  attempt-Kept s before other h = elim (Bool-cases (env.down s)) [
    | inl down ↦ rw down h
    | inr up ↦ rw up (elim (Option-cases (run_sweep env s before.0 before.1)) [
      | inl raised ↦ rw raised h
      | inr (r, out) ↦ rw out (run_sweep-Kept s before.0 before.1 r other h out)
    ])
  ]

  module _
      (others : (s : Sweep) (d : Db) → Clear env.now d → Clear env.now (env.meanwhile s d)) where
    pass-Kept :
        (ss : List Sweep) (db : Db) (counts : TickCounts)
        → All (λ s. is_reclaim s ≡ false) ss
        → Kept env.now n (db, counts)
        → Kept env.now n (pass env ss (db, counts))
    unfolding pass
    pass-Kept [] db counts rest h = h
    pass-Kept (s ∷ ss) db counts rest h =
        let r = attempt env s (env.meanwhile s db, counts) in
        pass-Kept ss r.0 r.1 rest.1
          (attempt-Kept s (env.meanwhile s db, counts) rest.0 (others s db h.0, h.1))

module _ (env : Surroundings) (db : Db) (alone : env.locked ≡ (λ id. false))
    (up : env.down reclaimed ≡ false) where
  abbrev before : Db
  before = env.meanwhile reclaimed db

  reaps_first :
      orphaned_leases env.now before ≤ env.batch
      → Kept env.now (orphaned_leases env.now before) (attempt env reclaimed (before, no_counts))
  unfolding attempt run_sweep
  reaps_first room =
      rw (alone, up)
        (let swept = reap_complete env.batch env.jitter env.now before room in
          (orphaned-Clear env.now _ swept.0, swept.1))

  -- A pass whose reaper gets through to the database, is not in the way of another transaction and
  -- has a batch of at least the backlog leaves no expired lease and counts the backlog as reclaimed,
  -- whichever of the other sweeps raise or lose their connection, if what other processes write
  -- before each of them leaves none expired where there was none.
  pub tick-clears_leases :
      orphaned_leases env.now before ≤ env.batch
      → ((s : Sweep) (d : Db)
          → orphaned_leases env.now d ≡ 0
          → orphaned_leases env.now (env.meanwhile s d) ≡ 0)
      → (orphaned_leases env.now (tick env db).0 ≡ 0)
        × ((tick env db).1.reclaimed ≡ orphaned_leases env.now before)
  unfolding tick pass
  tick-clears_leases room others =
      let n = orphaned_leases env.now before in
      let first = attempt env reclaimed (before, no_counts) in
      let keeps : (s : Sweep) (d : Db) → Clear env.now d → Clear env.now (env.meanwhile s d) =
        λ s d h.
          orphaned-Clear env.now (env.meanwhile s d) (others s d (Clear-orphaned env.now d h)) in
      let (clear, count) =
        pass-Kept env n keeps (repaired ∷ finalised ∷ routed ∷ stranded ∷ unresolved ∷ []) first.0
          first.1 (refl, (refl, (refl, (refl, (refl, tt))))) (reaps_first room) in
      (Clear-orphaned env.now _ clear, count)
