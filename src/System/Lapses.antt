-- ===== src/System/Lapses.antt =====
-- worker/claim.py with orchestrator/reaper.py: a task whose every worker dies.
use reliable_ai_agents.Prelude.{
  ℕ, zero, suc, ◌+◌, ◌≡◌, refl, ap, ◌∙◌, true, false, Option, some, [], ◌∷◌, arith, ltb, ==-refl,
  select, exists_where, update_where, order_by, eq_refl,
}
use reliable_ai_agents.Schema.{Agent, Task, TaskStatus, Db}
use reliable_ai_agents.Worker.Claim.{at_cursor, claimable, next_claim, claim_one, lease}
use reliable_ai_agents.Orchestrator.Reaper.{expired, has_expired, is_among, reap, reclaim}
use reliable_ai_agents.System.Steps.{Sys, claims, reaps, Reach, here, next}
use reliable_ai_agents.System.Moves.{with_claim}

-- The database holds one agent, and one task at its cursor that waits to be claimed.
abbrev pub Waits : Agent → Task → Db → Type 0
Waits a t db =
    (db.agents ≡ a ∷ [])
    × (db.tasks ≡ t ∷ [])
    × (at_cursor t a ≡ true)
    × (t.status ≡ TaskStatus.pending)

-- The same task after a claim and the expiry of its lease.
abbrev pub reclaimed : Task → Task
reclaimed t = reclaim (λ id. 0) (t.next_run_at + 30001) (lease "w" 30 t.next_run_at t)

module _ (a : Agent) (t : Task) where
  abbrev claimed : Task
  claimed = lease "w" 30 t.next_run_at t

  Waits-claimable : (db : Db) → Waits a t db → claimable db t.next_run_at t.tier t ≡ true
  unfolding claimable exists_where
  Waits-claimable db (agents, tasks, joined, pending) =
      rw agents (rw pending (ground (arith, joined, eq_refl t.tier)))

  Waits-next_claim :
      (db : Db) → Waits a t db → next_claim (λ id. false) db t.next_run_at t.tier ≡ some t
  unfolding next_claim select order_by
  Waits-next_claim db waits =
      let (agents, tasks, joined, pending) = waits in
      let fits = Waits-claimable db waits in rw (tasks, fits) refl

  Waits-claim_one :
      (db : Db)
      → Waits a t db
      → claim_one (λ id. false) t.next_run_at t.tier "w" 30 db
        ≡ (record db { tasks = claimed ∷ [] }, some claimed)
  unfolding claim_one update_where
  Waits-claim_one db waits =
      let (agents, tasks, joined, pending) = waits in
      rw (Waits-next_claim db waits) (rw (tasks, ==-refl t.id) refl)

  claimed-expired :
      (db : Db)
      → db.tasks ≡ claimed ∷ []
      → expired (λ id. false) 1 (t.next_run_at + 30001) db ≡ claimed ∷ []
  unfolding expired has_expired select order_by
  claimed-expired db tasks =
      let late : ltb (t.next_run_at + 30000) (t.next_run_at + 30001) ≡ true = ground arith in
      rw tasks (rw late refl)

  claimed-reap :
      (db : Db)
      → db.tasks ≡ claimed ∷ []
      → (reap (λ id. false) 1 (λ id. 0) (t.next_run_at + 30001) db).0.tasks ≡ reclaimed t ∷ []
  unfolding reap is_among update_where exists_where
  claimed-reap db tasks = rw (claimed-expired db tasks) (rw (tasks, ==-refl t.id) refl)

-- One round: a worker takes the task and dies, and the reaper takes it back.
abbrev pub lapse : Task → Sys → Sys
lapse t s =
    let taken = claim_one (λ id. false) t.next_run_at t.tier "w" 30 s.db in
    record {
      db = (reap (λ id. false) 1 (λ id. 0) (t.next_run_at + 30001) taken.0).0;
      held = with_claim taken.1 s.held;
    }

lapse-Waits :
    (a : Agent) (t : Task) (s : Sys) → Waits a t s.db → Waits a (reclaimed t) (lapse t s).db
unfolding reap at_cursor
lapse-Waits a t s waits =
    let taken = Waits-claim_one a t s.db waits in
    let taken_db = ap (λ (r : Db × Option Task). r.0) taken in
    (
      ap (λ (d : Db). d.agents) taken_db ∙ waits.0,
      claimed-reap a t (claim_one (λ id. false) t.next_run_at t.tier "w" 30 s.db).0
          (ap (λ (d : Db). d.tasks) taken_db),
      waits.2,
      refl,
    )

lapse-dlq : (t : Task) (s : Sys) → (a : Agent) → Waits a t s.db → (lapse t s).db.dlq ≡ s.db.dlq
unfolding reap
lapse-dlq t s a waits = ap (λ (r : Db × Option Task). r.0.dlq) (Waits-claim_one a t s.db waits)

-- In a database of exactly one agent and one task, which waits at its cursor, no number of lost
-- leases ends the task: however often its workers die, there is a path of claims and sweeps of the reaper after which it waits again with
-- that many attempts more, and no dead letter was written.
pub lapses-Reach :
    (a : Agent) (t : Task) (s : Sys) (n : ℕ)
    → Waits a t s.db
    → (s' : Sys) × (t' : Task) × Reach s s'
      × Waits a t' s'.db
      × (t'.attempt ≡ t.attempt + n)
      × (s'.db.dlq ≡ s.db.dlq)
lapses-Reach a t s zero waits = (s, t, here, waits, omega arith, refl)
lapses-Reach a t s (suc n) waits =
    let (s', t', path, waits', count, dead) = lapses-Reach a t s n waits in
    (
      lapse t' s',
      reclaimed t',
      next (next path (claims (λ id. false) t'.next_run_at t'.tier "w" 30))
          (reaps (λ id. false) 1 (λ id. 0) (t'.next_run_at + 30001)),
      lapse-Waits a t' s' waits',
      omega (arith, count),
      lapse-dlq t' s' a waits' ∙ dead,
    )
