-- ===== src/Orchestrator/Reaper/Complete.antt =====
-- orchestrator/reaper.py: what `reap` leaves of the expired leases.
use reliable_ai_agents.Prelude.{
  ℕ, ◌≤◌, none, some, ◌++◌, All, All-of_mem, mem-select, mem-order_by, update_where-of_mem, ◌≡◌,
  refl, sym, ap, ◌∙◌, subst, Bool, true, false, not, ◌&&◌, List, [], ◌∷◌, map, Memᴰ, arith, ◌==◌,
  ==-refl, if◌then◌else◌, length, take_all, select, exists_where-of_mem, update_where, order_by,
  mem-update_where, select-of_mem, order_by-of_mem, length-order_by, length-select,
  count_where-none, length-map,
}
use reliable_ai_agents.Schema.{Task, TaskStatus, infra, Attempt, Outcome, Db}
use reliable_ai_agents.Orchestrator.Reaper.{
  has_expired, expired, reclaim, evidence, is_among, reap, orphaned_leases, expiry,
}

-- The attempt says that the lease which the task's row names was reclaimed.
abbrev pub IsReclaimOf : Task → Attempt → Type 0
IsReclaimOf t a =
    (a.task_instance_id ≡ t.id)
    × (a.agent_id ≡ t.agent_id)
    × (a.seq ≡ t.seq)
    × (a.attempt_no ≡ t.attempt)
    × (a.tier ≡ t.tier)
    × (a.worker_id ≡ t.lease_owner)
    × (a.outcome ≡ Outcome.reclaimed)
    × (a.failure_class ≡ some infra)

evidence-IsReclaimOf : (now : ℕ) (t : Task) → IsReclaimOf t (evidence now t)
evidence-IsReclaimOf now t = (refl, refl, refl, refl, refl, refl, refl, refl)

-- The task waits to be claimed again, and holds no lease.
abbrev pub WaitsAgain : Db → Task → Type 0
WaitsAgain db t =
    (u : Task) × Memᴰ u db.tasks
    × (u.id ≡ t.id)
    × (u.status ≡ TaskStatus.pending)
    × (u.lease_owner ≡ none)
    × (u.lease_expires ≡ none)

mem-map : {A B : Type 0} (f : A → B) (xs : List A) {x : A} → Memᴰ x xs → Memᴰ (f x) (map f xs)
mem-map f [] m = elim m [ ]
mem-map f (y ∷ ys) (Memᴰ.head e) = Memᴰ.head (ap f e)
mem-map f (y ∷ ys) (Memᴰ.tail m) = Memᴰ.tail (mem-map f ys m)

mem-of_map :
    {A B : Type 0} (f : A → B) (xs : List A) {y : B}
    → Memᴰ y (map f xs)
    → (x : A) × Memᴰ x xs × (y ≡ f x)
mem-of_map f [] m = elim m [ ]
mem-of_map f (x ∷ xs) (Memᴰ.head e) = (x, Memᴰ.head refl, e)
mem-of_map f (x ∷ xs) (Memᴰ.tail m) = let (z, n, e) = mem-of_map f xs m in (z, Memᴰ.tail n, e)

module _ (batch : ℕ) (jitter : ℕ → ℕ) (now : ℕ) (db : Db) where
  abbrev free : ℕ → Bool
  free id = false

  select_all :
      (ts : List Task)
      → select (λ t. has_expired now t && not (free t.id)) ts ≡ select (has_expired now) ts
  unfolding select
  select_all [] = refl
  select_all (t ∷ ts) = ground (arith, select_all ts)

  expired_all :
      orphaned_leases now db ≤ batch
      → expired free batch now db
        ≡ order_by (λ t. expiry t.lease_expires) (select (has_expired now) db.tasks)
  unfolding expired orphaned_leases
  expired_all room =
      take_all batch _ (rw length-order_by (rw (select_all db.tasks, length-select) room))
      ∙ ap (order_by (λ t. expiry t.lease_expires)) (select_all db.tasks)

  reclaimed_row :
      (t : Task)
      → (has_expired now t ≡ true → is_among (expired free batch now db) t ≡ true)
      → has_expired now (if is_among (expired free batch now db) t then reclaim jitter now t else t)
        ≡ false
  unfolding has_expired
  reclaimed_row t h = ground arith

  among :
      orphaned_leases now db ≤ batch
      → (t : Task) → Memᴰ t db.tasks
      → has_expired now t ≡ true
      → is_among (expired free batch now db) t ≡ true
  unfolding is_among
  among room t m h =
      exists_where-of_mem (λ u. u.id == t.id) (expired free batch now db)
        (subst (Memᴰ t) (sym (expired_all room)) (
          order_by-of_mem (λ u. expiry u.lease_expires) _
            (select-of_mem (has_expired now) db.tasks m h)))
        (==-refl t.id)

  abbrev rows : List Task
  rows = expired free batch now db

  expired-mem :
      orphaned_leases now db ≤ batch
      → (t : Task) → Memᴰ t rows
      → Memᴰ t db.tasks × (has_expired now t ≡ true)
  expired-mem room t m =
      mem-select (has_expired now) db.tasks
        (mem-order_by (λ u. expiry u.lease_expires) _ (subst (Memᴰ t) (expired_all room) m))

  mem-expired :
      orphaned_leases now db ≤ batch
      → (t : Task) → Memᴰ t db.tasks
      → has_expired now t ≡ true
      → Memᴰ t rows
  mem-expired room t m h = subst (Memᴰ t) (sym (expired_all room)) (
      order_by-of_mem (λ u. expiry u.lease_expires) _
        (select-of_mem (has_expired now) db.tasks m h))

  waits_again :
      orphaned_leases now db ≤ batch
      → (t : Task) → Memᴰ t db.tasks
      → has_expired now t ≡ true
      → WaitsAgain (reap free batch jitter now db).0 t
  unfolding reap
  waits_again room t m h = (
    reclaim jitter now t,
    subst
        (λ b.
          Memᴰ (if b then reclaim jitter now t else t)
            (update_where (is_among rows) (reclaim jitter now) db.tasks))
        (among room t m h) (update_where-of_mem (is_among rows) (reclaim jitter now) db.tasks m),
    refl,
    refl,
    refl,
    refl,
  )

  -- What the sweep appended to the evidence: reclaims of expired leases, and one for each of them.
  abbrev pub Evidenced : Db → Type 0
  Evidenced db' =
      (new : List Attempt) × (db'.attempts ≡ db.attempts ++ new)
      × (length new ≡ orphaned_leases now db)
      × All (λ a. (t : Task) × Memᴰ t db.tasks × (has_expired now t ≡ true) × IsReclaimOf t a) new
      × All (λ t. has_expired now t ≡ true → (a : Attempt) × Memᴰ a new × IsReclaimOf t a) db.tasks

  swept_count : orphaned_leases now db ≤ batch → length rows ≡ orphaned_leases now db
  unfolding orphaned_leases
  swept_count room =
      ap length (expired_all room) ∙ length-order_by _ _ ∙ length-select (has_expired now) db.tasks

  evidenced : orphaned_leases now db ≤ batch → Evidenced (reap free batch jitter now db).0
  unfolding reap
  evidenced room = (
    map (evidence now) rows,
    refl,
    length-map (evidence now) rows ∙ swept_count room,
    All-of_mem _ (map (evidence now) rows) (λ a m.
        let (t, n, e) = mem-of_map (evidence now) rows m in
        let (old, late) = expired-mem room t n in
        (t, old, late, subst (IsReclaimOf t) (sym e) (evidence-IsReclaimOf now t))),
    All-of_mem _ db.tasks (λ t m h. (
      evidence now t,
      mem-map (evidence now) rows (mem-expired room t m h),
      evidence-IsReclaimOf now t,
    )),
  )

  none_left :
      orphaned_leases now db ≤ batch → orphaned_leases now (reap free batch jitter now db).0 ≡ 0
  unfolding reap orphaned_leases
  none_left room =
      count_where-none (has_expired now)
        (update_where (is_among rows) (reclaim jitter now) db.tasks)
        (λ x m.
          let (y, n, e) = mem-update_where (is_among rows) (reclaim jitter now) db.tasks m in
          ap (has_expired now) e ∙ reclaimed_row y (λ h. among room y n h))

  reap-rows : (reap free batch jitter now db).1 ≡ rows
  unfolding reap
  reap-rows = refl

  -- A sweep that no other transaction gets in the way of, and whose batch is at least the backlog,
  -- leaves no expired lease: every task that had one waits to be claimed again without a lease, and
  -- the evidence grows by exactly one reclaim for each, which names the task, its tier, its number of
  -- handouts and the worker that held the lease, as an infra outcome.
  pub reap_complete :
      orphaned_leases now db ≤ batch
      → (orphaned_leases now (reap free batch jitter now db).0 ≡ 0)
        × (length (reap free batch jitter now db).1 ≡ orphaned_leases now db)
        × All
            (λ t. has_expired now t ≡ true → WaitsAgain (reap free batch jitter now db).0 t)
            db.tasks
        × Evidenced (reap free batch jitter now db).0
  reap_complete room = (
    none_left room,
    ap length reap-rows ∙ swept_count room,
    All-of_mem _ db.tasks (λ t m h. waits_again room t m h),
    evidenced room,
  )
