-- ===== src/Orchestrator/Queue/Repair.antt =====
-- orchestrator/queue.py: what `repair_stalled` leaves of the stalled agents.
use mathlib.Core.List.Memᴰ
use reliable_ai_agents.Prelude.{
  ℕ, suc, ◌≤◌, ◌≡◌, refl, sym, ap, ◌∙◌, subst, inl, inr, String, Bool, true, false, not, ◌&&◌, ◌||◌,
  some, List, [], ◌∷◌, ◌++◌, Memᴰ, arith, ==-refl, get_or, All, take_all, Bool-cases, select,
  exists_where, order_by, select-of_mem, order_by-of_mem, length-order_by, length-select,
  count_where-none,
}
use reliable_ai_agents.Schema.{Agent, Tier, Task, TaskStatus, Db}
use reliable_ai_agents.Tiers.{base_tier}
use reliable_ai_agents.Orchestrator.Queue.{
  holds, is_stalled, new_task, conflicts, insert_missing, stalled, repair_stalled, stalled_agents,
}

exists_where-append :
    (p : Task → Bool) (xs ys : List Task)
    → exists_where p (xs ++ ys) ≡ (exists_where p xs || exists_where p ys)
unfolding exists_where
exists_where-append p [] ys = refl
exists_where-append p (x ∷ xs) ys = ground (arith, exists_where-append p xs ys)

or_true : (b : Bool) → (b || true) ≡ true
or_true b = ground arith

-- An inserted row is pending at the given tier and was never handed out.
pub record IsNew (tier : String) (t : Task) : Type 0 where
  pub at_tier : t.tier ≡ tier
  pub pending : t.status ≡ TaskStatus.pending
  pub unclaimed : t.attempt ≡ 0

module _ (uuid : ℕ → ℕ) (tier : String) (now : ℕ) where
  row : ℕ → Agent → Task
  row i a = new_task (uuid i) a.id a.cursor (get_or a.plan a.cursor 0) tier now

  taken-eq :
      (i : ℕ) (a : Agent) (rest : List Agent) (tasks : List Task)
      → exists_where (conflicts (row i a)) tasks ≡ true
      → (insert_missing uuid i tier now (a ∷ rest) tasks).0
        ≡ (insert_missing uuid (suc i) tier now rest tasks).0
  unfolding insert_missing row
  taken-eq i a rest tasks h = rw h

  free-eq :
      (i : ℕ) (a : Agent) (rest : List Agent) (tasks : List Task)
      → exists_where (conflicts (row i a)) tasks ≡ false
      → (insert_missing uuid i tier now (a ∷ rest) tasks).0
        ≡ (insert_missing uuid (suc i) tier now rest (tasks ++ row i a ∷ [])).0
  unfolding insert_missing row
  free-eq i a rest tasks h = rw h

  insert_missing-keeps :
      (p : Task → Bool) (i : ℕ) (batch : List Agent) (tasks : List Task)
      → exists_where p tasks ≡ true
      → exists_where p (insert_missing uuid i tier now batch tasks).0 ≡ true
  insert_missing-keeps p i [] tasks h = unfold insert_missing in h
  insert_missing-keeps p i (a ∷ rest) tasks h =
      elim (Bool-cases (exists_where (conflicts (row i a)) tasks)) [
        | inl taken ↦
            ap (exists_where p) (taken-eq i a rest tasks taken)
            ∙ insert_missing-keeps p (suc i) rest tasks h
        | inr free ↦
            ap (exists_where p) (free-eq i a rest tasks free)
            ∙ insert_missing-keeps p (suc i) rest (tasks ++ row i a ∷ []) (
                exists_where-append p tasks (row i a ∷ [])
                ∙ ap (λ b. b || exists_where p (row i a ∷ [])) h)
      ]

  conflicts-holds : (i : ℕ) (a : Agent) → conflicts (row i a) ≡ holds a
  unfolding conflicts holds row new_task
  conflicts-holds i a = refl

  holds-row : (i : ℕ) (a : Agent) → exists_where (holds a) (row i a ∷ []) ≡ true
  unfolding exists_where holds row new_task
  holds-row i a = ground (arith, ==-refl a.id, ==-refl a.cursor)

  covers_first :
      (i : ℕ) (a : Agent) (rest : List Agent) (tasks : List Task)
      → exists_where (holds a) (insert_missing uuid i tier now (a ∷ rest) tasks).0 ≡ true
  covers_first i a rest tasks = elim (Bool-cases (exists_where (conflicts (row i a)) tasks)) [
    | inl taken ↦
        ap (exists_where (holds a)) (taken-eq i a rest tasks taken)
        ∙ insert_missing-keeps (holds a) (suc i) rest tasks
            (sym (ap (λ p. exists_where p tasks) (conflicts-holds i a)) ∙ taken)
    | inr free ↦
        ap (exists_where (holds a)) (free-eq i a rest tasks free)
        ∙ insert_missing-keeps (holds a) (suc i) rest (tasks ++ row i a ∷ []) (
            exists_where-append (holds a) tasks (row i a ∷ [])
            ∙ ap (λ b. exists_where (holds a) tasks || b) (holds-row i a)
            ∙ or_true (exists_where (holds a) tasks))
  ]

  insert_missing-covers :
      (i : ℕ) (batch : List Agent) (tasks : List Task) (a : Agent)
      → Memᴰ a batch
      → exists_where (holds a) (insert_missing uuid i tier now batch tasks).0 ≡ true
  insert_missing-covers i [] tasks a m = elim m [ ]
  insert_missing-covers i (b ∷ rest) tasks a m = elim (Memᴰ.cases_cons m) [
    | inl e ↦
        subst
          (λ x. exists_where (holds x) (insert_missing uuid i tier now (b ∷ rest) tasks).0 ≡ true)
          (sym e) (covers_first i b rest tasks)
    | inr m' ↦ elim (Bool-cases (exists_where (conflicts (row i b)) tasks)) [
      | inl taken ↦
          ap (exists_where (holds a)) (taken-eq i b rest tasks taken)
          ∙ insert_missing-covers (suc i) rest tasks a m'
      | inr free ↦
          ap (exists_where (holds a)) (free-eq i b rest tasks free)
          ∙ insert_missing-covers (suc i) rest (tasks ++ row i b ∷ []) a m'
    ]
  ]

  fresh_row : (i : ℕ) (a : Agent) → IsNew tier (row i a)
  unfolding row new_task
  fresh_row i a = record { at_tier = refl; pending = refl; unclaimed = refl }

  insert_missing-IsNew :
      (i : ℕ) (batch : List Agent) (tasks : List Task)
      → All (IsNew tier) (insert_missing uuid i tier now batch tasks).1
  unfolding insert_missing row
  insert_missing-IsNew i [] tasks = tt
  insert_missing-IsNew i (a ∷ rest) tasks =
      elim (Bool-cases (exists_where (conflicts (row i a)) tasks)) [
        | inl taken ↦ rw taken (insert_missing-IsNew (suc i) rest tasks)
        | inr free ↦
            rw free (fresh_row i a, insert_missing-IsNew (suc i) rest (tasks ++ row i a ∷ []))
      ]

module _ (batch : ℕ) (uuid : ℕ → ℕ) (now : ℕ) (db : Db) where
  abbrev free : ℕ → Bool
  free id = false

  select_all :
      (rows : List Agent)
      → select (λ a. is_stalled db.tasks a && not (free a.id)) rows
        ≡ select (is_stalled db.tasks) rows
  unfolding select
  select_all [] = refl
  select_all (a ∷ rest) = ground (arith, select_all rest)

  stalled_all :
      stalled_agents db ≤ batch
      → (a : Agent) → Memᴰ a db.agents
      → is_stalled db.tasks a ≡ true
      → Memᴰ a (stalled free batch db)
  unfolding stalled stalled_agents
  stalled_all room a m h =
      subst (Memᴰ a)
        (sym (
          take_all batch _ (rw length-order_by (rw (select_all db.agents, length-select) room))
          ∙ ap (order_by (λ x. x.created_at)) (select_all db.agents)))
        (order_by-of_mem (λ x. x.created_at) _ (select-of_mem (is_stalled db.tasks) db.agents m h))

  not_stalled :
      (tasks : List Task) (a : Agent)
      → (is_stalled db.tasks a ≡ true → exists_where (holds a) tasks ≡ true)
      → (exists_where (holds a) db.tasks ≡ true → exists_where (holds a) tasks ≡ true)
      → is_stalled tasks a ≡ false
  unfolding is_stalled
  not_stalled tasks a covered kept = ground arith

  repaired :
      stalled_agents db ≤ batch
      → (tier : String)
      → let tasks = (insert_missing uuid 0 tier now (stalled free batch db) db.tasks).0 in
        stalled_agents (record db { tasks = tasks }) ≡ 0
  unfolding stalled_agents
  repaired room tier =
      let tasks = (insert_missing uuid 0 tier now (stalled free batch db) db.tasks).0 in
      count_where-none (is_stalled tasks) db.agents (λ a m.
        not_stalled tasks a
          (λ h.
            insert_missing-covers uuid tier now 0 (stalled free batch db) db.tasks a
              (stalled_all room a m h))
          (insert_missing-keeps uuid tier now (holds a) 0 (stalled free batch db) db.tasks))

  -- A repair that no other transaction gets in the way of, and whose batch is at least the number
  -- of stalled agents, leaves no stalled agent; each row that it inserts is at the base tier,
  -- pending and never handed out.
  pub repair_stalled_complete :
      (ladder : List Tier) (tier : String)
      → stalled_agents db ≤ batch
      → base_tier ladder ≡ some tier
      → (db' : Db) × (rows : List Task) × (repair_stalled free batch uuid ladder now db
          ≡ some (db', rows))
        × (stalled_agents db' ≡ 0)
        × All (IsNew tier) rows
  unfolding repair_stalled
  repair_stalled_complete ladder tier room base =
      let filled = insert_missing uuid 0 tier now (stalled free batch db) db.tasks in
      (
        record db { tasks = filled.0 },
        filled.1,
        rw (base, repair_stalled),
        repaired room tier,
        insert_missing-IsNew uuid tier now 0 (stalled free batch db) db.tasks,
      )
