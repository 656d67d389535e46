-- ===== src/Orchestrator/Classify/Burial.antt =====
-- orchestrator/classify.py: what each answer of `route_one` leaves behind, a dead letter above all.
use reliable_ai_agents.Prelude.{
  ℕ, ◌+◌, ◌*◌, ◌^◌, ◌≤◌, ◌≡◌, ◌≢◌, refl, sym, subst, ◌++◌, Memᴰ, select-of_mem, Evolves,
  Evolves-update_where, length-update_where, some-injective, String, Option, none, some, List, [],
  ◌∷◌, arith, ◌==◌, length, All, All-of_mem, All-update_where, update_where,
}
use reliable_ai_agents.Schema.{
  Agent, AgentStatus, Tier, Task, TaskStatus, Reason, Detail, FailureClass, Attempt, DeadLetter, Db,
}
use reliable_ai_agents.Tiers.{next_tier}
use reliable_ai_agents.Failures.{backoff_seconds}
use reliable_ai_agents.Orchestrator.Classify.Routing.{retried_db, promoted_db, retry-eq, promote-eq}
use reliable_ai_agents.Runtime.{Flags, force_tier}
use reliable_ai_agents.Orchestrator.Classify.{
  Action, retry, promote, dlq, infra_attempts, fail_row, kill_row, cancel_row, is_sibling,
  dead_letter, bury, kill, put_back, route_one,
}

-- The agent has failed, nothing of it is left to claim, its task is dead, and there is one dead
-- letter more, which names the agent and the position and holds the whole trail of the task. The
-- evidence is as it was.
pub record Buried (task : Task) (db db' : Db) : Type 0 where
  pub agent_failed : All (λ a. a.id ≡ task.agent_id → a.status ≡ AgentStatus.failed) db'.agents
  pub task_dead : All (λ t. t.id ≡ task.id → t.status ≡ TaskStatus.dead) db'.tasks
  pub nothing_pending :
      All (λ t. t.agent_id ≡ task.agent_id → t.status ≢ TaskStatus.pending) db'.tasks
  pub one_letter :
      (x : DeadLetter) × (db'.dlq ≡ db.dlq ++ x ∷ [])
      × (x.agent_id ≡ task.agent_id)
      × (x.seq ≡ task.seq)
      × (x.task_def_id ≡ task.task_def_id)
      × (x.last_error ≡ task.last_error)
      × ((a : Attempt) → Memᴰ a db.attempts → a.task_instance_id ≡ task.id → Memᴰ a x.attempt_trail)
  pub same_attempts : db'.attempts ≡ db.attempts

module _ (task : Task) (reason : Reason) (now : ℕ) (db : Db) where
  fails_agent :
      (xs : List Agent)
      → All
          (λ a. a.id ≡ task.agent_id → a.status ≡ AgentStatus.failed)
          (update_where (λ a. a.id == task.agent_id) (fail_row now) xs)
  fails_agent xs =
      All-update_where (λ a. Unit {0}) _ _ _ xs (λ a h e same. ground arith) (λ a h e same. refl)
        (All-of_mem _ xs (λ a m. tt))

  kills_task :
      (xs : List Task)
      → All
          (λ t. t.id ≡ task.id → t.status ≡ TaskStatus.dead)
          (update_where (λ t. t.id == task.id) (kill_row now) xs)
  kills_task xs =
      All-update_where (λ t. Unit {0}) _ _ _ xs (λ t h e same. ground arith) (λ t h e same. refl)
        (All-of_mem _ xs (λ t m. tt))

  cancels_siblings :
      (d : Detail) (xs : List Task)
      → All
          (λ t. t.agent_id ≡ task.agent_id → t.status ≢ TaskStatus.pending)
          (update_where (is_sibling task.agent_id) (cancel_row d now) xs)
  unfolding is_sibling
  cancels_siblings d xs =
      All-update_where (λ t. Unit {0}) _ _ _ xs (λ t h e same. ground arith) (λ t h e same q. cc)
        (All-of_mem _ xs (λ t m. tt))

  stays_dead :
      (d : Detail) (xs : List Task)
      → All (λ t. t.id ≡ task.id → t.status ≡ TaskStatus.dead) xs
      → All
          (λ t. t.id ≡ task.id → t.status ≡ TaskStatus.dead)
          (update_where (is_sibling task.agent_id) (cancel_row d now) xs)
  stays_dead d xs h = All-update_where _ _ _ _ xs (λ t k e. k) (λ t k e same. refl) h

  bury-Buried : (fc : FailureClass) → Buried task db (bury db task reason now fc)
  bury-Buried fc = record {
    agent_failed = fails_agent db.agents;
    task_dead = stays_dead _ _ (kills_task db.tasks);
    nothing_pending = cancels_siblings _ _;
    one_letter = (
      dead_letter db task reason now fc,
      refl,
      refl,
      refl,
      refl,
      refl,
      λ a m own.
          select-of_mem (λ a. a.task_instance_id == task.id) db.attempts m (ground (arith, own)),
    );
    same_attempts = refl;
  }

  buried_as : Option FailureClass → Option Db
  buried_as class = elim class [ none ↦ none | some fc ↦ some (bury db task reason now fc) ]

  Buried-by :
      (class : Option FailureClass) (db' : Db) → buried_as class ≡ some db' → Buried task db db'
  unfolding buried_as
  Buried-by none db' h = cc
  Buried-by (some fc) db' h = subst (Buried task db) (some-injective _ _ h) (bury-Buried fc)

  kill-Buried : (db' : Db) → kill task reason now db ≡ some db' → Buried task db db'
  unfolding kill buried_as
  kill-Buried db' h = Buried-by task.failure_class db' h

module _ (ladder : List Tier) (flags : Flags) (now : ℕ) (task : Task) (db : Db) where
  -- Every path that answers `dlq` went through `_kill`.
  pub dlq_kills :
      (P : Db → Type 0) (db' : Db)
      → ((reason : Reason) → kill task reason now db ≡ some db' → P db')
      → route_one ladder flags now task db ≡ some (db', dlq)
      → P db'
  unfolding route_one put_back
  dlq_kills P db' k h = ground (
    arith,
    k Reason.poison,
    k Reason.retries_disabled,
    k Reason.escalation_disabled,
    k (Reason.handed_out task.attempt),
    k (Reason.infra_failed (infra_attempts task db)),
    k (Reason.tier_pinned (force_tier flags)),
    k (Reason.exhausted task.tier),
  )

  -- The task waits at its tier, behind 2 ^ attempt seconds or 30, whichever is less.
  abbrev pub Waits : Task → Task → Type 0
  Waits t u =
      (u.status ≡ TaskStatus.pending)
      × (u.lease_owner ≡ none)
      × (u.tier ≡ t.tier)
      × (u.attempt ≡ t.attempt)
      × (2 ^ task.attempt ≤ 30 → u.next_run_at ≡ now + 2 ^ task.attempt * 1000)
      × (30 ≤ 2 ^ task.attempt → u.next_run_at ≡ now + 30000)

  -- The task may be claimed at once at `tier`, with no handouts counted.
  abbrev pub Rises : String → Task → Task → Type 0
  Rises tier t u =
      (u.status ≡ TaskStatus.pending)
      × (u.lease_owner ≡ none)
      × (u.tier ≡ tier)
      × (u.attempt ≡ 0)
      × (u.next_run_at ≡ now)

  -- The row of the task, which stays the same work, has changed so; no other row has changed.
  abbrev pub Only : (Task → Task → Type 0) → Task → Task → Type 0
  Only Changes t u =
      (t.id ≡ task.id
        → Changes t u
          × (u.id ≡ t.id)
          × (u.agent_id ≡ t.agent_id)
          × (u.seq ≡ t.seq)
          × (u.task_def_id ≡ t.task_def_id)
          × (u.max_attempts_per_tier ≡ t.max_attempts_per_tier))
      × (t.id ≢ task.id → u ≡ t)

  -- That has happened to the tasks, and no other table has changed.
  abbrev pub OnlyTasks : (Task → Task → Type 0) → Db → Type 0
  OnlyTasks Changes db' =
      Evolves (Only Changes) db.tasks db'.tasks
      × (length db'.tasks ≡ length db.tasks)
      × (db' ≡ record db { tasks = db'.tasks })

  changed_rows :
      (Changes : Task → Task → Type 0) (f : Task → Task)
      → ((t : Task)
          → Changes t (f t)
            × ((f t).id ≡ t.id)
            × ((f t).agent_id ≡ t.agent_id)
            × ((f t).seq ≡ t.seq)
            × ((f t).task_def_id ≡ t.task_def_id)
            × ((f t).max_attempts_per_tier ≡ t.max_attempts_per_tier))
      → OnlyTasks Changes (record db { tasks = update_where (λ t. t.id == task.id) f db.tasks })
  changed_rows Changes f change = (
    Evolves-update_where (Only Changes) _ _ db.tasks
        (λ t e. (λ own. absurd (ground (arith, e, own)), λ other. refl))
        (λ t e. (λ own. change t, λ other. absurd (other (ground arith)))),
    length-update_where _ _ db.tasks,
    refl,
  )

  -- What each answer has done to the database.
  abbrev pub Effect : Db → Action → Type 0
  Effect db' retry = OnlyTasks Waits db'
  Effect db' promote =
      (tier : String) × (next_tier task.tier ladder ≡ some tier) × OnlyTasks (Rises tier) db'
  Effect db' dlq = Buried task db db'

  backoff_time :
      (2 ^ task.attempt ≤ 30
        → now + backoff_seconds task.attempt * 1000 ≡ now + 2 ^ task.attempt * 1000)
      × (30 ≤ 2 ^ task.attempt → now + backoff_seconds task.attempt * 1000 ≡ now + 30000)
  unfolding backoff_seconds
  backoff_time = (λ h. ground (arith, h), λ h. ground (arith, h))

  retried_rows : OnlyTasks Waits (retried_db db task now)
  retried_rows = changed_rows Waits _ (λ t.
      ((refl, refl, refl, refl, backoff_time.0, backoff_time.1), refl, refl, refl, refl, refl))

  promoted_rows : (tier : String) → OnlyTasks (Rises tier) (promoted_db db task tier now)
  promoted_rows tier =
      changed_rows (Rises tier) _
        (λ t. ((refl, refl, refl, refl, refl), refl, refl, refl, refl, refl))

  -- Each answer of `route_one` has its one effect. After "retry" the task is pending at its tier,
  -- held back for 2 ^ attempt seconds or 30, whichever is less; after "promote" it is pending at once
  -- at the next tier up, with no handouts counted; on both, no other row and no other table has
  -- changed. After "dlq" its agent has failed, it is dead, no task of the agent is pending and there
  -- is one dead letter more, with the whole trail of the task.
  pub route_one-Effect :
      (db' : Db) (action : Action)
      → route_one ladder flags now task db ≡ some (db', action)
      → Effect db' action
  route_one-Effect db' retry h =
      subst (OnlyTasks Waits) (sym (retry-eq ladder flags now task db db' h)) retried_rows
  route_one-Effect db' promote h =
      let (tier, above, e) = promote-eq ladder flags now task db db' h in
      (tier, above, subst (OnlyTasks (Rises tier)) (sym e) (promoted_rows tier))
  route_one-Effect db' dlq h =
      dlq_kills (Buried task db) db' (λ reason. kill-Buried task reason now db db') h
