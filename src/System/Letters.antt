-- ===== src/System/Letters.antt =====
-- The transactions, against the rule that a dead task and a failed agent have a dead letter.
use mathlib.Core.List.Memᴰ
use reliable_ai_agents.Prelude.{
  ℕ, ◌≡◌, ◌≢◌, refl, sym, subst, inl, inr, String, Bool, true, Option, none, some, some-injective,
  List, [], ◌∷◌, ◌++◌, Memᴰ, arith, ◌==◌, Bool-cases, exists_where, update_where, mem-update_where,
}
use reliable_ai_agents.Json.{Json}
use reliable_ai_agents.Schema.{
  Agent, AgentStatus, Tier, Task, TaskStatus, DeadLetter, FailureClass, Reason, Db,
}
use reliable_ai_agents.Failures.{TaskFailure}
use reliable_ai_agents.Runtime.{Flags}
use reliable_ai_agents.Worker.Claim.{grant, lease}
use reliable_ai_agents.Worker.Heartbeat.{fenced}
use reliable_ai_agents.Worker.Checkpoint.{
  at_position, advance, mark_succeeded, mark_failed, checkpoint_success, report_failure,
}
use reliable_ai_agents.Orchestrator.Classify.{
  Action, retry, promote, dlq, kill_row, cancel_row, fail_row, is_sibling, dead_letter, bury, kill,
  route_one,
}
use reliable_ai_agents.Orchestrator.Classify.Routing.{retry-eq, promote-eq}
use reliable_ai_agents.Orchestrator.Classify.Burial.{dlq_kills}

abbrev pub HasLetter : ℕ → List DeadLetter → Type 0
HasLetter agent_id letters = (l : DeadLetter) × Memᴰ l letters × (l.agent_id ≡ agent_id)

abbrev pub Marked : List DeadLetter → Task → Type 0
Marked letters t = t.status ≡ TaskStatus.dead → HasLetter t.agent_id letters

abbrev pub Fallen : List DeadLetter → Agent → Type 0
Fallen letters a = a.status ≡ AgentStatus.failed → HasLetter a.id letters

abbrev pub Each {ℓ κ} : {A : Type ℓ} → (A → Type κ) → List A → Type (ℓ ⊔ κ)
Each {A = A} P xs = (x : A) → Memᴰ x xs → P x

-- No loss is silent.
abbrev pub Mourned : Db → Type 0
Mourned db = Each (Marked db.dlq) db.tasks × Each (Fallen db.dlq) db.agents

module _ {ℓ κ} {A : Type ℓ} (P : A → Type κ) where
  pub Each-update :
      (p : A → Bool) (f : A → A) (xs : List A)
      → ((x : A) → Memᴰ x xs → p x ≡ true → P x → P (f x))
      → Each P xs
      → Each P (update_where p f xs)
  Each-update p f xs moved each x m =
      let (y, my, e) = mem-update_where p f xs m in
      subst P (sym e) (elim (Bool-cases (p y)) [
        | inl hit ↦ rw hit (moved y my hit (each y my))
        | inr miss ↦ rw miss (each y my)
      ])

  pub Each-append : (xs ys : List A) → Each P xs → Each P ys → Each P (xs ++ ys)
  Each-append xs ys hx hy x m = elim (Memᴰ.append_cases xs m) [
    | inl old ↦ hx x old
    | inr fresh ↦ hy x fresh
  ]

  pub Each-one : (y : A) → P y → Each P (y ∷ [])
  Each-one y h x m = subst P (sym (Memᴰ.eq_of_singleton m)) h

HasLetter-later :
    (letters more : List DeadLetter) (agent_id : ℕ)
    → HasLetter agent_id letters
    → HasLetter agent_id (letters ++ more)
HasLetter-later letters more agent_id (l, m, e) = (l, Memᴰ.append_left more m, e)

-- The rows with the task's id are of its agent.
abbrev pub Same : Task → List Task → Type 0
Same task tasks = Each (λ u. u.id ≡ task.id → u.agent_id ≡ task.agent_id) tasks

module _ (task : Task) (reason : Reason) (now : ℕ) (db : Db) (mourned : Mourned db) where
  module _ (fc : FailureClass) where
    abbrev letters : List DeadLetter
    letters = db.dlq ++ dead_letter db task reason now fc ∷ []

    written : (agent_id : ℕ) → agent_id ≡ task.agent_id → HasLetter agent_id letters
    written agent_id e =
        (dead_letter db task reason now fc, Memᴰ.append_right db.dlq (Memᴰ.head refl), sym e)

    bury-Mourned : Same task db.tasks → Mourned (bury db task reason now fc)
    unfolding is_sibling
    bury-Mourned same =
        let marked = λ (t : Task) (m : Memᴰ t db.tasks) (dead : t.status ≡ TaskStatus.dead).
          HasLetter-later db.dlq _ t.agent_id (mourned.0 t m dead) in
        let fallen = λ (a : Agent) (m : Memᴰ a db.agents) (failed : a.status ≡ AgentStatus.failed).
          HasLetter-later db.dlq _ a.id (mourned.1 a m failed) in
        (
          Each-update (Marked letters) (is_sibling task.agent_id) (cancel_row _ now) _
              (λ t m hit before dead. written t.agent_id (ground (arith, hit)))
              (Each-update (Marked letters) (λ t. t.id == task.id) (kill_row now) db.tasks
                (λ t m hit before dead. written t.agent_id (same t m (ground (arith, hit))))
                marked),
          Each-update (Fallen letters) (λ a. a.id == task.agent_id) (fail_row now) db.agents
              (λ a m hit before failed. written a.id (ground (arith, hit))) fallen,
        )

  kill_as-Mourned :
      (o : Option FailureClass) (db' : Db)
      → Same task db.tasks
      → elim o [ none ↦ none | some fc ↦ some (bury db task reason now fc) ] ≡ some db'
      → Mourned db'
  kill_as-Mourned none db' same h = cc
  kill_as-Mourned (some fc) db' same h = subst Mourned (some-injective _ _ h) (bury-Mourned fc same)

  kill-Mourned : (db' : Db) → Same task db.tasks → kill task reason now db ≡ some db' → Mourned db'
  unfolding kill
  kill-Mourned db' same h = kill_as-Mourned task.failure_class db' same h

module _ (db : Db) (mourned : Mourned db) where
  -- An update of tasks that leaves none of the touched rows dead.
  pub lively-Marked :
      (p : Task → Bool) (f : Task → Task)
      → ((t : Task) → (f t).status ≢ TaskStatus.dead)
      → Each (Marked db.dlq) (update_where p f db.tasks)
  lively-Marked p f alive =
      Each-update (Marked db.dlq) p f db.tasks (λ t m hit before dead. absurd (alive t dead))
        mourned.0

  pub route_one-Mourned :
      (ladder : List Tier) (flags : Flags) (now : ℕ) (task : Task) (db' : Db) (action : Action)
      → Same task db.tasks
      → route_one ladder flags now task db ≡ some (db', action)
      → Mourned db'
  route_one-Mourned ladder flags now task db' retry same h =
      subst Mourned (sym (retry-eq ladder flags now task db db' h))
        (lively-Marked _ _ (λ t dead. cc), mourned.1)
  route_one-Mourned ladder flags now task db' promote same h =
      let (tier, above, e) = promote-eq ladder flags now task db db' h in
      subst Mourned (sym e) (lively-Marked _ _ (λ t dead. cc), mourned.1)
  route_one-Mourned ladder flags now task db' dlq same h =
      dlq_kills ladder flags now task db Mourned db'
        (λ reason. kill-Mourned task reason now db mourned db' same) h

  pub grant-Mourned :
      (worker_id : String) (ttl now : ℕ) (o : Option Task)
      → Mourned (grant worker_id ttl now db o).0
  grant-Mourned worker_id ttl now none = mourned
  grant-Mourned worker_id ttl now (some t) =
      (lively-Marked _ (lease worker_id ttl now) (λ u dead. cc), mourned.1)

  pub checkpoint_success-Mourned :
      (task : Task) (result : Json) (cost tokens started : ℕ) (worker_id : String) (now : ℕ)
      → Mourned (checkpoint_success task result cost tokens started worker_id now db).0
  unfolding checkpoint_success
  checkpoint_success-Mourned task result cost tokens started worker_id now =
      elim (Bool-cases (exists_where (fenced task.id worker_id) db.tasks)) [
        | inl holds ↦
            elim (Bool-cases (exists_where (at_position task.agent_id task.seq) db.agents)) [
              | inl there ↦
                  rw (holds, there)
                    (
                      lively-Marked _ (mark_succeeded result now) (λ t dead. cc),
                      Each-update (Fallen db.dlq) _ (advance task.seq result cost tokens now)
                          db.agents (λ a m hit before failed. before (ground (arith, failed)))
                          mourned.1,
                    )
              | inr away ↦ rw (holds, away) mourned
            ]
        | inr lost ↦ rw lost mourned
      ]

  pub report_failure-Mourned :
      (task : Task) (failure : TaskFailure) (started : ℕ) (worker_id : String) (now : ℕ)
      → Mourned (report_failure task failure started worker_id now db)
  unfolding report_failure
  report_failure-Mourned task failure started worker_id now =
      elim (Bool-cases (exists_where (fenced task.id worker_id) db.tasks)) [
        | inl holds ↦ rw holds (lively-Marked _ (mark_failed failure now) (λ t dead. cc), mourned.1)
        | inr lost ↦ rw lost mourned
      ]
