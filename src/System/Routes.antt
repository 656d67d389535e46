-- ===== src/System/Routes.antt =====
-- The classifier, against the ordering invariant.
use reliable_ai_agents.Prelude.{
  ℕ, ◌≡◌, ◌≢◌, refl, sym, ap, ◌∙◌, subst, some-injective, inl, inr, String, Bool, true, not, ◌&&◌,
  Option, none, some, List, [], ◌∷◌, Memᴰ, arith, ◌==◌, if◌then◌else◌, Bool-cases, Option-cases,
  update_where, mem-update_where, mem-select, mem-order_by, mem-take,
}
use reliable_ai_agents.Schema.{
  Agent, Tier, Task, TaskStatus, FailureClass, Reason, Detail, Db, is_failed,
}
use reliable_ai_agents.Runtime.{Flags}
use reliable_ai_agents.Failures.{backoff_seconds}
use reliable_ai_agents.Orchestrator.Classify.{
  Action, retry, promote, dlq, Counts, tally, take_failed, retry_row, promote_row, kill_row,
  cancel_row, fail_row, is_sibling, bury, kill, route_one, route_all, classify,
}
use reliable_ai_agents.Orchestrator.Classify.Routing.{retried_db, promoted_db, retry-eq, promote-eq}
use reliable_ai_agents.Orchestrator.Classify.Burial.{dlq_kills}
use reliable_ai_agents.System.Ordered.{
  Placed, IsOrdered, KeepsKeys, IsOrdered-update_tasks, IsOrdered-update_agents,
}
use reliable_ai_agents.System.Moves.{Ordered}

-- The row with this id, if there is one, has not succeeded.
abbrev pub NotDone : Task → List Task → Type 0
NotDone task tasks = (t : Task) → Memᴰ t tasks → t.id ≡ task.id → t.status ≢ TaskStatus.succeeded

-- A write that no row succeeds by, and that leaves ids alone.
NotDone-update :
    (task : Task) (p : Task → Bool) (f : Task → Task) (tasks : List Task)
    → ((t : Task) → (f t).id ≡ t.id)
    → ((t : Task) → (f t).status ≢ TaskStatus.succeeded)
    → NotDone task tasks
    → NotDone task (update_where p f tasks)
NotDone-update task p f tasks same fine h t m e =
    let (u, n, q) = mem-update_where p f tasks m in
    subst (λ (x : Task). x.status ≢ TaskStatus.succeeded) (sym q)
      (elim (Bool-cases (p u)) [
        | inl hit ↦ rw hit (fine u)
        | inr miss ↦
            let kept : (if p u then f u else u) ≡ u = rw miss refl in
            let e' : u.id ≡ task.id = sym (ap (λ (x : Task). x.id) (q ∙ kept)) ∙ e in
            rw miss (h u n e')
      ])

retry-Placed :
    (a : Agent) (t : Task) (b now : ℕ)
    → t.status ≢ TaskStatus.succeeded
    → Placed a t
    → Placed a (retry_row b now t)
retry-Placed a t b now undone placed = ground arith

promote-Placed :
    (a : Agent) (t : Task) (tier : String) (now : ℕ)
    → t.status ≢ TaskStatus.succeeded
    → Placed a t
    → Placed a (promote_row tier now t)
promote-Placed a t tier now undone placed = ground arith

kill-Placed :
    (a : Agent) (t : Task) (now : ℕ)
    → t.status ≢ TaskStatus.succeeded
    → Placed a t
    → Placed a (kill_row now t)
kill-Placed a t now undone placed = ground arith

cancel-Placed :
    (a : Agent) (t : Task) (agent_id : ℕ) (d : Detail) (now : ℕ)
    → is_sibling agent_id t ≡ true
    → Placed a t
    → Placed a (cancel_row d now t)
unfolding is_sibling
cancel-Placed a t agent_id d now hit placed = ground arith

fail-Placed : (a : Agent) (t : Task) (now : ℕ) → Placed a t → Placed (fail_row now a) t
fail-Placed a t now placed = ground arith

module _ (now : ℕ) (task : Task) (db : Db) (held : List Task) (ordered : Ordered db held)
    (undone : NotDone task db.tasks) where
  one_row :
      (f : Task → Task)
      → KeepsKeys f
      → ((a : Agent) (t : Task) → t.status ≢ TaskStatus.succeeded → Placed a t → Placed a (f t))
      → IsOrdered db.agents (update_where (λ t. t.id == task.id) f db.tasks) held
  one_row f keeps stays =
      IsOrdered-update_tasks _ f keeps ordered
        (λ a t ma mt own hit. stays a t (undone t mt (ground arith)))

  retried-Ordered : Ordered (retried_db db task now) held
  retried-Ordered =
      one_row (retry_row (backoff_seconds task.attempt) now)
        (record { id = λ t. refl; agent_id = λ t. refl; seq = λ t. refl })
        (λ a t. retry-Placed a t (backoff_seconds task.attempt) now)

  promoted-Ordered : (tier : String) → Ordered (promoted_db db task tier now) held
  promoted-Ordered tier =
      one_row (promote_row tier now)
        (record { id = λ t. refl; agent_id = λ t. refl; seq = λ t. refl })
        (λ a t. promote-Placed a t tier now)

  buried-Ordered : (reason : Reason) (fc : FailureClass) → Ordered (bury db task reason now fc) held
  buried-Ordered reason fc =
      IsOrdered-update_agents _ (fail_row now) (λ a. refl)
        (IsOrdered-update_tasks _ (cancel_row (Detail.agent_failed_at task.seq reason) now)
          (record { id = λ t. refl; agent_id = λ t. refl; seq = λ t. refl })
          (one_row (kill_row now) (record { id = λ t. refl; agent_id = λ t. refl; seq = λ t. refl })
            (λ a t. kill-Placed a t now))
          (λ a t ma mt own hit.
            cancel-Placed a t task.agent_id (Detail.agent_failed_at task.seq reason) now hit))
        (λ a t ma mt own hit. fail-Placed a t now)

-- What a routed failure leaves: the order, and the other failures of the batch still not done.
record Routed (held : List Task) (task : Task) (tasks : List Task) (db' : Db) : Type 0 where
  ordered : Ordered db' held
  others_open : (other : Task) → NotDone other tasks → NotDone other db'.tasks

module _ (now : ℕ) (task : Task) (db : Db) (held : List Task) (ordered : Ordered db held)
    (undone : NotDone task db.tasks) where
  retried-Routed : Routed held task db.tasks (retried_db db task now)
  retried-Routed = record {
    ordered = retried-Ordered now task db held ordered undone;
    others_open = λ other.
        NotDone-update other _ (retry_row (backoff_seconds task.attempt) now) db.tasks (λ t. refl)
          (λ t q. cc);
  }

  promoted-Routed : (tier : String) → Routed held task db.tasks (promoted_db db task tier now)
  promoted-Routed tier = record {
    ordered = promoted-Ordered now task db held ordered undone tier;
    others_open =
        λ other. NotDone-update other _ (promote_row tier now) db.tasks (λ t. refl) (λ t q. cc);
  }

  buried-Routed :
      (reason : Reason) (fc : FailureClass) → Routed held task db.tasks (bury db task reason now fc)
  buried-Routed reason fc = record {
    ordered = buried-Ordered now task db held ordered undone reason fc;
    others_open = λ other h.
        NotDone-update other _ (cancel_row (Detail.agent_failed_at task.seq reason) now)
          (update_where (λ t. t.id == task.id) (kill_row now) db.tasks) (λ t. refl) (λ t q. cc)
          (NotDone-update other _ (kill_row now) db.tasks (λ t. refl) (λ t q. cc) h);
  }

  kill_as : Reason → Option FailureClass → Option Db
  kill_as reason class = elim class [ none ↦ none | some fc ↦ some (bury db task reason now fc) ]

  kill_as-Routed :
      (reason : Reason) (class : Option FailureClass) (db' : Db)
      → kill_as reason class ≡ some db'
      → Routed held task db.tasks db'
  unfolding kill_as
  kill_as-Routed reason none db' h = cc
  kill_as-Routed reason (some fc) db' h =
      subst (Routed held task db.tasks) (some-injective _ _ h) (buried-Routed reason fc)

  kill-Routed :
      (reason : Reason) (db' : Db)
      → kill task reason now db ≡ some db'
      → Routed held task db.tasks db'
  unfolding kill kill_as
  kill-Routed reason db' h = kill_as-Routed reason task.failure_class db' h

  route_one-Routed :
      (ladder : List Tier) (flags : Flags) (db' : Db) (action : Action)
      → route_one ladder flags now task db ≡ some (db', action)
      → Routed held task db.tasks db'
  route_one-Routed ladder flags db' retry h =
      subst (Routed held task db.tasks) (sym (retry-eq ladder flags now task db db' h))
        retried-Routed
  route_one-Routed ladder flags db' promote h =
      let (tier, above, e) = promote-eq ladder flags now task db db' h in
      subst (Routed held task db.tasks) (sym e) (promoted-Routed tier)
  route_one-Routed ladder flags db' dlq h =
      dlq_kills ladder flags now task db (Routed held task db.tasks) db'
        (λ reason. kill-Routed reason db') h

abbrev AllOpen : List Task → List Task → Type 0
AllOpen batch tasks = (t : Task) → Memᴰ t batch → NotDone t tasks

module _ (ladder : List Tier) (flags : Flags) (now : ℕ) (held : List Task) where
  route_all-Ordered :
      (batch : List Task) (counts : Counts) (db : Db)
      → Ordered db held
      → AllOpen batch db.tasks
      → (db' : Db) (counts' : Counts)
      → route_all ladder flags now batch counts db ≡ some (db', counts')
      → Ordered db' held
  unfolding route_all
  route_all-Ordered [] counts db ordered undone db' counts' h =
      subst (λ (d : Db). Ordered d held) (ap (λ (x : Db × Counts). x.0) (some-injective _ _ h))
        ordered
  route_all-Ordered (task ∷ rest) counts db ordered undone db' counts' h =
      elim (Option-cases (route_one ladder flags now task db)) [
        | inl stuck ↦
            let q : ◌≡◌ {A = Option (Db × Counts)} none (some (db', counts')) =
              (rw (stuck, route_all) at h) in
            cc
        | inr r ↦
            let routed =
              route_one-Routed now task db held ordered (undone task (Memᴰ.head refl)) ladder flags
                r.0.0 r.0.1 r.1 in
            route_all-Ordered rest (tally r.0.1 counts) r.0.0 routed.ordered
              (λ t m. routed.others_open t (undone t (Memᴰ.tail m))) db' counts'
              (rw (r.1, route_all) at h)
      ]

  take_failed-AllOpen :
      (locked : ℕ → Bool) (limit : ℕ) (db : Db)
      → Ordered db held
      → AllOpen (take_failed locked limit db) db.tasks
  unfolding take_failed
  take_failed-AllOpen locked limit db ordered t m u n e =
      let r =
        mem-select (λ x. is_failed x.status && not (locked x.id)) db.tasks
          (mem-order_by (λ x. x.updated_at) _ (mem-take limit _ m)) in
      let same : u ≡ t = (ordered.keyed u t n r.0).by_id e in
      subst (λ (x : Task). x.status ≢ TaskStatus.succeeded) (sym same) (failed_open t r.1)
    where
      failed_open :
          (x : Task)
          → (is_failed x.status && not (locked x.id)) ≡ true
          → x.status ≢ TaskStatus.succeeded
      failed_open x h = ground arith

  pub classify-Ordered :
      (locked : ℕ → Bool) (limit : ℕ) (db db' : Db) (counts : Counts)
      → Ordered db held
      → classify locked limit ladder flags now db ≡ some (db', counts)
      → Ordered db' held
  unfolding classify
  classify-Ordered locked limit db db' counts ordered h =
      route_all-Ordered (take_failed locked limit db)
        (record { retries = 0; promotions = 0; dead = 0 }) db ordered
        (take_failed-AllOpen locked limit db ordered) db' counts h
