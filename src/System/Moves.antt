-- ===== src/System/Moves.antt =====
-- The transactions of workers and the sweeps of the reaper and the queue, against the ordering
-- invariant.
use reliable_ai_agents.Prelude.{
  ℕ, ◌≡◌, refl, sym, ap, ◌∙◌, subst, inl, inr, String, Bool, true, not, ◌&&◌, Option, none, some,
  List, ◌∷◌, Memᴰ, arith, ◌==◌, if◌then◌else◌, Bool-cases, ==-refl, update_where-of_mem, and-left,
  exists_where, update_where, mem-select, mem-order_by, mem-take, mem-head?, mem-of_exists_where,
}
use reliable_ai_agents.Schema.{Agent, Task, TaskStatus, Db, is_live}
use reliable_ai_agents.Failures.{TaskFailure}
use reliable_ai_agents.Worker.Claim.{at_cursor, claimable, next_claim, lease, grant, claim_one}
use reliable_ai_agents.Worker.Heartbeat.{fenced, extend, Heartbeat, renew}
use reliable_ai_agents.Worker.Checkpoint.{mark_failed, report_failure}
use reliable_ai_agents.Worker.Checkpoint.Fence.{fenced_fields}
use reliable_ai_agents.Orchestrator.Reaper.{has_expired, expired, reclaim, is_among, reap, expiry}
use reliable_ai_agents.Orchestrator.Queue.{complete, finalise_agents}
use reliable_ai_agents.System.Ordered.{
  Placed, Known, IsOrdered, KeepsKeys, IsOrdered-update_tasks, IsOrdered-update_agents,
  IsOrdered-hand_out,
}

abbrev pub Ordered : Db → List Task → Type 0
Ordered db held = IsOrdered db.agents db.tasks held

-- The row handed out joins those that workers hold.
abbrev pub with_claim : Option Task → List Task → List Task
with_claim none held = held
with_claim (some t) held = t ∷ held

module _ (locked : ℕ → Bool) (now : ℕ) (pool_tier : String) (db : Db) where
  next_claim-mem :
      (t : Task)
      → next_claim locked db now pool_tier ≡ some t
      → Memᴰ t db.tasks × (claimable db now pool_tier t ≡ true)
  unfolding next_claim
  next_claim-mem t h =
      let m =
        mem-select (λ u. claimable db now pool_tier u && not (locked u.id)) db.tasks
          (mem-order_by (λ u. u.next_run_at) _ (mem-head? _ h)) in
      (m.0, and-left _ _ m.1)

  -- A task is claimable only at the cursor of its running agent.
  pub next_claim-at_cursor :
      (t : Task)
      → next_claim locked db now pool_tier ≡ some t
      → Memᴰ t db.tasks
        × (t.status ≡ TaskStatus.pending)
        × ((a : Agent) × Memᴰ a db.agents × (a.id ≡ t.agent_id) × (t.seq ≡ a.cursor))
  unfolding claimable at_cursor
  next_claim-at_cursor t h =
      let (m, c) = next_claim-mem t h in
      let joined : exists_where (at_cursor t) db.agents ≡ true = ground arith in
      let (a, ma, e) = mem-of_exists_where (at_cursor t) db.agents joined in
      (m, ground arith, (a, ma, ground arith, ground arith))

  -- That agent is running.
  pub next_claim-live :
      (t : Task)
      → next_claim locked db now pool_tier ≡ some t
      → (a : Agent) × Memᴰ a db.agents
        × (a.id ≡ t.agent_id)
        × (t.seq ≡ a.cursor)
        × (is_live a.status ≡ true)
  unfolding claimable at_cursor
  next_claim-live t h =
      let (m, c) = next_claim-mem t h in
      let joined : exists_where (at_cursor t) db.agents ≡ true = ground arith in
      let (a, ma, e) = mem-of_exists_where (at_cursor t) db.agents joined in
      (a, ma, ground arith, ground arith, ground arith)

lease-KeepsKeys : (worker_id : String) (ttl now : ℕ) → KeepsKeys (lease worker_id ttl now)
lease-KeepsKeys worker_id ttl now = record { id = λ t. refl; agent_id = λ t. refl; seq = λ t. refl }

lease-Placed :
    (a : Agent) (t : Task) (worker_id : String) (ttl now : ℕ)
    → t.seq ≡ a.cursor
    → Placed a (lease worker_id ttl now t)
lease-Placed a t worker_id ttl now e = ground arith

module _ (locked : ℕ → Bool) (now : ℕ) (pool_tier worker_id : String) (ttl : ℕ) (db : Db)
    (held : List Task) (ordered : Ordered db held) where
  known :
      (c : Task)
      → Memᴰ c db.tasks
      → Known
          (update_where (λ u. u.id == c.id) (lease worker_id ttl now) db.tasks)
          (lease worker_id ttl now c)
  known c mc = (
    lease worker_id ttl now c,
    subst
        (λ b.
          Memᴰ (if b then lease worker_id ttl now c else c)
            (update_where (λ u. u.id == c.id) (lease worker_id ttl now) db.tasks))
        (==-refl c.id)
        (update_where-of_mem (λ u. u.id == c.id) (lease worker_id ttl now) db.tasks mc),
    refl,
    refl,
    refl,
  )

  grant-Ordered :
      (o : Option Task)
      → next_claim locked db now pool_tier ≡ o
      → Ordered (grant worker_id ttl now db o).0 (with_claim (grant worker_id ttl now db o).1 held)
  grant-Ordered none e = ordered
  grant-Ordered (some c) e =
      let (mc, waits, at) = next_claim-at_cursor locked now pool_tier db c e in
      let (b, mb, eb, sb) = at in
      let leased =
        IsOrdered-update_tasks (λ u. u.id == c.id) (lease worker_id ttl now)
          (lease-KeepsKeys worker_id ttl now) ordered
          (λ a t ma mt own hit placed.
            let same : t ≡ c = (ordered.keyed t c mt mc).by_id (ground arith) in
            let agent : a ≡ b =
              ordered.agents_keyed a b ma mb
                (sym own ∙ ap (λ (x : Task). x.agent_id) same ∙ sym eb) in
            lease-Placed a t worker_id ttl now
              (ap (λ (x : Task). x.seq) same ∙ sb ∙ ap (λ (x : Agent). x.cursor) (sym agent))) in
      IsOrdered-hand_out leased (lease worker_id ttl now c) (known c mc)

  pub claim_one-Ordered :
      let r = claim_one locked now pool_tier worker_id ttl db in Ordered r.0 (with_claim r.1 held)
  unfolding claim_one
  claim_one-Ordered = grant-Ordered (next_claim locked db now pool_tier) refl

module _ (db : Db) (held : List Task) (ordered : Ordered db held) where
  extend-Placed : (a : Agent) (t : Task) (now ttl : ℕ) → Placed a t → Placed a (extend now ttl t)
  extend-Placed a t now ttl placed = ground arith

  pub renew-Ordered : (now : ℕ) (hb : Heartbeat) → Ordered (renew now hb db).0 held
  unfolding renew
  renew-Ordered now hb =
      IsOrdered-update_tasks _ (extend now hb.ttl)
        (record { id = λ t. refl; agent_id = λ t. refl; seq = λ t. refl }) ordered
        (λ a t ma mt own hit. extend-Placed a t now hb.ttl)

  failed-Placed :
      (a : Agent) (t : Task) (failure : TaskFailure) (now : ℕ)
      → t.status ≡ TaskStatus.running
      → Placed a t
      → Placed a (mark_failed failure now t)
  failed-Placed a t failure now runs placed = ground arith

  failed-Ordered :
      (failure : TaskFailure) (task_id : ℕ) (worker_id : String) (now : ℕ)
      → IsOrdered db.agents
          (update_where (fenced task_id worker_id) (mark_failed failure now) db.tasks)
          held
  failed-Ordered failure task_id worker_id now =
      IsOrdered-update_tasks _ (mark_failed failure now)
        (record { id = λ t. refl; agent_id = λ t. refl; seq = λ t. refl }) ordered
        (λ a t ma mt own hit placed.
          failed-Placed a t failure now (fenced_fields task_id worker_id t hit).2 placed)

  -- Whoever reports the failure, with whatever row in hand.
  pub report_failure-Ordered :
      (task : Task) (failure : TaskFailure) (started : ℕ) (worker_id : String) (now : ℕ)
      → Ordered (report_failure task failure started worker_id now db) held
  unfolding report_failure
  report_failure-Ordered task failure started worker_id now =
      elim (Bool-cases (exists_where (fenced task.id worker_id) db.tasks)) [
        | inl held_lease ↦ rw held_lease (failed-Ordered failure task.id worker_id now)
        | inr lost ↦ rw lost ordered
      ]

  reclaim-Placed :
      (a : Agent) (t : Task) (jitter : ℕ → ℕ) (now : ℕ)
      → t.status ≡ TaskStatus.running
      → Placed a t
      → Placed a (reclaim jitter now t)
  reclaim-Placed a t jitter now runs placed = ground arith

  expired-running :
      (locked : ℕ → Bool) (batch now : ℕ) (t : Task)
      → Memᴰ t db.tasks
      → is_among (expired locked batch now db) t ≡ true
      → t.status ≡ TaskStatus.running
  unfolding is_among expired has_expired
  expired-running locked batch now t mt hit =
      let (u, mu, e) = mem-of_exists_where _ (expired locked batch now db) hit in
      let r =
        mem-select (λ x. has_expired now x && not (locked x.id)) db.tasks
          (mem-order_by (λ x. expiry x.lease_expires) _ (mem-take batch _ mu)) in
      let same : t ≡ u = (ordered.keyed t u mt r.0).by_id (ground arith) in
      let runs : u.status ≡ TaskStatus.running = ground (arith, r.1) in
      ap (λ (x : Task). x.status) same ∙ runs

  pub reap-Ordered :
      (locked : ℕ → Bool) (batch : ℕ) (jitter : ℕ → ℕ) (now : ℕ)
      → Ordered (reap locked batch jitter now db).0 held
  unfolding reap
  reap-Ordered locked batch jitter now =
      IsOrdered-update_tasks _ (reclaim jitter now)
        (record { id = λ t. refl; agent_id = λ t. refl; seq = λ t. refl }) ordered
        (λ a t ma mt own hit placed.
          reclaim-Placed a t jitter now (expired-running locked batch now t mt hit) placed)

  complete-Placed : (a : Agent) (t : Task) (now : ℕ) → Placed a t → Placed (complete now a) t
  complete-Placed a t now placed = ground arith

  pub finalise_agents-Ordered :
      (locked : ℕ → Bool) (batch now : ℕ) → Ordered (finalise_agents locked batch now db).0 held
  unfolding finalise_agents
  finalise_agents-Ordered locked batch now =
      IsOrdered-update_agents _ (complete now) (λ a. refl) ordered
        (λ a t ma mt own hit. complete-Placed a t now)
