-- ===== src/System/Silent.antt =====
-- The dead tasks and the failed agents in a state that transactions, in any order, have reached.
use mathlib.Core.List.Memᴰ
use reliable_ai_agents.Prelude.{
  ℕ, zero, suc, ◌+◌, ◌≡◌, subst, inl, inr, String, Bool, Option, none, some, some-injective, List,
  [], ◌∷◌, ◌++◌, Memᴰ, arith, ltb, length, get_or, Bool-cases, Option-cases, exists_where,
}
use reliable_ai_agents.Schema.{Agent, AgentStatus, Tier, Task, TaskStatus, DeadLetter, Db}
use reliable_ai_agents.Tiers.{base_tier}
use reliable_ai_agents.Worker.Claim.{next_claim, claim_one}
use reliable_ai_agents.Worker.Heartbeat.{extend, renew}
use reliable_ai_agents.Orchestrator.Reaper.{reclaim, reap}
use reliable_ai_agents.Orchestrator.Queue.{
  new_task, conflicts, insert_missing, stalled, repair_stalled, complete, finalise_agents,
}
use reliable_ai_agents.Orchestrator.Ledger.{begin, settle, release, reconcile}
use reliable_ai_agents.Scale.{active_agents}
use reliable_ai_agents.Api.{
  Submission, new_agent, plan_rows, insert_agent, insert_agents, admit, seed, chaos_config,
}
use reliable_ai_agents.System.Submits.{submit_agents-cases}
use reliable_ai_agents.System.Steps.{
  Sys, Step, claims, renews, commits, reports, reaps, repairs, finalises, classifies, submits,
  seeds, begins, settles, releases, reconciles, configures, Reach, here, next, IsOrderedSys,
  Reach-IsOrdered,
}
use reliable_ai_agents.System.Order.{fresh_start, fresh_start-IsOrdered}
use reliable_ai_agents.System.Letters.{
  HasLetter, Mourned, Marked, Fallen, Each, Each-update, Each-append, Each-one, lively-Marked,
  grant-Mourned, checkpoint_success-Mourned, report_failure-Mourned,
}
use reliable_ai_agents.System.Mourning.{classify-Mourned}

module _ (letters : List DeadLetter) (uuid : ℕ → ℕ) (tier : String) (now : ℕ) where
  insert_missing-Marked :
      (i : ℕ) (agents : List Agent) (tasks : List Task)
      → Each (Marked letters) tasks
      → Each (Marked letters) (insert_missing uuid i tier now agents tasks).0
  unfolding insert_missing new_task
  insert_missing-Marked i [] tasks marked = marked
  insert_missing-Marked i (a ∷ rest) tasks marked =
      let row = new_task (uuid i) a.id a.cursor (get_or a.plan a.cursor 0) tier now in
      elim (Bool-cases (exists_where (conflicts row) tasks)) [
        | inl there ↦ rw there (insert_missing-Marked (suc i) rest tasks marked)
        | inr absent ↦ rw absent (
            insert_missing-Marked (suc i) rest (tasks ++ row ∷ []) (
              Each-append (Marked letters) tasks (row ∷ []) marked
                (Each-one (Marked letters) row (λ dead. cc))))
      ]

  plan_rows-Marked :
      (i agent_id seq : ℕ) (plan : List ℕ)
      → Each (Marked letters) (plan_rows uuid i agent_id tier now seq plan)
  unfolding plan_rows new_task
  plan_rows-Marked i agent_id seq [] = λ t m. absurd (Memᴰ.not-nil m)
  plan_rows-Marked i agent_id seq (def ∷ rest) =
      let row = new_task (uuid i) agent_id seq def tier now in
      Each-append (Marked letters) (row ∷ [])
        (plan_rows uuid (suc i) agent_id tier now (suc seq) rest)
        (Each-one (Marked letters) row (λ dead. cc))
        (plan_rows-Marked (suc i) agent_id (suc seq) rest)

insert_agents-Mourned :
    (uuid : ℕ → ℕ) (tier : String) (now n i : ℕ) (plan : List ℕ) (db : Db) (ids : List ℕ)
    → Mourned db
    → Mourned (insert_agents uuid i n plan tier now db ids).0
unfolding insert_agents insert_agent new_agent
insert_agents-Mourned uuid tier now zero i plan db ids mourned = mourned
insert_agents-Mourned uuid tier now (suc n) i plan db ids mourned =
    insert_agents-Mourned uuid tier now n (suc i + length plan) plan
      (insert_agent uuid i plan tier now db) (ids ++ uuid i ∷ [])
      (
        Each-append (Marked db.dlq) db.tasks _ mourned.0
            (plan_rows-Marked db.dlq uuid tier now (suc i) (uuid i) 0 plan),
        Each-append (Fallen db.dlq) db.agents _ mourned.1
            (Each-one (Fallen db.dlq) (new_agent (uuid i) plan now) (λ failed. cc)),
      )

admit-Mourned :
    (max_active : ℕ) (uuid : ℕ → ℕ) (body : Submission) (tier : String) (now : ℕ) (db : Db)
    → Mourned db
    → Mourned (admit max_active uuid body tier now db).0
unfolding admit
admit-Mourned max_active uuid body tier now db mourned =
    elim (Bool-cases (ltb max_active (active_agents db + body.count))) [
      | inl full ↦ rw full mourned
      | inr room ↦
          rw room (insert_agents-Mourned uuid tier now body.count 0 body.plan db [] mourned)
    ]

repair_stalled-Mourned :
    (locked : ℕ → Bool) (batch : ℕ) (uuid : ℕ → ℕ) (ladder : List Tier) (now : ℕ) (db db' : Db)
    (rows : List Task)
    → Mourned db
    → repair_stalled locked batch uuid ladder now db ≡ some (db', rows)
    → Mourned db'
unfolding repair_stalled
repair_stalled-Mourned locked batch uuid ladder now db db' rows mourned h =
    elim (Option-cases (base_tier ladder)) [
      | inl empty ↦
          let q : ◌≡◌ {A = Option (Db × List Task)} none (some (db', rows)) =
            (rw (empty, repair_stalled) at h) in
          cc
      | inr tier ↦
          subst (λ (r : Db × List Task). Mourned r.0)
            (some-injective _ _ (rw (tier.1, repair_stalled) at h))
            (
              insert_missing-Marked db.dlq uuid tier.0 now 0 (stalled locked batch db) db.tasks
                  mourned.0,
              mourned.1,
            )
    ]

same-Mourned :
    (db db' : Db)
    → db'.agents ≡ db.agents
    → db'.tasks ≡ db.tasks
    → db'.dlq ≡ db.dlq
    → Mourned db
    → Mourned db'
same-Mourned db db' ea et el mourned = rw (ea, et, el) mourned

Step-Mourned : {s t : Sys} → Step s t → IsOrderedSys s → Mourned s.db → Mourned t.db
unfolding renew reap settle release reconcile seed begin chaos_config claim_one finalise_agents
Step-Mourned {s} (claims locked now pool_tier worker_id ttl) o h =
    grant-Mourned s.db h worker_id ttl now (next_claim locked s.db now pool_tier)
Step-Mourned {s} (renews now hb) o h = (
  Each-update (Marked s.db.dlq) _ (extend now hb.ttl) s.db.tasks (λ t m hit before. before) h.0,
  h.1,
)
Step-Mourned {s} (commits task result cost tokens started worker_id now m) o h =
    checkpoint_success-Mourned s.db h task result cost tokens started worker_id now
Step-Mourned {s} (reports task failure started worker_id now) o h =
    report_failure-Mourned s.db h task failure started worker_id now
Step-Mourned {s} (reaps locked batch jitter now) o h =
    (lively-Marked s.db h _ (reclaim jitter now) (λ t dead. cc), h.1)
Step-Mourned {s} (repairs locked batch uuid ladder now db rows fresh e) o h =
    repair_stalled-Mourned locked batch uuid ladder now s.db db rows h e
Step-Mourned {s} (finalises locked batch now) o h = (
  h.0,
  Each-update (Fallen s.db.dlq) _ (complete now) s.db.agents (λ a m hit before failed. cc) h.1,
)
Step-Mourned {s} (classifies locked limit ladder flags now db counts e) o h =
    classify-Mourned ladder flags now locked limit s.held s.db db counts o h e
Step-Mourned {s} (submits max_active task_defs ladder flags uuid body now fresh) o h =
    submit_agents-cases max_active task_defs ladder flags uuid body now s.db Mourned h
      (λ tier. admit-Mourned max_active uuid body tier now s.db h)
Step-Mourned {s} (seeds uuid n plan now fresh) o h =
    insert_agents-Mourned uuid "junior" now n 0 plan s.db [] h
Step-Mourned {s} (begins key agent_id seq action_type now) o h =
    same-Mourned s.db (begin key agent_id seq action_type now s.db).0 (ground arith) (ground arith)
      (ground arith) h
Step-Mourned (settles key result now) o h = h
Step-Mourned (releases key) o h = h
Step-Mourned (reconciles locked batch age now) o h = h
Step-Mourned {s} (configures ladder body) o h =
    same-Mourned s.db (chaos_config ladder body s.db).0 (ground arith) (ground arith) (ground arith)
      h

Reach-Mourned : {s t : Sys} → Reach s t → IsOrderedSys s → Mourned s.db → Mourned t.db
Reach-Mourned here o h = h
Reach-Mourned (next r st) o h = Step-Mourned st (Reach-IsOrdered r o) (Reach-Mourned r o h)

-- Work is never given up silently: after any transactions, in any order, from a database without
-- agents, every dead task and every failed agent has a dead letter of that agent.
pub losses_mourned :
    (db₀ : Db) (s : Sys)
    → Reach (fresh_start db₀) s
    → ((t : Task) → Memᴰ t s.db.tasks → t.status ≡ TaskStatus.dead → HasLetter t.agent_id s.db.dlq)
      × ((a : Agent) → Memᴰ a s.db.agents → a.status ≡ AgentStatus.failed → HasLetter a.id s.db.dlq)
losses_mourned db₀ s reach =
    Reach-Mourned reach (fresh_start-IsOrdered db₀)
      (λ t m. absurd (Memᴰ.not-nil m), λ a m. absurd (Memᴰ.not-nil m))
