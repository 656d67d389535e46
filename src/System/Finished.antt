-- ===== src/System/Finished.antt =====
-- The completed agents in a state that transactions, in any order, have reached.
use mathlib.Core.List.Memᴰ
use reliable_ai_agents.Prelude.{
  ℕ, ◌<◌, ◌≤◌, ◌≡◌, sym, ap, subst, inl, inr, String, Option, none, some, some-injective, List, [],
  ◌∷◌, Memᴰ, arith, ltb, ◌+◌, Bool-cases, Option-cases,
}
use reliable_ai_agents.Schema.{Agent, AgentStatus, Tier, Task, TaskStatus, Db}
use reliable_ai_agents.Runtime.{Flags}
use reliable_ai_agents.Worker.Claim.{next_claim, claim_one}
use reliable_ai_agents.Worker.Heartbeat.{renew}
use reliable_ai_agents.Orchestrator.Reaper.{reap}
use reliable_ai_agents.Orchestrator.Classify.{Counts, route_one, route_all, take_failed, classify}
use reliable_ai_agents.Orchestrator.Ledger.{begin, settle, release, reconcile}
use reliable_ai_agents.Scale.{active_agents}
use reliable_ai_agents.Api.{Submission, admit, seed, chaos_config}
use reliable_ai_agents.System.Submits.{submit_agents-cases}
use reliable_ai_agents.System.Steps.{
  Sys, Step, claims, renews, commits, reports, reaps, repairs, finalises, classifies, submits,
  seeds, begins, settles, releases, reconciles, configures, Reach, here, next, IsOrderedSys,
  Reach-IsOrdered,
}
use reliable_ai_agents.System.Order.{fresh_start, fresh_start-IsOrdered, tasks_in_order}
use reliable_ai_agents.System.Completed.{
  AllThrough, grant-agents, checkpoint_success-AllThrough, report_failure-agents,
  finalise_agents-AllThrough, repair_stalled-agents, route_one-AllThrough, insert_agents-AllThrough,
}
use reliable_ai_agents.Prelude.{length}

route_all-AllThrough :
    (ladder : List Tier) (flags : Flags) (now : ℕ) (batch : List Task) (counts : Counts) (db : Db)
    → AllThrough db.agents
    → (db' : Db) (counts' : Counts)
    → route_all ladder flags now batch counts db ≡ some (db', counts')
    → AllThrough db'.agents
unfolding route_all
route_all-AllThrough ladder flags now [] counts db through db' counts' h =
    subst (λ (d : Db). AllThrough d.agents) (ap (λ (x : Db × Counts). x.0) (some-injective _ _ h))
      through
route_all-AllThrough ladder flags now (task ∷ rest) counts db through db' counts' h =
    elim (Option-cases (route_one ladder flags now task db)) [
      | inl stuck ↦
          let q : ◌≡◌ {A = Option (Db × Counts)} none (some (db', counts')) =
            (rw (stuck, route_all) at h) in
          cc
      | inr r ↦
          route_all-AllThrough ladder flags now rest _ r.0.0
            (route_one-AllThrough db through ladder flags now task r.0.0 r.0.1 r.1) db' counts'
            (rw (r.1, route_all) at h)
    ]

admit-AllThrough :
    (max_active : ℕ) (uuid : ℕ → ℕ) (body : Submission) (tier : String) (now : ℕ) (db : Db)
    → AllThrough db.agents
    → AllThrough (admit max_active uuid body tier now db).0.agents
unfolding admit
admit-AllThrough max_active uuid body tier now db through =
    elim (Bool-cases (ltb max_active (active_agents db + body.count))) [
      | inl full ↦ rw full through
      | inr room ↦
          rw room (insert_agents-AllThrough uuid tier now body.count 0 body.plan db [] through)
    ]

AllThrough-same :
    (agents agents' : List Agent) → agents' ≡ agents → AllThrough agents → AllThrough agents'
AllThrough-same agents agents' e = subst AllThrough (sym e)

Step-AllThrough :
    {s t : Sys} → Step s t → IsOrderedSys s → AllThrough s.db.agents → AllThrough t.db.agents
unfolding renew reap settle release reconcile classify seed begin chaos_config claim_one
Step-AllThrough {s} (claims locked now pool_tier worker_id ttl) o h =
    AllThrough-same _ _ (grant-agents worker_id ttl now s.db (next_claim locked s.db now pool_tier))
      h
Step-AllThrough (renews now hb) o h = h
Step-AllThrough {s} (commits task result cost tokens started worker_id now m) o h =
    checkpoint_success-AllThrough s.db h task result cost tokens started worker_id now
Step-AllThrough {s} (reports task failure started worker_id now) o h =
    AllThrough-same _ _ (report_failure-agents s.db h task failure started worker_id now) h
Step-AllThrough (reaps locked batch jitter now) o h = h
Step-AllThrough {s} (repairs locked batch uuid ladder now db rows fresh e) o h =
    AllThrough-same _ _ (repair_stalled-agents s.db h locked batch uuid ladder now db rows e) h
Step-AllThrough {s} (finalises locked batch now) o h =
    finalise_agents-AllThrough s.db h locked batch now o.agents_keyed
Step-AllThrough {s} (classifies locked limit ladder flags now db counts e) o h =
    route_all-AllThrough ladder flags now (take_failed locked limit s.db) _ s.db h db counts e
Step-AllThrough {s} (submits max_active task_defs ladder flags uuid body now fresh) o h =
    submit_agents-cases max_active task_defs ladder flags uuid body now s.db
      (λ (d : Db). AllThrough d.agents) h
      (λ tier. admit-AllThrough max_active uuid body tier now s.db h)
Step-AllThrough {s} (seeds uuid n plan now fresh) o h =
    insert_agents-AllThrough uuid "junior" now n 0 plan s.db [] h
Step-AllThrough {s} (begins key agent_id seq action_type now) o h =
    AllThrough-same s.db.agents (begin key agent_id seq action_type now s.db).0.agents
      (ground arith) h
Step-AllThrough (settles key result now) o h = h
Step-AllThrough (releases key) o h = h
Step-AllThrough (reconciles locked batch age now) o h = h
Step-AllThrough {s} (configures ladder body) o h =
    AllThrough-same s.db.agents (chaos_config ladder body s.db).0.agents (ground arith) h

Reach-AllThrough :
    {s t : Sys} → Reach s t → IsOrderedSys s → AllThrough s.db.agents → AllThrough t.db.agents
Reach-AllThrough here o h = h
Reach-AllThrough (next r st) o h = Step-AllThrough st (Reach-IsOrdered r o) (Reach-AllThrough r o h)

-- After any transactions, in any order, from a database without agents: a completed agent has its
-- whole plan behind its cursor, and a task of it at a position of the plan has succeeded.
pub completed_lem :
    (db₀ : Db) (s : Sys)
    → Reach (fresh_start db₀) s
    → (a : Agent) (t : Task) → Memᴰ a s.db.agents
    → Memᴰ t s.db.tasks
    → t.agent_id ≡ a.id
    → a.status ≡ AgentStatus.completed
    → t.seq < length a.plan
    → (length a.plan ≤ a.cursor) × (t.status ≡ TaskStatus.succeeded)
completed_lem db₀ s reach a t ma mt own done inside =
    let through =
      Reach-AllThrough reach (fresh_start-IsOrdered db₀) (λ b m. absurd (Memᴰ.not-nil m)) a ma
        done in
    (through, (tasks_in_order db₀ s reach a t ma mt own).0.1 (omega (arith, through, inside)))
