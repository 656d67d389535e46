-- ===== src/System/Completed.antt =====
-- The transactions, against the rule that a completed agent has its whole plan behind its cursor.
use mathlib.Core.List.Memᴰ
use reliable_ai_agents.Prelude.{
  ℕ, zero, suc, ◌+◌, ◌≤◌, ◌≡◌, refl, sym, subst, inl, inr, String, Bool, true, Option, none, some,
  List, [], ◌∷◌, ◌++◌, Memᴰ, arith, ◌==◌, length, Bool-cases, mem-take, mem-select, mem-order_by,
  exists_where, update_where, mem-update_where, mem-of_exists_where,
}
use reliable_ai_agents.Json.{Json}
use reliable_ai_agents.Schema.{Agent, AgentStatus, Tier, Task, Reason, Db}
use reliable_ai_agents.Failures.{TaskFailure}
use reliable_ai_agents.Runtime.{Flags}
use reliable_ai_agents.Worker.Claim.{grant}
use reliable_ai_agents.Worker.Heartbeat.{fenced}
use reliable_ai_agents.Worker.Checkpoint.{at_position, advance, checkpoint_success, report_failure}
use reliable_ai_agents.Orchestrator.Queue.{
  repair_stalled, is_exhausted, exhausted, is_chosen, complete, finalise_agents,
}
use reliable_ai_agents.Orchestrator.Classify.{
  Action, retry, promote, dlq, fail_row, kill, route_one,
}
use reliable_ai_agents.Orchestrator.Classify.Routing.{retry-eq, promote-eq}
use reliable_ai_agents.Orchestrator.Classify.Burial.{dlq_kills}
use reliable_ai_agents.Api.{insert_agent, insert_agents, new_agent}

-- A completed agent has no task of its plan left.
abbrev pub IsThrough : Agent → Type 0
IsThrough a = a.status ≡ AgentStatus.completed → length a.plan ≤ a.cursor

abbrev pub AllThrough : List Agent → Type 0
AllThrough agents = (a : Agent) → Memᴰ a agents → IsThrough a

pub AllThrough-update :
    (p : Agent → Bool) (f : Agent → Agent) (agents : List Agent)
    → ((a : Agent) → Memᴰ a agents → p a ≡ true → IsThrough a → IsThrough (f a))
    → AllThrough agents
    → AllThrough (update_where p f agents)
AllThrough-update p f agents moved through a m =
    let (b, mb, e) = mem-update_where p f agents m in
    subst IsThrough (sym e) (elim (Bool-cases (p b)) [
      | inl hit ↦ rw hit (moved b mb hit (through b mb))
      | inr miss ↦ rw miss (through b mb)
    ])

AllThrough-add :
    (row : Agent) (agents : List Agent)
    → IsThrough row
    → AllThrough agents
    → AllThrough (agents ++ row ∷ [])
AllThrough-add row agents own through a m = elim (Memᴰ.append_cases agents m) [
  | inl old ↦ through a old
  | inr fresh ↦ subst IsThrough (sym (Memᴰ.eq_of_singleton fresh)) own
]

pub grant-agents :
    (worker_id : String) (ttl now : ℕ) (db : Db) (o : Option Task)
    → (grant worker_id ttl now db o).0.agents ≡ db.agents
grant-agents worker_id ttl now db none = refl
grant-agents worker_id ttl now db (some t) = refl

advance-IsThrough :
    (seq : ℕ) (result : Json) (cost tokens now : ℕ) (a : Agent)
    → IsThrough a
    → IsThrough (advance seq result cost tokens now a)
advance-IsThrough seq result cost tokens now a through done = ground arith

module _ (db : Db) (through : AllThrough db.agents) where
  pub checkpoint_success-AllThrough :
      (task : Task) (result : Json) (cost tokens started : ℕ) (worker_id : String) (now : ℕ)
      → AllThrough (checkpoint_success task result cost tokens started worker_id now db).0.agents
  unfolding checkpoint_success
  checkpoint_success-AllThrough task result cost tokens started worker_id now =
      elim (Bool-cases (exists_where (fenced task.id worker_id) db.tasks)) [
        | inl holds ↦
            elim (Bool-cases (exists_where (at_position task.agent_id task.seq) db.agents)) [
              | inl there ↦
                  rw (holds, there)
                    (AllThrough-update _ (advance task.seq result cost tokens now) db.agents
                      (λ a m h. advance-IsThrough task.seq result cost tokens now a) through)
              | inr away ↦ rw (holds, away) through
            ]
        | inr lost ↦ rw lost through
      ]

  pub report_failure-agents :
      (task : Task) (failure : TaskFailure) (started : ℕ) (worker_id : String) (now : ℕ)
      → (report_failure task failure started worker_id now db).agents ≡ db.agents
  unfolding report_failure
  report_failure-agents task failure started worker_id now = ground arith

  chosen-IsThrough :
      (locked : ℕ → Bool) (batch now : ℕ) (a : Agent)
      → ((b : Agent) → Memᴰ b db.agents → a.id ≡ b.id → a ≡ b)
      → is_chosen (exhausted locked batch db) a ≡ true
      → length a.plan ≤ a.cursor
  unfolding is_chosen exhausted is_exhausted
  chosen-IsThrough locked batch now a unique h =
      let (b, mb, e) = mem-of_exists_where _ (exhausted locked batch db) h in
      let found =
        mem-select _ db.agents (mem-order_by (λ x. x.updated_at) _ (mem-take batch _ mb)) in
      let same = unique b found.0 (ground (arith, e)) in
      subst (λ (x : Agent). length x.plan ≤ x.cursor) (sym same) (ground (arith, found.1))

  pub finalise_agents-AllThrough :
      (locked : ℕ → Bool) (batch now : ℕ)
      → ((a b : Agent) → Memᴰ a db.agents → Memᴰ b db.agents → a.id ≡ b.id → a ≡ b)
      → AllThrough (finalise_agents locked batch now db).0.agents
  unfolding finalise_agents
  finalise_agents-AllThrough locked batch now unique =
      AllThrough-update _ (complete now) db.agents
        (λ a m h before done. chosen-IsThrough locked batch now a (λ b mb. unique a b m mb) h)
        through

  pub repair_stalled-agents :
      (locked : ℕ → Bool) (batch : ℕ) (uuid : ℕ → ℕ) (ladder : List Tier) (now : ℕ) (db' : Db)
      (rows : List Task)
      → repair_stalled locked batch uuid ladder now db ≡ some (db', rows)
      → db'.agents ≡ db.agents
  unfolding repair_stalled
  repair_stalled-agents locked batch uuid ladder now db' rows h = ground arith

  kill-AllThrough :
      (task : Task) (reason : Reason) (now : ℕ) (db' : Db)
      → kill task reason now db ≡ some db'
      → AllThrough db'.agents
  unfolding kill
  kill-AllThrough task reason now db' h =
      let e : db'.agents ≡ update_where (λ a. a.id == task.agent_id) (fail_row now) db.agents =
        ground arith in
      subst AllThrough (sym e)
        (AllThrough-update _ (fail_row now) db.agents (λ a m hit before done. cc) through)

  pub route_one-AllThrough :
      (ladder : List Tier) (flags : Flags) (now : ℕ) (task : Task) (db' : Db) (action : Action)
      → route_one ladder flags now task db ≡ some (db', action)
      → AllThrough db'.agents
  route_one-AllThrough ladder flags now task db' retry h =
      subst (λ (d : Db). AllThrough d.agents) (sym (retry-eq ladder flags now task db db' h))
        through
  route_one-AllThrough ladder flags now task db' promote h =
      let (tier, above, e) = promote-eq ladder flags now task db db' h in
      subst (λ (d : Db). AllThrough d.agents) (sym e) through
  route_one-AllThrough ladder flags now task db' dlq h =
      dlq_kills ladder flags now task db (λ (d : Db). AllThrough d.agents) db'
        (λ reason. kill-AllThrough task reason now db') h

pub insert_agents-AllThrough :
    (uuid : ℕ → ℕ) (tier : String) (now n i : ℕ) (plan : List ℕ) (db : Db) (ids : List ℕ)
    → AllThrough db.agents
    → AllThrough (insert_agents uuid i n plan tier now db ids).0.agents
unfolding insert_agents insert_agent new_agent
insert_agents-AllThrough uuid tier now zero i plan db ids through = through
insert_agents-AllThrough uuid tier now (suc n) i plan db ids through =
    insert_agents-AllThrough uuid tier now n (suc i + length plan) plan
      (insert_agent uuid i plan tier now db) (ids ++ uuid i ∷ [])
      (AllThrough-add _ db.agents (λ done. cc) through)
