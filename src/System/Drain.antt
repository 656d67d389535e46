-- ===== src/System/Drain.antt =====
-- worker/main.py: the loop of a worker that nothing disturbs, until every agent is done.
use reliable_ai_agents.Prelude.{
  ℕ, ◌≤◌, ◌<◌, ◌≡◌, ◌⊎◌, inl, inr, refl, sym, ap, ◌∙◌, subst, String, eq_refl, str_eq, Bool, true,
  false, Option, some, none, List, [], ◌∷◌, Memᴰ, arith, length, map, All, Bool-cases, Option-cases,
  exists_where, update_where, exists_where-of_mem,
}
use reliable_ai_agents.Schema.{Agent, AgentStatus, Task, Reservation, Tier, Db}
use reliable_ai_agents.Json.{Json}
use reliable_ai_agents.Tiers.{cost_of}
use reliable_ai_agents.Registry.{Registry}
use reliable_ai_agents.Worker.Claim.{at_cursor, claimable, next_claim, claim_one}
use reliable_ai_agents.Worker.Executor.{Labels}
use reliable_ai_agents.Worker.Process.{Setting, idle, after_claim, process_one}
use reliable_ai_agents.Worker.Checkpoint.{at_position}
use reliable_ai_agents.Worker.Loop.{next_idle, work}
use reliable_ai_agents.Orchestrator.Queue.Gauge.{nothing-due}
use reliable_ai_agents.System.Moves.{next_claim-at_cursor}
use reliable_ai_agents.System.Progress.{checked}
use reliable_ai_agents.System.Runs.{IsSettled, process_one-Checks}
use reliable_ai_agents.System.Remaining.{remaining, turns_left, remaining-le}
use reliable_ai_agents.System.Ready.{IsReady, turns_left-checked, checked-IsReady}

-- When a turn claims, starts and finishes.
pub record Turn : Type 0 where
  pub claimed_at : ℕ
  pub started : ℕ
  pub finished_at : ℕ

-- Nothing writes in the gaps, no row is locked, and a task ends before its first heartbeat.
abbrev pub undisturbed : String → String → ℕ → Registry → List Tier → Turn → Setting
undisturbed tier worker_id ttl registry ladder turn = record {
  pool_tier = tier;
  worker_id = worker_id;
  ttl = ttl;
  registry = registry;
  ladder = ladder;
  locked = λ id. false;
  claimed_at = turn.claimed_at;
  started = turn.started;
  finished_at = turn.finished_at;
  rounds = [];
  meanwhile = λ i db. db;
}

abbrev pub AllDone : List Agent → Type 0
AllDone agents = (a : Agent) → Memᴰ a agents → a.status ≡ AgentStatus.completed

abbrev pub agent_ids : List Agent → List ℕ
agent_ids agents = map (λ (a : Agent). a.id) agents

agent_ids-update :
    (p : Agent → Bool) (f : Agent → Agent) (xs : List Agent)
    → ((x : Agent) → (f x).id ≡ x.id)
    → agent_ids (update_where p f xs) ≡ agent_ids xs
unfolding update_where
agent_ids-update p f [] same = refl
agent_ids-update p f (x ∷ xs) same = elim (Bool-cases (p x)) [
  | inl e ↦ rw (e, same x, agent_ids-update p f xs same) refl
  | inr e ↦ rw (e, agent_ids-update p f xs same) refl
]

turns_left-Done : (agents : List Agent) → AllDone agents → turns_left agents ≡ 0
unfolding turns_left
turns_left-Done [] h = refl
turns_left-Done (a ∷ rest) h =
    let rest_zero = turns_left-Done rest (λ b m. h b (Memᴰ.tail m)) in
    let s = h a (Memᴰ.head refl) in rw s (omega (arith, rest_zero))

module _ (tier worker_id : String) (ttl due : ℕ) (registry : Registry) (ladder : List Tier) where
  done_of_no_turns :
      (db : Db) → IsReady tier due registry db → turns_left db.agents ≤ 0 → AllDone db.agents
  done_of_no_turns db ready zero_left a m = elim (ready.served a m) [
    | inl completed ↦ completed
    | inr (running, more, rows) ↦
        let left = remaining-le db.agents m in
        let some_left : 0 < remaining a = ground (arith, running, more) in
        absurd (omega (arith, left, some_left, zero_left))
  ]

  claims_nothing :
      (db : Db) (now : ℕ)
      → next_claim (λ id. false) db now tier ≡ none
      → claim_one (λ id. false) now tier worker_id ttl db ≡ (db, none)
  unfolding claim_one
  claims_nothing db now nothing = rw nothing refl

  -- Where nothing can be claimed, nothing is left to do.
  done_of_no_claim :
      (db : Db) (now : ℕ)
      → IsReady tier due registry db
      → due ≤ now
      → next_claim (λ id. false) db now tier ≡ none
      → AllDone db.agents
  unfolding claimable at_cursor
  done_of_no_claim db now ready late nothing a m = elim (ready.served a m) [
    | inl completed ↦ completed
    | inr (running, more, rows) ↦
        let (t, mt, own, place, pending) = rows a.cursor (omega arith) more in
        let able = ready.doable t mt pending in
        let idle_row =
          nothing-due now db tier worker_id ttl
            (ap (λ (r : Db × Option Task). r.1) (claims_nothing db now nothing)) t mt in
        let joined : exists_where (at_cursor t) db.agents ≡ true =
          exists_where-of_mem (at_cursor t) db.agents m (ground (arith, own, place, running)) in
        let text : str_eq t.tier tier ≡ true = rw able.0 (eq_refl tier) in
        absurd (ground (arith, idle_row, joined, pending, able.1, late, text))
  ]

  module _ (sha256 : ℕ × ℕ × String → ℕ) (label : Labels) (poll_ms : ℕ) (cost tokens : ℕ)
      (priced : cost_of tier ladder ≡ some (cost, tokens)) where
    abbrev setting : Turn → Setting
    setting = undisturbed tier worker_id ttl registry ladder

    idle_turn :
        (turn : Turn) (db : Db)
        → next_claim (λ id. false) db turn.claimed_at tier ≡ none
        → process_one sha256 label (setting turn) db ≡ (db, idle)
    unfolding process_one after_claim
    idle_turn turn db nothing = rw (claims_nothing db turn.claimed_at nothing) refl

    -- The checkpoint after a run that left the reservations `rows`.
    one_done :
        (turn : Turn) (db : Db) (t : Task)
        → IsReady tier due registry db
        → next_claim (λ id. false) db turn.claimed_at tier ≡ some t
        → (rows : List Reservation) → IsSettled rows
        → (result : Json) (charged used : ℕ)
        → let end_db =
            checked (setting turn) t result charged used (record db { idempotency = rows }) in
          IsReady tier due registry end_db
          × (agent_ids end_db.agents ≡ agent_ids db.agents)
          × ((turns_left end_db.agents < turns_left db.agents) ⊎ (turns_left end_db.agents ≡ 0))
    unfolding next_claim claimable
    one_done turn db t ready claimed rows calm result charged used =
        let run_db : Db = record db { idempotency = rows } in
        let ready' : IsReady tier due registry (record db { idempotency = rows }) = record {
          task_ids = ready.task_ids;
          agent_ids = ready.agent_ids;
          served = ready.served;
          settled = calm;
          doable = ready.doable;
        } in
        (
          checked-IsReady tier due registry (setting turn) run_db t claimed ready' result charged
              used,
          agent_ids-update (at_position t.agent_id t.seq) _ db.agents (λ a. refl),
          inl (
              turns_left-checked tier due registry (setting turn) run_db t claimed ready' result
                charged used),
        )

    -- A turn does one of the tasks that are left, or finds every agent done and changes nothing.
    turn-cases :
        (turn : Turn) (db : Db)
        → due ≤ turn.claimed_at
        → IsReady tier due registry db
        → let r = process_one sha256 label (setting turn) db in
          IsReady tier due registry r.0
          × (agent_ids r.0.agents ≡ agent_ids db.agents)
          × ((turns_left r.0.agents < turns_left db.agents) ⊎ (turns_left r.0.agents ≡ 0))
    turn-cases turn db late ready =
        elim (Option-cases (next_claim (λ id. false) db turn.claimed_at tier)) [
          | inl nothing ↦
              let e : process_one sha256 label (setting turn) db ≡ (db, idle) =
                idle_turn turn db nothing in
              rw e (
                ready,
                refl,
                inr (
                    turns_left-Done db.agents
                      (done_of_no_claim db turn.claimed_at ready late nothing)),
              )
          | inr (t, claimed) ↦
              let (m, pending, at) =
                next_claim-at_cursor (λ id. false) turn.claimed_at tier db t claimed in
              let (its_tier, due_by, (task_def, known, (result, answers))) =
                ready.doable t m pending in
              let (rows, calm, (value, (charged, (used, e)))) =
                process_one-Checks (setting turn) db t claimed sha256 label ready.settled
                  (λ i d. refl) refl task_def result cost tokens known
                  (λ ctx h. answers ctx (h ∙ its_tier))
                  (subst (λ name. cost_of name ladder ≡ some (cost, tokens)) (sym its_tier)
                    priced) in
              rw e (one_done turn db t ready claimed rows calm value charged used)
        ]

    -- A worker that nothing disturbs, and whose turns are at least as many as the tasks that the
    -- running agents still have before them, completes every agent of the database and loses none.
    -- Each agent is completed already, or it runs with a pending row for each task from its cursor on;
    -- agents and tasks have distinct ids; every pending task is of the worker's tier and due when the
    -- turns claim, its code is registered and returns at that tier, with a side effect or without, and
    -- the tier has a price; and no reservation is in flight.
    pub work-AllDone :
        (turns : List Turn) (idle_count : ℕ) (db : Db)
        → All (λ (turn : Turn). due ≤ turn.claimed_at) turns
        → IsReady tier due registry db
        → turns_left db.agents ≤ length turns
        → let end_db = (work sha256 label poll_ms (map setting turns) idle_count db).0 in
          AllDone end_db.agents × (agent_ids end_db.agents ≡ agent_ids db.agents)
    unfolding work
    work-AllDone [] idle_count db late ready enough = (done_of_no_turns db ready enough, refl)
    work-AllDone (turn ∷ turns) idle_count db late ready enough =
        let r = process_one sha256 label (setting turn) db in
        let (ready', same, less) = turn-cases turn db late.0 ready in
        let enough' : turns_left r.0.agents ≤ length turns = elim less [
          | inl fewer ↦ omega (arith, enough, fewer)
          | inr zero_left ↦ omega (arith, zero_left)
        ] in
        let (all_done, ids) =
          work-AllDone turns (next_idle r.1 idle_count) r.0 late.1 ready' enough' in
        (all_done, ids ∙ same)
