-- ===== src/Scale.antt =====
-- scale/autoscaler.py: how many orchestrators to run, and when to change the number. Times are
-- milliseconds of the monotonic clock; the docker commands are the caller's.
pub mod Bounds
pub mod Command
use reliable_ai_agents.Prelude.{
  ℕ, zero, suc, ◌+◌, ◌-◌, ◌*◌, ◌/◌, min, max, Bool, true, false, not, ◌&&◌, Option, none, some,
  List, [], ◌∷◌, if◌then◌else◌, ltb, ◌==◌, count_where,
}
use reliable_ai_agents.Schema.{Db, is_live}
use reliable_ai_agents.Orchestrator.Reaper.{has_expired}

pub record Config : Type 0 where
  pub per_agent : ℕ
  pub min_replicas : ℕ
  pub max_replicas : ℕ
  pub cooldown_down_ms : ℕ

abbrev pub defaults : Config
defaults = record { per_agent = 10; min_replicas = 1; max_replicas = 10; cooldown_down_ms = 30000 }

abbrev pub or_default : ℕ → Option ℕ → ℕ
or_default d none = d
or_default d (some n) = n

-- `__init__`: an option that was given replaces its default.
unfoldable pub configured : Option ℕ → Option ℕ → Option ℕ → Config
configured per_agent min_replicas max_replicas = record {
  per_agent = or_default 10 per_agent;
  min_replicas = or_default 1 min_replicas;
  max_replicas = or_default 10 max_replicas;
  cooldown_down_ms = 30000;
}

abbrev pub max_active_agents : ℕ
max_active_agents = 100

-- ACTIVE_AGENTS_SQL and BACKLOG_SQL
unfoldable pub active_agents : Db → ℕ
active_agents db = count_where (λ a. is_live a.status) db.agents

unfoldable pub reaper_backlog : ℕ → Db → ℕ
unfolding has_expired
reaper_backlog now db = count_where (has_expired now) db.tasks

-- math.ceil(a / b), for b above 0
abbrev pub ceil_div : ℕ → ℕ → ℕ
ceil_div a b = (a + (b - 1)) / b

-- `per_agent` is above 0; with 0 the source divides by zero.
unfoldable pub desired_replicas : Config → ℕ → ℕ → ℕ
desired_replicas cfg agents backlog =
    let by_agents = if agents == 0 then 0 else ceil_div agents cfg.per_agent in
    let wanted = max cfg.min_replicas by_agents in
    let with_backlog = if ltb 0 backlog then max wanted (ceil_div backlog 50 + 1) else wanted in
    min with_backlog cfg.max_replicas

-- `_last_scale_down` and `_current`.
pub record Scaler : Type 0 where
  pub last_scale_down : ℕ
  pub current : Option ℕ

abbrev pub fresh : Scaler
fresh = record { last_scale_down = 0; current = none }

-- `running` is what docker reports; the flag says that the scale command was run.
unfoldable pub apply : Config → ℕ → ℕ → ℕ → Scaler → Scaler × Bool
apply cfg replicas running now s =
    let seen = record s { current = some running } in
    if replicas == running
    then (seen, false)
    else (if ltb replicas running
        then (if ltb (now - s.last_scale_down) cfg.cooldown_down_ms
            then (seen, false)
            else (record seen { last_scale_down = now }, true))
        else (seen, true))

pub record Tick : Type 0 where
  pub agents : ℕ
  pub backlog : ℕ
  pub replicas : Option ℕ
  pub desired : ℕ
  pub changed : Bool
  pub capped : Bool

unfoldable pub tick : Config → ℕ → ℕ → Db → Scaler → Scaler × Tick
unfolding desired_replicas apply active_agents reaper_backlog
tick cfg running now db s =
    let agents = active_agents db in
    let backlog = reaper_backlog now db in
    let want = desired_replicas cfg agents backlog in
    let (s', changed) = apply cfg want running now s in
    (
      s',
      record {
        agents = agents;
        backlog = backlog;
        replicas = s'.current;
        desired = want;
        changed = changed;
        capped = want == cfg.max_replicas;
      },
    )

-- What a round of `run` logs: a change, and the warning at the ceiling.
pub record Logged : Type 0 where
  pub change : Bool
  pub ceiling : Bool

-- A round of the loop of `run`: what docker reports and the clock, or an exception before
-- `apply`.
pub data Round : Type 0 where
  reads : ℕ → ℕ → Db → Round
  raises : Round

unfoldable pub run : Config → List Round → Scaler → Scaler × List Logged
unfolding tick
run cfg [] s = (s, [])
run cfg (raises ∷ rest) s = run cfg rest s
run cfg (reads running now db ∷ rest) s =
    let (s', state) = tick cfg running now db s in
    let (end_s, logged) = run cfg rest s' in
    (
      end_s,
      record { change = state.changed; ceiling = state.capped && ltb 0 state.backlog } ∷ logged,
    )
