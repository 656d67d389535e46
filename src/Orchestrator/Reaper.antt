-- ===== src/Orchestrator/Reaper.antt =====
-- orchestrator/reaper.py: expired leases go back to the queue. `locked` says which rows other open
-- transactions hold; `jitter` is the random delay, in milliseconds, drawn for a row.
pub mod Complete
use reliable_ai_agents.Prelude.{
  ℕ, ◌+◌, Bool, true, false, not, ◌&&◌, Option, none, some, List, ◌++◌, map, ltb, ◌==◌, take,
  select, exists_where, count_where, update_where, order_by,
}
use reliable_ai_agents.Schema.{Task, TaskStatus, Attempt, Outcome, infra, Detail, Db, is_running}

abbrev pub is_before : ℕ → Option ℕ → Bool
is_before now none = false
is_before now (some expires) = ltb expires now

abbrev pub expiry : Option ℕ → ℕ
expiry none = 0
expiry (some expires) = expires

unfoldable pub has_expired : ℕ → Task → Bool
has_expired now t = is_running t.status && is_before now t.lease_expires

-- The CTE `expired`.
unfoldable pub expired : (ℕ → Bool) → ℕ → ℕ → Db → List Task
unfolding has_expired
expired locked batch now db = take batch (
    order_by (λ t. expiry t.lease_expires)
      (select (λ t. has_expired now t && not (locked t.id)) db.tasks))

abbrev pub reclaim : (ℕ → ℕ) → ℕ → Task → Task
reclaim jitter now t = record t {
  status = TaskStatus.pending;
  lease_owner = none;
  lease_expires = none;
  failure_class = some infra;
  last_error = some Detail.lease_expired;
  next_run_at = now + jitter t.id;
  updated_at = now;
}

-- The columns that the INSERT leaves out have their defaults: no cost, started now.
abbrev pub evidence : ℕ → Task → Attempt
evidence now t = record {
  task_instance_id = t.id;
  agent_id = t.agent_id;
  seq = t.seq;
  attempt_no = t.attempt;
  tier = t.tier;
  worker_id = t.lease_owner;
  outcome = Outcome.reclaimed;
  failure_class = some infra;
  cost_units = 0;
  tokens = 0;
  started_at = now;
  ended_at = some now;
}

unfoldable pub is_among : List Task → Task → Bool
is_among rows t = exists_where (λ u. u.id == t.id) rows

unfoldable pub reap : (ℕ → Bool) → ℕ → (ℕ → ℕ) → ℕ → Db → Db × List Task
unfolding is_among
reap locked batch jitter now db =
    let rows = expired locked batch now db in
    (
      record db {
        tasks = update_where (is_among rows) (reclaim jitter now) db.tasks;
        attempts = db.attempts ++ map (evidence now) rows;
      },
      rows,
    )

unfoldable pub orphaned_leases : ℕ → Db → ℕ
unfolding has_expired
orphaned_leases now db = count_where (has_expired now) db.tasks
