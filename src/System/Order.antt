-- ===== src/System/Order.antt =====
-- The tasks of an agent in a state that transactions, in any order, have reached.
use mathlib.Core.List.Memᴰ
use reliable_ai_agents.Prelude.{◌<◌, ◌≤◌, ◌≡◌, ◌↔◌, ◌⊎◌, sym, ◌∙◌, [], Memᴰ, arith}
use reliable_ai_agents.Schema.{Agent, Task, TaskStatus, Db}
use reliable_ai_agents.System.Ordered.{Placed}
use reliable_ai_agents.System.Steps.{Sys, Reach, IsOrderedSys, Reach-IsOrdered}

-- A database to which no agent was submitted yet, whatever its ladder and flags.
abbrev pub fresh_start : Db → Sys
fresh_start db = record { db = record db { agents = []; tasks = [] }; held = [] }

pub fresh_start-IsOrdered : (db : Db) → IsOrderedSys (fresh_start db)
fresh_start-IsOrdered db = record {
  keyed = λ t u m. absurd (Memᴰ.not-nil m);
  agents_keyed = λ a b m. absurd (Memᴰ.not-nil m);
  placed = λ a t m. absurd (Memᴰ.not-nil m);
  held_known = λ h m. absurd (Memᴰ.not-nil m);
}

placed_lem :
    (a : Agent) (t : Task)
    → Placed a t
    → ((t.status ≡ TaskStatus.succeeded) ↔ (t.seq < a.cursor))
      × ((t.seq ≤ a.cursor) ⊎ (t.status ≡ TaskStatus.pending) ⊎ (t.status ≡ TaskStatus.dead))
placed_lem a t placed = ((placed.only_before, placed.before), ground arith)

running_at_cursor :
    (a : Agent) (t : Task) → Placed a t → t.status ≡ TaskStatus.running → t.seq ≡ a.cursor
running_at_cursor a t placed runs = ground arith

module _ (db₀ : Db) (s : Sys) (reach : Reach (fresh_start db₀) s) where
  ordered : IsOrderedSys s
  ordered = Reach-IsOrdered reach (fresh_start-IsOrdered db₀)

  -- After any transactions, in any order, from a database without agents: a task of an agent has
  -- succeeded exactly when it lies before the agent's cursor, and a task after the cursor is pending
  -- or dead.
  pub tasks_in_order :
      (a : Agent) (t : Task)
      → Memᴰ a s.db.agents
      → Memᴰ t s.db.tasks
      → t.agent_id ≡ a.id
      → ((t.status ≡ TaskStatus.succeeded) ↔ (t.seq < a.cursor))
        × ((t.seq ≤ a.cursor) ⊎ (t.status ≡ TaskStatus.pending) ⊎ (t.status ≡ TaskStatus.dead))
  tasks_in_order a t ma mt e = placed_lem a t (ordered.placed a t ma mt e)

  -- After any transactions, in any order, from a database without agents, an agent has at most one
  -- running task, and it is the one at its cursor.
  pub one_running :
      (a : Agent) (t u : Task)
      → Memᴰ a s.db.agents
      → Memᴰ t s.db.tasks
      → Memᴰ u s.db.tasks
      → t.agent_id ≡ a.id
      → u.agent_id ≡ a.id
      → t.status ≡ TaskStatus.running
      → u.status ≡ TaskStatus.running
      → (t ≡ u) × (t.seq ≡ a.cursor)
  one_running a t u ma mt mu et eu rt ru =
      let st = running_at_cursor a t (ordered.placed a t ma mt et) rt in
      let su = running_at_cursor a u (ordered.placed a u ma mu eu) ru in
      ((ordered.keyed t u mt mu).by_position (et ∙ sym eu) (st ∙ sym su), st)
