-- ===== src/Worker/Claim.antt =====
-- worker/claim.py: the claim query. A transaction is one step; `locked` says which rows other open
-- transactions hold, which SKIP LOCKED passes over.
pub mod Oldest
use reliable_ai_agents.Prelude.{
  ℕ, ◌+◌, ◌*◌, String, str_eq, Bool, not, ◌&&◌, Option, none, some, leb, ◌==◌, head?, select,
  exists_where, update_where, order_by,
}
use reliable_ai_agents.Schema.{Agent, Task, TaskStatus, Db, is_live, is_pending}

-- The WHERE clause over the joined agents row.
unfoldable pub at_cursor : Task → Agent → Bool
at_cursor t a = a.id == t.agent_id && (is_live a.status && t.seq == a.cursor)

unfoldable pub claimable : Db → ℕ → String → Task → Bool
unfolding at_cursor
claimable db now pool_tier t =
    is_pending t.status
    && (leb t.next_run_at now && (str_eq t.tier pool_tier && exists_where (at_cursor t) db.agents))

-- The subquery: ORDER BY next_run_at FOR UPDATE OF t SKIP LOCKED LIMIT 1.
unfoldable pub next_claim : (ℕ → Bool) → Db → ℕ → String → Option Task
unfolding claimable
next_claim locked db now pool_tier = head? (
    order_by (λ t. t.next_run_at)
      (select (λ t. claimable db now pool_tier t && not (locked t.id)) db.tasks))

abbrev pub lease : String → ℕ → ℕ → Task → Task
lease worker_id ttl now t = record t {
  status = TaskStatus.running;
  lease_owner = some worker_id;
  lease_expires = some (now + ttl * 1000);
  attempt = t.attempt + 1;
  updated_at = now;
}

abbrev pub grant : String → ℕ → ℕ → Db → Option Task → Db × Option Task
grant worker_id ttl now db none = (db, none)
grant worker_id ttl now db (some t) = (
  record db { tasks = update_where (λ u. u.id == t.id) (lease worker_id ttl now) db.tasks },
  some (lease worker_id ttl now t),
)

-- Returns the row after the update, as RETURNING does.
unfoldable pub claim_one : (ℕ → Bool) → ℕ → String → String → ℕ → Db → Db × Option Task
unfolding next_claim
claim_one locked now pool_tier worker_id ttl db =
    grant worker_id ttl now db (next_claim locked db now pool_tier)
