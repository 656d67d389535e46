-- ===== src/Orchestrator/Ledger.antt =====
-- orchestrator/ledger.py: the two-phase ledger of externally visible actions. The digest that makes
-- a key is hashlib's, so the functions take the key; `action_id` takes the digest as a parameter.
pub mod Once
pub mod Replay
pub mod Spec
pub mod Slots
pub mod Sweep
pub mod Refinement
use reliable_ai_agents.Prelude.{
  ℕ, ◌+◌, ◌*◌, String, Bool, true, false, not, ◌&&◌, Option, none, some, List, [], ◌∷◌, ◌++◌,
  if◌then◌else◌, ltb, ◌==◌, length, take, head?, select, exists_where, count_where, update_where,
  delete_where, order_by,
}
use reliable_ai_agents.Json.{Json, object, field, end, str}
use reliable_ai_agents.Schema.{Reservation, ReservationState, in_flight, done, Db, is_in_flight}

-- What `begin` answers.
pub data Verdict : Type 0 where
  proceed : Verdict
  already : Option Json → Verdict
  unsettled : Verdict

abbrev pub reconcile_after : ℕ
reconcile_after = 2

abbrev pub unresolved : Json
unresolved = object (
    field "status" (str "unresolved") (
      field "reason" (str "worker died between the action and its acknowledgement")
        (field "effect" (str "unknown -- may or may not have been applied") end)))

-- sha256 of "agent:seq:action"
unfoldable pub action_id : (ℕ × ℕ × String → ℕ) → ℕ → ℕ → String → ℕ
action_id sha256 agent_id seq action_type = sha256 (agent_id, seq, action_type)

abbrev pub has_key : ℕ → Reservation → Bool
has_key key r = r.key == key

-- LOOKUP_SQL
unfoldable pub lookup : ℕ → Db → Option Reservation
lookup key db = head? (select (has_key key) db.idempotency)

abbrev pub reservation : ℕ → ℕ → ℕ → String → ℕ → Reservation
reservation key agent_id seq action_type now = record {
  key = key;
  agent_id = agent_id;
  seq = seq;
  action_type = action_type;
  state = in_flight;
  result = none;
  created_at = now;
  settled_at = none;
}

abbrev pub reserve : ℕ → ℕ → ℕ → String → ℕ → Db → Db
reserve key agent_id seq action_type now db = record db {
  idempotency = db.idempotency ++ reservation key agent_id seq action_type now ∷ [];
}

abbrev pub verdict_of : ReservationState → Option Json → Verdict
verdict_of done result = already result
verdict_of in_flight result = unsettled

-- BEGIN_SQL: the INSERT, or the locked row that is there.
unfoldable pub begin : ℕ → ℕ → ℕ → String → ℕ → Db → Db × Verdict
unfolding lookup
begin key agent_id seq action_type now db = elim (lookup key db) [
  | none ↦ (reserve key agent_id seq action_type now db, proceed)
  | some r ↦ (db, verdict_of r.state r.result)
]

abbrev pub close : Json → ℕ → Reservation → Reservation
close result now r = record r { state = done; result = some result; settled_at = some now }

abbrev pub is_open : ℕ → Reservation → Bool
is_open key r = r.key == key && is_in_flight r.state

-- SETTLE_SQL
unfoldable pub settle : ℕ → Json → ℕ → Db → Db × Bool
settle key result now db = (
  record db { idempotency = update_where (is_open key) (close result now) db.idempotency },
  exists_where (is_open key) db.idempotency,
)

-- RELEASE_SQL
unfoldable pub release : ℕ → Db → Db × Bool
release key db = (
  record db { idempotency = delete_where (is_open key) db.idempotency },
  exists_where (is_open key) db.idempotency,
)

-- In flight, and created more than `age` seconds ago.
unfoldable pub is_stranded : ℕ → ℕ → Reservation → Bool
is_stranded age now r = is_in_flight r.state && ltb (r.created_at + age * 1000) now

-- STRANDED_SQL; `age` is LEASE_TTL_SECONDS by default.
unfoldable pub stranded : ℕ → ℕ → Db → List Reservation
unfolding is_stranded
stranded age now db = order_by (λ r. r.created_at) (select (is_stranded age now) db.idempotency)

-- `lease_ttl` is LEASE_TTL_SECONDS of the process.
unfoldable pub audit : ℕ → ℕ → Db → ℕ
unfolding stranded
audit lease_ttl now db = length (stranded lease_ttl now db)

pub record Totals : Type 0 where
  pub settled : ℕ
  pub open_actions : ℕ

-- COUNTS_SQL
unfoldable pub counts : Db → Totals
counts db = record {
  settled = count_where (λ r. not (is_in_flight r.state)) db.idempotency;
  open_actions = count_where (λ r. is_in_flight r.state) db.idempotency;
}

-- The CTE `orphaned`.
unfoldable pub orphaned : (ℕ → Bool) → ℕ → ℕ → ℕ → Db → List Reservation
unfolding is_stranded
orphaned locked batch age now db = take batch (
    order_by (λ r. r.created_at)
      (select (λ r. is_stranded age now r && not (locked r.key)) db.idempotency))

unfoldable pub is_orphan : List Reservation → Reservation → Bool
is_orphan rows r = exists_where (λ o. r.key == o.key) rows

-- RECONCILE_SQL; `age` is LEASE_TTL_SECONDS * reconcile_after by default.
unfoldable pub reconcile : (ℕ → Bool) → ℕ → ℕ → ℕ → Db → Db × List Reservation
unfolding orphaned is_orphan
reconcile locked batch age now db =
    let rows = orphaned locked batch age now db in
    (
      record db {
        idempotency = update_where (is_orphan rows) (close unresolved now) db.idempotency;
      },
      rows,
    )
