-- ===== src/Worker/Claim/Oldest.antt =====
-- worker/claim.py: which row a claim takes.
use mathlib.Core.List.Memᴰ
use reliable_ai_agents.Prelude.{
  ℕ, ◌≤◌, ◌≡◌, refl, ap, String, Bool, true, false, ◌&&◌, not, Option, none, some, List, [], ◌∷◌,
  Memᴰ, arith, inl, inr, head?, Bool-cases, All-mem, IsSorted, select, mem-select, select-of_mem,
  order_by, mem-order_by, order_by-of_mem, order_by-IsSorted, update_where, ◌==◌,
}
use reliable_ai_agents.Schema.{Task, Db}
use reliable_ai_agents.Worker.Claim.{claimable, next_claim, lease, grant, claim_one}

module _ (locked : ℕ → Bool) (now : ℕ) (pool_tier : String) (db : Db) where
  abbrev due : Task → Bool
  due t = claimable db now pool_tier t && not (locked t.id)

  -- What the subquery may answer.
  abbrev pub Choice : Option Task → Type 0
  Choice none = (u : Task) → Memᴰ u db.tasks → due u ≡ false
  Choice (some t) =
      Memᴰ t db.tasks
      × (due t ≡ true)
      × ((u : Task) → Memᴰ u db.tasks → due u ≡ true → t.next_run_at ≤ u.next_run_at)

  abbrev queue : List Task
  queue = order_by (λ t. t.next_run_at) (select due db.tasks)

  queued : (u : Task) → Memᴰ u db.tasks → due u ≡ true → Memᴰ u queue
  queued u m h = order_by-of_mem (λ t. t.next_run_at) _ (select-of_mem due db.tasks m h)

  first-Choice :
      (xs : List Task)
      → IsSorted (λ t. t.next_run_at) xs
      → ((u : Task) → Memᴰ u db.tasks → due u ≡ true → Memᴰ u xs)
      → ((u : Task) → Memᴰ u xs → Memᴰ u db.tasks × (due u ≡ true))
      → Choice (head? xs)
  first-Choice [] sorted complete sound = λ u m. elim (Bool-cases (due u)) [
    | inl h ↦ absurd (Memᴰ.not-nil (complete u m h))
    | inr h ↦ h
  ]
  first-Choice (x ∷ xs) sorted complete sound =
      let own = sound x (Memᴰ.head refl) in
      (
        own.0,
        own.1,
        λ u m h. elim (Memᴰ.cases_cons (complete u m h)) [
          | inl e ↦ let k = ap (λ (t : Task). t.next_run_at) e in ground (arith, k)
          | inr later ↦ All-mem _ xs sorted.0 later
        ],
      )

  next_claim-Choice : Choice (next_claim locked db now pool_tier)
  unfolding next_claim
  next_claim-Choice =
      first-Choice queue (order_by-IsSorted (λ t. t.next_run_at) (select due db.tasks)) queued
        (λ u m. mem-select due db.tasks (mem-order_by (λ t. t.next_run_at) _ m))

  module _ (worker_id : String) (ttl : ℕ) where
    -- What a claim may answer, with what it has written.
    abbrev pub Granted : Db × Option Task → Type 0
    Granted (db', none) = (db' ≡ db) × Choice none
    Granted (db', some row) =
        (t : Task) × Choice (some t)
        × (row ≡ lease worker_id ttl now t)
        × (db' ≡ record db {
          tasks = update_where (λ u. u.id == t.id) (lease worker_id ttl now) db.tasks;
        })

    grant-Granted : (o : Option Task) → Choice o → Granted (grant worker_id ttl now db o)
    grant-Granted none choice = (refl, choice)
    grant-Granted (some t) choice = (t, choice, refl, refl)

    -- A claim takes, of the rows that are claimable and not locked by another transaction, one that
    -- has been due longest, leases it to the worker and returns it as leased; it comes back empty,
    -- and writes nothing, only where no such row exists.
    pub claim_one-Granted : Granted (claim_one locked now pool_tier worker_id ttl db)
    unfolding claim_one
    claim_one-Granted = grant-Granted (next_claim locked db now pool_tier) next_claim-Choice
