-- ===== src/Orchestrator/Queue/Gauge.antt =====
-- orchestrator/queue.py against worker/claim.py: the number of claimable tasks that `depth` reports.
use mathlib.Core.List.Memᴰ
use reliable_ai_agents.Prelude.{
  ℕ, ◌≡◌, ◌↔◌, ◌∙◌, refl, sym, ap, String, eq_refl, Bool, true, false, ◌&&◌, Option, none, some,
  List, [], ◌∷◌, Memᴰ, arith, leb, ◌==◌, count_where, count_where-none, Bool-cases, inl, inr,
}
use reliable_ai_agents.Schema.{Task, Db, is_pending}
use reliable_ai_agents.Worker.Claim.{at_cursor, claimable, claim_one}
use reliable_ai_agents.Worker.Claim.Oldest.{Granted, claim_one-Granted}
use reliable_ai_agents.Orchestrator.Queue.{joins, depth}

count_where-zero :
    {A : Type 0} (p : A → Bool) (xs : List A) {x : A}
    → count_where p xs ≡ 0
    → Memᴰ x xs
    → p x ≡ false
unfolding count_where
count_where-zero p [] zero m = elim m [ ]
count_where-zero p (y ∷ ys) zero m = elim (Bool-cases (p y)) [
  | inl hit ↦ absurd (ground (arith, zero, hit))
  | inr miss ↦ elim (Memᴰ.cases_cons m) [
    | inl e ↦ ap p e ∙ miss
    | inr later ↦ count_where-zero p ys (rw miss at zero) later
  ]
]

module _ (now : ℕ) (db : Db) where
  abbrev ready : Task → Bool
  ready t = is_pending t.status && (leb t.next_run_at now && joins db (λ a. t.seq == a.cursor) t)

  ready-claimable : (t : Task) → claimable db now t.tier t ≡ ready t
  unfolding claimable joins at_cursor
  ready-claimable t = rw (eq_refl t.tier) refl

  claimable-ready : (tier : String) (t : Task) → claimable db now tier t ≡ true → ready t ≡ true
  unfolding claimable joins at_cursor
  claimable-ready tier t h = ground (arith, h)

  abbrev pub taken : String → String → ℕ → Option Task
  taken tier worker_id ttl = (claim_one (λ id. false) now tier worker_id ttl db).1

  pub nothing-due :
      (tier worker_id : String) (ttl : ℕ)
      → taken tier worker_id ttl ≡ none
      → (t : Task) → Memᴰ t db.tasks
      → claimable db now tier t ≡ false
  nothing-due tier worker_id ttl h t m =
      go (claim_one (λ id. false) now tier worker_id ttl db)
        (claim_one-Granted (λ id. false) now tier db worker_id ttl) h
    where
      go :
          (r : Db × Option Task)
          → Granted (λ id. false) now tier db worker_id ttl r
          → r.1 ≡ none
          → claimable db now tier t ≡ false
      go (db', none) choice e = ground (arith, choice.1 t m)
      go (db', some row) choice e = cc

  nothing-taken :
      (tier worker_id : String) (ttl : ℕ)
      → ((t : Task) → Memᴰ t db.tasks → claimable db now tier t ≡ false)
      → taken tier worker_id ttl ≡ none
  nothing-taken tier worker_id ttl h =
      go (claim_one (λ id. false) now tier worker_id ttl db)
        (claim_one-Granted (λ id. false) now tier db worker_id ttl)
    where
      go : (r : Db × Option Task) → Granted (λ id. false) now tier db worker_id ttl r → r.1 ≡ none
      go (db', none) choice = refl
      go (db', some row) (t, choice, leased, written) =
          let due = choice.1 in let idle = h t choice.0 in absurd (ground (arith, due, idle))

  -- The gauge of claimable tasks is zero exactly when, with no row locked, no worker of any tier can
  -- claim anything.
  pub depth-claim_one :
      (worker_id : String) (ttl : ℕ)
      → ((depth now db).claimable ≡ 0)
        ↔ ((tier : String) → (claim_one (λ id. false) now tier worker_id ttl db).1 ≡ none)
  unfolding depth
  depth-claim_one worker_id ttl = (
    λ zero tier. nothing-taken tier worker_id ttl (λ t m.
        elim (Bool-cases (claimable db now tier t)) [
          | inl due ↦
              let idle = count_where-zero ready db.tasks zero m in
              let q = claimable-ready tier t due in absurd (ground (arith, idle, q))
          | inr idle ↦ idle
        ]),
    λ none_left.
        count_where-none ready db.tasks (λ t m.
          sym (ready-claimable t) ∙ nothing-due t.tier worker_id ttl (none_left t.tier) t m),
  )
