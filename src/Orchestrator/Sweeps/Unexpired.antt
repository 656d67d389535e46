-- ===== src/Orchestrator/Sweeps/Unexpired.antt =====
-- orchestrator/main.py: no sweep but the reaper's makes a lease expire.
use reliable_ai_agents.Prelude.{
  ℕ, suc, get_or, ◌≡◌, refl, sym, subst, inl, inr, String, Bool, false, some, List, [], ◌∷◌, ◌++◌,
  arith, All, All-append, All-update_where, Bool-cases, Option-cases, exists_where, update_where,
  count_where, some-injective,
}
use reliable_ai_agents.Schema.{Agent, Tier, Task, Reason, Db}
use reliable_ai_agents.Tiers.{base_tier}
use reliable_ai_agents.Runtime.{Flags}
use reliable_ai_agents.Orchestrator.Reaper.{has_expired, orphaned_leases}
use reliable_ai_agents.Orchestrator.Queue.{
  new_task, conflicts, insert_missing, stalled, repair_stalled,
}
use reliable_ai_agents.Orchestrator.Classify.{
  Action, retry, promote, dlq, Counts, tally, kill, bury, route_one, route_all,
}
use reliable_ai_agents.Orchestrator.Classify.Routing.{retry-eq, promote-eq}
use reliable_ai_agents.Orchestrator.Classify.Burial.{dlq_kills}

module _ (now : ℕ) where
  -- No lease of the database has expired by `now`.
  abbrev pub Clear : Db → Type 0
  Clear db = All (λ t. has_expired now t ≡ false) db.tasks

  Clear-update :
      (p : Task → Bool) (f : Task → Task) (tasks : List Task)
      → ((t : Task) → has_expired now (f t) ≡ false)
      → All (λ t. has_expired now t ≡ false) tasks
      → All (λ t. has_expired now t ≡ false) (update_where p f tasks)
  Clear-update p f tasks gone h = All-update_where _ _ p f tasks (λ t k e. k) (λ t k e. gone t) h

  insert_missing-Clear :
      (uuid : ℕ → ℕ) (i : ℕ) (tier : String) (time : ℕ) (agents : List Agent) (tasks : List Task)
      → All (λ t. has_expired now t ≡ false) tasks
      → All (λ t. has_expired now t ≡ false) (insert_missing uuid i tier time agents tasks).0
  unfolding insert_missing has_expired new_task
  insert_missing-Clear uuid i tier time [] tasks h = h
  insert_missing-Clear uuid i tier time (a ∷ rest) tasks h =
      let row = new_task (uuid i) a.id a.cursor (get_or a.plan a.cursor 0) tier time in
      elim (Bool-cases (exists_where (conflicts row) tasks)) [
        | inl taken ↦ rw taken (insert_missing-Clear uuid (suc i) tier time rest tasks h)
        | inr free ↦ rw free (
            insert_missing-Clear uuid (suc i) tier time rest (tasks ++ row ∷ [])
              (All-append _ tasks (row ∷ []) h (refl, tt)))
      ]

  kill-Clear :
      (task : Task) (reason : Reason) (time : ℕ) (db db' : Db)
      → Clear db
      → kill task reason time db ≡ some db'
      → Clear db'
  unfolding kill has_expired
  kill-Clear task reason time db db' h e = elim (Option-cases task.failure_class) [
    | inl unclassed ↦ absurd (ground (arith, e, unclassed))
    | inr (fc, classed) ↦
        let buried : bury db task reason time fc ≡ db' = ground (arith, e, classed) in
        subst Clear buried
          (Clear-update _ _ _ (λ t. refl) (Clear-update _ _ db.tasks (λ t. refl) h))
  ]

  route_one-Clear :
      (ladder : List Tier) (flags : Flags) (time : ℕ) (task : Task) (db db' : Db) (action : Action)
      → Clear db
      → route_one ladder flags time task db ≡ some (db', action)
      → Clear db'
  unfolding has_expired
  route_one-Clear ladder flags time task db db' retry h e =
      subst Clear (sym (retry-eq ladder flags time task db db' e))
        (Clear-update _ _ db.tasks (λ t. refl) h)
  route_one-Clear ladder flags time task db db' promote h e =
      let (tier, above, q) = promote-eq ladder flags time task db db' e in
      subst Clear (sym q) (Clear-update _ _ db.tasks (λ t. refl) h)
  route_one-Clear ladder flags time task db db' dlq h e =
      dlq_kills ladder flags time task db Clear db' (λ reason. kill-Clear task reason time db db' h)
        e

  pub route_all-Clear :
      (ladder : List Tier) (flags : Flags) (time : ℕ) (tasks : List Task) (counts : Counts)
      (db : Db) (r : Db × Counts)
      → Clear db
      → route_all ladder flags time tasks counts db ≡ some r
      → Clear r.0
  unfolding route_all
  route_all-Clear ladder flags time [] counts db r h e =
      subst (λ (x : Db × Counts). Clear x.0) (some-injective _ _ e) h
  route_all-Clear ladder flags time (task ∷ rest) counts db r h e =
      elim (Option-cases (route_one ladder flags time task db)) [
        | inl refused ↦ absurd (ground (arith, e, refused))
        | inr (q, out) ↦
            let h' = route_one-Clear ladder flags time task db q.0 q.1 h out in
            let on : route_all ladder flags time rest (tally q.1 counts) q.0 ≡ some r =
              ground (arith, e, out) in
            route_all-Clear ladder flags time rest (tally q.1 counts) q.0 r h' on
      ]

  pub repair_stalled-Clear :
      (locked : ℕ → Bool) (batch : ℕ) (uuid : ℕ → ℕ) (ladder : List Tier) (time : ℕ) (db : Db)
      (r : Db × List Task)
      → Clear db
      → repair_stalled locked batch uuid ladder time db ≡ some r
      → Clear r.0
  unfolding repair_stalled
  repair_stalled-Clear locked batch uuid ladder time db r h e =
      elim (Option-cases (base_tier ladder)) [
        | inl empty ↦ absurd (ground (arith, e, empty))
        | inr (tier, found) ↦
            let filled = insert_missing uuid 0 tier time (stalled locked batch db) db.tasks in
            let same : (record db { tasks = filled.0 }, filled.1) ≡ r = ground (arith, e, found) in
            subst (λ (x : Db × List Task). Clear x.0) same
              (insert_missing-Clear uuid 0 tier time (stalled locked batch db) db.tasks h)
      ]

count-Clear :
    (now : ℕ) (ts : List Task)
    → count_where (has_expired now) ts ≡ 0
    → All (λ t. has_expired now t ≡ false) ts
unfolding count_where
count-Clear now [] h = tt
count-Clear now (t ∷ ts) h = (ground (arith, h), count-Clear now ts (ground (arith, h)))

Clear-count :
    (now : ℕ) (ts : List Task)
    → All (λ t. has_expired now t ≡ false) ts
    → count_where (has_expired now) ts ≡ 0
unfolding count_where
Clear-count now [] h = refl
Clear-count now (t ∷ ts) h = ground (arith, h.0, Clear-count now ts h.1)

pub Clear-orphaned : (now : ℕ) (db : Db) → Clear now db → orphaned_leases now db ≡ 0
unfolding orphaned_leases
Clear-orphaned now db h = Clear-count now db.tasks h

pub orphaned-Clear : (now : ℕ) (db : Db) → orphaned_leases now db ≡ 0 → Clear now db
unfolding orphaned_leases
orphaned-Clear now db h = count-Clear now db.tasks h
