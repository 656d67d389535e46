-- ===== src/System/Mourning.antt =====
-- orchestrator/classify.py: a batch of failures, against the rule of dead letters.
use reliable_ai_agents.Prelude.{
  ℕ, ◌≡◌, refl, sym, ap, subst, inl, inr, Bool, not, ◌&&◌, Option, none, some, some-injective, List,
  [], ◌∷◌, Memᴰ, ◌==◌, Option-cases, mem-select, mem-order_by, mem-take,
}
use reliable_ai_agents.Schema.{Tier, Task, FailureClass, Reason, Db, is_failed}
use reliable_ai_agents.Runtime.{Flags}
use reliable_ai_agents.Orchestrator.Classify.{
  Action, retry, promote, dlq, Counts, tally, bury, kill, kill_row, cancel_row, is_sibling,
  route_one, route_all, take_failed, classify,
}
use reliable_ai_agents.Orchestrator.Classify.Routing.{retry-eq, promote-eq}
use reliable_ai_agents.Orchestrator.Classify.Burial.{dlq_kills}
use reliable_ai_agents.System.Moves.{Ordered}
use reliable_ai_agents.System.Letters.{Mourned, Each, Each-update, Same, route_one-Mourned}

module _ (held : Task) where
  abbrev Kept : Task → Type 0
  Kept u = u.id ≡ held.id → u.agent_id ≡ held.agent_id

  bury-Same :
      (task : Task) (reason : Reason) (now : ℕ) (fc : FailureClass) (db : Db)
      → Same held db.tasks
      → Same held (bury db task reason now fc).tasks
  bury-Same task reason now fc db same =
      Each-update Kept (is_sibling task.agent_id) (cancel_row _ now) _ (λ u m hit before. before)
        (Each-update Kept (λ t. t.id == task.id) (kill_row now) db.tasks (λ u m hit before. before)
          same)

  kill-Same :
      (task : Task) (reason : Reason) (now : ℕ) (db db' : Db)
      → Same held db.tasks
      → kill task reason now db ≡ some db'
      → Same held db'.tasks
  unfolding kill
  kill-Same task reason now db db' same h = go task.failure_class h
    where
      go :
          (o : Option FailureClass)
          → elim o [ none ↦ none | some fc ↦ some (bury db task reason now fc) ] ≡ some db'
          → Same held db'.tasks
      go none h = cc
      go (some fc) h =
          subst (λ (d : Db). Same held d.tasks) (some-injective _ _ h)
            (bury-Same task reason now fc db same)

  route_one-Same :
      (ladder : List Tier) (flags : Flags) (now : ℕ) (task : Task) (db db' : Db) (action : Action)
      → Same held db.tasks
      → route_one ladder flags now task db ≡ some (db', action)
      → Same held db'.tasks
  route_one-Same ladder flags now task db db' retry same h =
      subst (λ (d : Db). Same held d.tasks) (sym (retry-eq ladder flags now task db db' h))
        (Each-update Kept _ _ db.tasks (λ u m hit before. before) same)
  route_one-Same ladder flags now task db db' promote same h =
      let (tier, above, e) = promote-eq ladder flags now task db db' h in
      subst (λ (d : Db). Same held d.tasks) (sym e)
        (Each-update Kept _ _ db.tasks (λ u m hit before. before) same)
  route_one-Same ladder flags now task db db' dlq same h =
      dlq_kills ladder flags now task db (λ (d : Db). Same held d.tasks) db'
        (λ reason. kill-Same task reason now db db' same) h

module _ (ladder : List Tier) (flags : Flags) (now : ℕ) where
  route_all-Mourned :
      (batch : List Task) (counts : Counts) (db : Db)
      → Mourned db
      → Each (λ t. Same t db.tasks) batch
      → (db' : Db) (counts' : Counts)
      → route_all ladder flags now batch counts db ≡ some (db', counts')
      → Mourned db'
  unfolding route_all
  route_all-Mourned [] counts db mourned same db' counts' h =
      subst Mourned (ap (λ (x : Db × Counts). x.0) (some-injective _ _ h)) mourned
  route_all-Mourned (task ∷ rest) counts db mourned same db' counts' h =
      elim (Option-cases (route_one ladder flags now task db)) [
        | inl stuck ↦
            let q : ◌≡◌ {A = Option (Db × Counts)} none (some (db', counts')) =
              (rw (stuck, route_all) at h) in
            cc
        | inr r ↦
            route_all-Mourned rest (tally r.0.1 counts) r.0.0
              (route_one-Mourned db mourned ladder flags now task r.0.0 r.0.1
                (same task (Memᴰ.head refl)) r.1)
              (λ t m.
                route_one-Same t ladder flags now task db r.0.0 r.0.1 (same t (Memᴰ.tail m)) r.1)
              db' counts' (rw (r.1, route_all) at h)
      ]

  pub classify-Mourned :
      (locked : ℕ → Bool) (limit : ℕ) (held : List Task) (db db' : Db) (counts : Counts)
      → Ordered db held
      → Mourned db
      → classify locked limit ladder flags now db ≡ some (db', counts)
      → Mourned db'
  unfolding classify take_failed
  classify-Mourned locked limit held db db' counts ordered mourned h =
      route_all-Mourned (take_failed locked limit db) _ db mourned
        (λ t m u n e.
          let r =
            mem-select (λ x. is_failed x.status && not (locked x.id)) db.tasks
              (mem-order_by (λ x. x.updated_at) _ (mem-take limit _ m)) in
          ap (λ (x : Task). x.agent_id) ((ordered.keyed u t n r.0).by_id e))
        db' counts h
