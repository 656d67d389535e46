-- ===== src/Harness/Plans.antt =====
-- chaos/harness.py: what a plan that was resolved can hold.
use reliable_ai_agents.Prelude.{
  ℤ, pos, negsuc, ℕ, ◌≡◌, refl, sym, subst, String, str_eq, Bool, Option, none, some, List, [], ◌∷◌,
  select, exists_where, delete_where, All, All-append, All-update_where, Bool-cases, inl, inr,
}
use reliable_ai_agents.Schema.{Pipeline, Db}
use reliable_ai_agents.Registry.{Registry, contains}
use reliable_ai_agents.Api.{unknown_ids}
use reliable_ai_agents.Tasks.Library.{Call, task_defs}
use reliable_ai_agents.Harness.Text.{ids_of}
use reliable_ai_agents.Harness.{
  unknown_ids as bad_ids, is_named, pipeline, default_pipelines, insert_absent, insert_all,
  ensure_default_pipelines, unknown_of, plan_of, replace, upsert, create_pipeline, delete_pipeline,
  resolved, row_plan, inline_plan, resolve_plan, text_or,
}

resolved_plan :
    (plan ids : List ℕ) (name label : String) → resolved plan name ≡ resolved ids label → plan ≡ ids
resolved_plan plan ids name label e = cc

module _ (defs : Registry) where
  -- The table of plans after any of the commands that write it.
  pub data Edited : Db → Type 0 where
    starts : (db : Db) → db.pipelines ≡ [] → Edited db
    ensures : {db : Db} → Edited db → Edited (ensure_default_pipelines db)
    creates :
        {db : Db} (name : String) (plan : List ℤ) (description : String)
        → Edited db
        → Edited (create_pipeline defs name plan description db).0
    deletes : {db : Db} (name : String) → Edited db → Edited (delete_pipeline name db)

  abbrev Known : Pipeline → Type 0
  Known p = unknown_ids defs p.plan ≡ []

  insert_all-Known :
      (ps rows : List Pipeline) → All Known ps → All Known rows → All Known (insert_all ps rows)
  unfolding insert_all
  insert_all-Known [] rows known kept = kept
  insert_all-Known (p ∷ ps) rows known kept =
      insert_all-Known ps (insert_absent p rows) known.1
        (elim (Bool-cases (exists_where (is_named p.name) rows)) [
          | inl there ↦ rw (there, insert_absent) kept
          | inr absent ↦
              rw (absent, insert_absent) (All-append Known rows (p ∷ []) kept (known.0, tt))
        ])

  nonempty : (n : ℕ) (ids : List ℤ) → ¬ (◌≡◌ {A = List ℤ} (pos n ∷ ids) [])
  nonempty n ids e = cc

  plan_of-Known : (ids : List ℤ) → unknown_of defs ids ≡ [] → unknown_ids defs (plan_of ids) ≡ []
  unfolding unknown_of unknown_ids plan_of select
  plan_of-Known [] h = refl
  plan_of-Known (pos n ∷ ids) h = elim (Bool-cases (contains n defs)) [
    | inl there ↦ rw there (plan_of-Known ids (rw there at h))
    | inr absent ↦ absurd (nonempty n (unknown_of defs ids) (rw absent at h))
  ]
  plan_of-Known (negsuc n ∷ ids) h = cc

  upsert-Known :
      (p : Pipeline) (rows : List Pipeline) → Known p → All Known rows → All Known (upsert p rows)
  unfolding upsert
  upsert-Known p rows known kept = elim (Bool-cases (exists_where (is_named p.name) rows)) [
    | inl there ↦
        rw (there, upsert)
          (All-update_where Known Known (is_named p.name) (replace p) rows (λ x h e. h)
            (λ x h e. known) kept)
    | inr absent ↦ rw (absent, upsert) (All-append Known rows (p ∷ []) kept (known, tt))
  ]

  delete_where-Known :
      (test : Pipeline → Bool) (rows : List Pipeline)
      → All Known rows
      → All Known (delete_where test rows)
  unfolding delete_where
  delete_where-Known test [] kept = tt
  delete_where-Known test (p ∷ rows) kept = elim (Bool-cases (test p)) [
    | inl gone ↦ rw gone (delete_where-Known test rows kept.1)
    | inr stays ↦ rw stays (kept.0, delete_where-Known test rows kept.1)
  ]

  create-Known :
      (name : String) (plan : List ℤ) (description : String) (db : Db)
      → All Known db.pipelines
      → All Known (create_pipeline defs name plan description db).0.pipelines
  unfolding create_pipeline
  create-Known name plan description db kept = go (unknown_of defs plan) refl
    where
      go :
          (unknown : List ℤ)
          → unknown_of defs plan ≡ unknown
          → All Known (create_pipeline defs name plan description db).0.pipelines
      go [] e =
          rw (e, create_pipeline)
            (upsert-Known (pipeline name (plan_of plan) description) db.pipelines
              (plan_of-Known plan e) kept)
      go (id ∷ ids) e = rw (e, create_pipeline) kept

  row_plan-Known :
      (name label : String) (rows : List Pipeline) (ids : List ℕ)
      → All Known rows
      → row_plan name (select (is_named name) rows) ≡ resolved ids label
      → unknown_ids defs ids ≡ []
  unfolding select
  row_plan-Known name label [] ids kept h = cc
  row_plan-Known name label (p ∷ rows) ids kept h = elim (Bool-cases (is_named name p)) [
    | inl hit ↦
        let same : p.plan ≡ ids = resolved_plan p.plan ids name label (rw hit at h) in
        subst (λ plan. unknown_ids defs plan ≡ []) same kept.0
    | inr miss ↦ row_plan-Known name label rows ids kept.1 (rw miss at h)
  ]

  inline-Known :
      (typed : Option (List ℤ)) (ids : List ℕ) (label : String)
      → inline_plan defs typed ≡ resolved ids label
      → unknown_ids defs ids ≡ []
  inline-Known none ids label h = cc
  inline-Known (some plan) ids label h = go (unknown_of defs plan) refl
    where
      go : (unknown : List ℤ) → unknown_of defs plan ≡ unknown → unknown_ids defs ids ≡ []
      go [] e =
          subst (λ l. unknown_ids defs l ≡ [])
            (resolved_plan (plan_of plan) ids "(inline)" label (rw (e, inline_plan) at h))
            (plan_of-Known plan e)
      go (id ∷ rest) e =
          let q : bad_ids (id ∷ rest) ≡ resolved ids label = (rw (e, inline_plan) at h) in cc

  module _ (defaults : All Known default_pipelines) where
    ensure-Known :
        (db : Db) → All Known db.pipelines → All Known (ensure_default_pipelines db).pipelines
    unfolding ensure_default_pipelines
    ensure-Known db kept = insert_all-Known default_pipelines db.pipelines defaults kept

    Edited-Known : {db : Db} → Edited db → All Known db.pipelines
    unfolding delete_pipeline
    Edited-Known (starts db e) = subst (All Known) (sym e) tt
    Edited-Known (ensures {db} h) = ensure-Known db (Edited-Known h)
    Edited-Known (creates {db} name plan description h) =
        create-Known name plan description db (Edited-Known h)
    Edited-Known (deletes {db} name h) =
        delete_where-Known (is_named name) db.pipelines (Edited-Known h)

    resolved-Known :
        (db : Db) (wanted plan : Option String) (ids : List ℕ) (label : String)
        → All Known db.pipelines
        → (resolve_plan defs wanted plan db).1 ≡ resolved ids label
        → unknown_ids defs ids ≡ []
    unfolding resolve_plan
    resolved-Known db wanted plan ids label kept h =
        elim (Bool-cases (str_eq (text_or "" plan) "")) [
          | inl blank ↦
              row_plan-Known (text_or "investigation" wanted) label
                (ensure_default_pipelines db).pipelines ids (ensure-Known db kept) (rw blank at h)
          | inr typed ↦ inline-Known (ids_of (text_or "" plan)) ids label (rw typed at h)
        ]

library-Known :
    (base : Option String) (call : Call) → All (Known (task_defs base call)) default_pipelines
unfolding task_defs unknown_ids contains select
library-Known base call = (refl, (refl, (refl, (refl, (refl, (refl, tt))))))

-- Whatever plans were created and deleted since the table was empty: a plan that is resolved holds
-- only tasks that the library has, whether it was typed, is the default, or stands in the table under
-- the wanted name.
pub resolve_plan-known :
    (base : Option String) (call : Call) (db : Db) (wanted plan : Option String) (ids : List ℕ)
    (label : String)
    → Edited (task_defs base call) db
    → (resolve_plan (task_defs base call) wanted plan db).1 ≡ resolved ids label
    → unknown_ids (task_defs base call) ids ≡ []
resolve_plan-known base call db wanted plan ids label edited h =
    resolved-Known (task_defs base call) (library-Known base call) db wanted plan ids label
      (Edited-Known (task_defs base call) (library-Known base call) edited) h
