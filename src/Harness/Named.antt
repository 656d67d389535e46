-- ===== src/Harness/Named.antt =====
-- chaos/harness.py: a plan by its name.
use reliable_ai_agents.Prelude.{
  ℤ, ℕ, ◌≡◌, refl, String, str_eq, eq_refl, true, false, none, some, List, [], ◌∷◌, ◌++◌, select,
  exists_where, update_where, Bool-cases, inl, inr,
}
use reliable_ai_agents.Schema.{Pipeline, Db}
use reliable_ai_agents.Registry.{Registry}
use reliable_ai_agents.Harness.{
  is_named, pipeline, default_pipelines, insert_absent, insert_all, ensure_default_pipelines,
  unknown_of, plan_of, replace, upsert, create_pipeline, Resolved, resolved, row_plan, resolve_plan,
}

-- What the query for a name finds.
abbrev found : String → List Pipeline → Resolved
found name rows = row_plan name (select (is_named name) rows)

module _ (name label : String) (plan : List ℕ) where
  found-append :
      (rows more : List Pipeline)
      → found name rows ≡ resolved plan label
      → found name (rows ++ more) ≡ resolved plan label
  unfolding select
  found-append [] more h = cc
  found-append (p ∷ rows) more h = elim (Bool-cases (is_named name p)) [
    | inl hit ↦ rw hit (rw hit at h)
    | inr miss ↦ rw miss (found-append rows more (rw miss at h))
  ]

  found-insert_all :
      (ps rows : List Pipeline)
      → found name rows ≡ resolved plan label
      → found name (insert_all ps rows) ≡ resolved plan label
  unfolding insert_all
  found-insert_all [] rows h = h
  found-insert_all (p ∷ ps) rows h =
      found-insert_all ps (insert_absent p rows)
        (elim (Bool-cases (exists_where (is_named p.name) rows)) [
          | inl there ↦ rw (there, insert_absent) h
          | inr absent ↦ rw (absent, insert_absent) (found-append rows (p ∷ []) h)
        ])

module _ (p : Pipeline) where
  found-update :
      (rows : List Pipeline)
      → exists_where (is_named p.name) rows ≡ true
      → found p.name (update_where (is_named p.name) (replace p) rows) ≡ resolved p.plan p.name
  unfolding select exists_where update_where is_named
  found-update [] there = cc
  found-update (x ∷ rows) there = elim (Bool-cases (str_eq x.name p.name)) [
    | inl hit ↦ rw hit (rw hit refl)
    | inr miss ↦ rw miss (rw miss (found-update rows (rw miss at there)))
  ]

  found-added :
      (rows : List Pipeline)
      → exists_where (is_named p.name) rows ≡ false
      → found p.name (rows ++ p ∷ []) ≡ resolved p.plan p.name
  unfolding select exists_where is_named
  found-added [] absent = rw (eq_refl p.name) refl
  found-added (x ∷ rows) absent = elim (Bool-cases (str_eq x.name p.name)) [
    | inl hit ↦ let q : true ≡ false = (rw hit at absent) in cc
    | inr miss ↦ rw miss (found-added rows (rw miss at absent))
  ]

  found-upsert : (rows : List Pipeline) → found p.name (upsert p rows) ≡ resolved p.plan p.name
  unfolding upsert
  found-upsert rows = elim (Bool-cases (exists_where (is_named p.name) rows)) [
    | inl there ↦ rw there (found-update rows there)
    | inr absent ↦ rw absent (found-added rows absent)
  ]

-- A plan of known tasks that is created under a name, which is not empty, is what the name then
-- resolves to, also where a plan of that name, or a default one, was there before.
pub create-resolve :
    (defs : Registry) (name description : String) (ids : List ℤ) (db : Db)
    → unknown_of defs ids ≡ []
    → str_eq name "" ≡ false
    → (resolve_plan defs (some name) none (create_pipeline defs name ids description db).0).1
      ≡ resolved (plan_of ids) name
unfolding resolve_plan create_pipeline ensure_default_pipelines
create-resolve defs name description ids db known wanted =
    let p = pipeline name (plan_of ids) description in
    rw (wanted, known, create_pipeline)
      (found-insert_all name name (plan_of ids) default_pipelines (upsert p db.pipelines)
        (found-upsert p db.pipelines))
