-- ===== src/Registry/Merge.antt =====
-- common/registry.py: `merge`.
use mathlib.Core.List.Memᴰ
use reliable_ai_agents.Prelude.{
  ℕ, ◌≡◌, ◌≢◌, ◌⊎◌, ◌↔◌, refl, sym, ap, ◌∙◌, subst, String, str_eq, eq_iff, true, false, some,
  some-injective, List, [], ◌∷◌, Memᴰ, arith, ◌==◌, Bool-cases, Option-cases, inl, inr,
}
use reliable_ai_agents.Protocol.{TaskDef}
use reliable_ai_agents.Registry.{Registry, get, add, merge}
use reliable_ai_agents.Registry.Laws.{add_lem}

-- The id is registered under the name.
abbrev pub Named : ℕ → String → Registry → Type 0
Named id name defs = (e : TaskDef) × (get id defs ≡ some e) × (e.name ≡ name)

module _ (d : TaskDef) (defs defs' : Registry) (added : add d defs ≡ some defs') where
  same_name : (e : TaskDef) → get d.id defs ≡ some e → e.name ≡ d.name
  same_name e found = elim (Bool-cases (str_eq e.name d.name)) [
    | inl same ↦ (eq_iff e.name d.name).0 same
    | inr differ ↦
        let other : e.name ≢ d.name =
          λ q. let k = (eq_iff e.name d.name).1 q in ground (arith, differ, k) in
        let refused = (add_lem d defs).0.1 (e, found, other) in
        absurd (ground (arith, refused, added))
  ]

  add-Named : (id : ℕ) (name : String) → Named id name defs → Named id name defs'
  add-Named id name (e, found, own) = elim (Bool-cases (id == d.id)) [
    | inl hit ↦
        let same : id ≡ d.id = ground (arith, hit) in
        subst (λ i. Named i name defs') (sym same)
          (
            d,
            ((add_lem d defs).1 defs' added).0,
            sym (same_name e (subst (λ i. get i defs ≡ some e) same found)) ∙ own,
          )
    | inr miss ↦
        let away : id ≢ d.id = λ q. ground (arith, miss, q) in
        (e, ((add_lem d defs).1 defs' added).1 id away ∙ found, own)
  ]

  pub Named-add :
      (id : ℕ) (name : String)
      → Named id name defs'
      → Named id name defs ⊎ (d.id ≡ id) × (d.name ≡ name)
  Named-add id name (e, found, own) = elim (Bool-cases (id == d.id)) [
    | inl hit ↦
        let same : id ≡ d.id = ground (arith, hit) in
        let new = ((add_lem d defs).1 defs' added).0 in
        let now = subst (λ i. get i defs' ≡ some e) same found in
        let q : d ≡ e = some-injective _ _ (sym new ∙ now) in
        inr (sym same, ap (λ (x : TaskDef). x.name) q ∙ own)
    | inr miss ↦
        let away : id ≢ d.id = λ q. ground (arith, miss, q) in
        inl (e, sym (((add_lem d defs).1 defs' added).1 id away) ∙ found, own)
  ]

-- One of the definitions has the id and the name.
abbrev pub Listed : ℕ → String → List TaskDef → Type 0
Listed id name ds = (d : TaskDef) × Memᴰ d ds × (d.id ≡ id) × (d.name ≡ name)

pub merge-keeps :
    (ds : List TaskDef) (defs : Registry) (id : ℕ) (name : String)
    → Named id name defs
    → Named id name (merge ds defs).0
unfolding merge
merge-keeps [] defs id name h = h
merge-keeps (d ∷ ds) defs id name h = elim (Option-cases (add d defs)) [
  | inl refused ↦ rw (refused, merge) h
  | inr r ↦ rw (r.1, merge) (merge-keeps ds r.0 id name (add-Named d defs r.0 r.1 id name h))
]

merge-adds :
    (ds : List TaskDef) (defs : Registry)
    → (merge ds defs).1 ≡ true
    → (d : TaskDef) → Memᴰ d ds
    → Named d.id d.name (merge ds defs).0
unfolding merge
merge-adds [] defs ok d m = elim m [ ]
merge-adds (x ∷ ds) defs ok d m = elim (Option-cases (add x defs)) [
  | inl refused ↦ let q : false ≡ true = (rw (refused, merge) at ok) in cc
  | inr r ↦ elim (Memᴰ.cases_cons m) [
    | inl e ↦
        rw (r.1, merge)
          (merge-keeps ds r.0 d.id d.name (
            subst (λ (y : TaskDef). Named y.id y.name r.0) (sym e)
              (x, ((add_lem x defs).1 r.0 r.1).0, refl)))
    | inr later ↦ rw (r.1, merge) (merge-adds ds r.0 (rw (r.1, merge) at ok) d later)
  ]
]

merge-only :
    (ds : List TaskDef) (defs : Registry) (id : ℕ) (name : String)
    → (merge ds defs).1 ≡ true
    → Named id name (merge ds defs).0
    → Named id name defs ⊎ Listed id name ds
unfolding merge
merge-only [] defs id name ok h = inl h
merge-only (x ∷ ds) defs id name ok h = elim (Option-cases (add x defs)) [
  | inl refused ↦ let q : false ≡ true = (rw (refused, merge) at ok) in cc
  | inr r ↦ elim (merge-only ds r.0 id name (rw (r.1, merge) at ok) (rw (r.1, merge) at h)) [
    | inl before ↦ elim (Named-add x defs r.0 r.1 id name before) [
      | inl old ↦ inl old
      | inr own ↦ inr (x, Memᴰ.head refl, own.0, own.1)
    ]
    | inr (d, m, e, q) ↦ inr (d, Memᴰ.tail m, e, q)
  ]
]

-- After a merge that succeeds, an id is registered under a name exactly when it was before or one of
-- the merged definitions has them: no id changes its name.
pub merge_lem :
    (ds : List TaskDef) (defs : Registry) (id : ℕ) (name : String)
    → (merge ds defs).1 ≡ true
    → Named id name (merge ds defs).0 ↔ (Named id name defs ⊎ Listed id name ds)
merge_lem ds defs id name ok = (
  merge-only ds defs id name ok,
  λ h. elim h [
    | inl before ↦ merge-keeps ds defs id name before
    | inr (d, m, e, q) ↦
        subst (λ i. Named i name (merge ds defs).0) e
          (subst (λ n. Named d.id n (merge ds defs).0) q (merge-adds ds defs ok d m))
  ],
)
