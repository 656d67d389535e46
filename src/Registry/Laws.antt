-- ===== src/Registry/Laws.antt =====
-- common/registry.py: `add` and the lookups after it.
use reliable_ai_agents.Prelude.{
  ℕ, ◌≡◌, ◌≢◌, ◌↔◌, refl, ap, ◌∙◌, true, str_eq, eq_iff, Option, none, some, [], ◌∷◌, arith,
  Bool-cases, inl, inr, ==-refl,
}
use reliable_ai_agents.Protocol.{TaskDef}
use reliable_ai_agents.Registry.{Registry, get, put, refuses, add}

get-put : (d : TaskDef) (defs : Registry) → get d.id (put d defs) ≡ some d
unfolding get put
get-put d [] = rw (==-refl d.id) refl
get-put d (e ∷ es) = ground (arith, get-put d es, ==-refl d.id)

get-put_other :
    (d : TaskDef) (defs : Registry) (id : ℕ) → id ≢ d.id → get id (put d defs) ≡ get id defs
unfolding get put
get-put_other d [] id ne = ground arith
get-put_other d (e ∷ es) id ne = ground (arith, get-put_other d es id ne)

abbrev TakenBy : TaskDef → Option TaskDef → Type 0
TakenBy d o = (e : TaskDef) × (o ≡ some e) × (e.name ≢ d.name)

refuses-TakenBy : (d : TaskDef) (o : Option TaskDef) → refuses d o ≡ true → TakenBy d o
unfolding refuses
refuses-TakenBy d none h = cc
refuses-TakenBy d (some e) h =
    (e, refl, λ q. let k = (eq_iff e.name d.name).1 q in ground (arith, h, k))

TakenBy-refuses : (d : TaskDef) (o : Option TaskDef) → TakenBy d o → refuses d o ≡ true
unfolding refuses
TakenBy-refuses d o (e, taken, other) = rw taken (elim (Bool-cases (str_eq e.name d.name)) [
  | inl same ↦ absurd (other ((eq_iff e.name d.name).0 same))
  | inr differ ↦ rw differ refl
])

add-refuses :
    (d : TaskDef) (defs : Registry) → (add d defs ≡ none) ↔ (refuses d (get d.id defs) ≡ true)
unfolding add
add-refuses d defs = (λ h. ground arith, λ h. ground arith)

add-put : (d : TaskDef) (defs defs' : Registry) → add d defs ≡ some defs' → defs' ≡ put d defs
unfolding add
add-put d defs defs' h = ground arith

-- A registration is refused exactly when its id is taken under another name; one that is accepted is
-- then found under its id, and every other lookup answers as before.
pub add_lem :
    (d : TaskDef) (defs : Registry)
    → ((add d defs ≡ none) ↔ ((e : TaskDef) × (get d.id defs ≡ some e) × (e.name ≢ d.name)))
      × ((defs' : Registry)
          → add d defs ≡ some defs'
          → (get d.id defs' ≡ some d) × ((id : ℕ) → id ≢ d.id → get id defs' ≡ get id defs))
add_lem d defs = (
  (
    λ h. refuses-TakenBy d (get d.id defs) ((add-refuses d defs).0 h),
    λ t. (add-refuses d defs).1 (TakenBy-refuses d (get d.id defs) t),
  ),
  λ defs' h.
      let e = add-put d defs defs' h in
      (ap (get d.id) e ∙ get-put d defs, λ id ne. ap (get id) e ∙ get-put_other d defs id ne),
)
