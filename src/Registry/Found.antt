-- ===== src/Registry/Found.antt =====
-- common/registry.py: what is registered after `discover`.
use reliable_ai_agents.Prelude.{
  ℕ, ◌≡◌, ◌⊎◌, ◌↔◌, inl, inr, refl, sym, ◌∙◌, String, Bool, true, false, Option, none, some, List,
  [], ◌∷◌, ◌++◌, Memᴰ, Option-cases, select,
}
use reliable_ai_agents.Protocol.{TaskDef}
use reliable_ai_agents.Registry.{Registry, add, merge}
use reliable_ai_agents.Registry.Merge.{Named, Listed, Named-add, merge_lem}
use reliable_ai_agents.Registry.Laws.{add_lem}
use reliable_ai_agents.Registry.Discover.{
  Module, Fallback, absent, raising, loaded, Package, is_public, import_all, fall_back, legacy_step,
  imported, discover,
}

-- What the definitions ask for agrees with the registry and within itself: no id under two names.
abbrev pub Agrees : List TaskDef → Registry → Type 0
Agrees ds defs =
    ((d : TaskDef) → Memᴰ d ds → (name : String) → Named d.id name defs → name ≡ d.name)
    × ((d e : TaskDef) → Memᴰ d ds → Memᴰ e ds → d.id ≡ e.id → d.name ≡ e.name)

agreed-add :
    (x : TaskDef) (ds : List TaskDef) (defs : Registry)
    → Agrees (x ∷ ds) defs
    → (defs' : Registry) × (add x defs ≡ some defs')
agreed-add x ds defs (old, within) = elim (Option-cases (add x defs)) [
  | inr r ↦ r
  | inl refused ↦
      let (e, found, other) = (add_lem x defs).0.0 refused in
      absurd (other (old x (Memᴰ.head refl) e.name (e, found, refl)))
]

Agrees-add :
    (x : TaskDef) (ds : List TaskDef) (defs defs' : Registry)
    → add x defs ≡ some defs'
    → Agrees (x ∷ ds) defs
    → Agrees ds defs'
Agrees-add x ds defs defs' added (old, within) = (
  λ d m name named. elim (Named-add x defs defs' added d.id name named) [
    | inl before ↦ old d (Memᴰ.tail m) name before
    | inr (same, own) ↦ sym own ∙ within x d (Memᴰ.head refl) (Memᴰ.tail m) same
  ],
  λ d e md me. within d e (Memᴰ.tail md) (Memᴰ.tail me),
)

merge-agreed :
    (xs ys : List TaskDef) (defs : Registry)
    → Agrees (xs ++ ys) defs
    → (merge xs defs).1 ≡ true
      × (merge ys (merge xs defs).0 ≡ merge (xs ++ ys) defs)
      × Agrees ys (merge xs defs).0
unfolding merge
merge-agreed [] ys defs h = (refl, refl, h)
merge-agreed (x ∷ xs) ys defs h =
    let (defs', added) = agreed-add x (xs ++ ys) defs h in
    rw (added, merge) (merge-agreed xs ys defs' (Agrees-add x (xs ++ ys) defs defs' added h))

merge-ok : (ds : List TaskDef) (defs : Registry) → Agrees ds defs → (merge ds defs).1 ≡ true
unfolding merge
merge-ok [] defs h = refl
merge-ok (x ∷ ds) defs h =
    let (defs', added) = agreed-add x ds defs h in
    rw (added, merge) (merge-ok ds defs' (Agrees-add x ds defs defs' added h))

-- What a discovery asks for: the package's own registrations, those of its public modules in order,
-- and those of TASK_DEFS.
abbrev pub asked_modules : List Module → List TaskDef → List TaskDef
asked_modules [] ys = ys
asked_modules (m ∷ ms) ys = m.additions ++ asked_modules ms ys

abbrev pub asked_fallback : Fallback → List TaskDef
asked_fallback absent = []
asked_fallback (raising additions) = additions
asked_fallback (loaded additions none) = additions
asked_fallback (loaded additions (some legacy)) = additions ++ legacy

abbrev pub asked_legacy : Option (List TaskDef) → Fallback → List TaskDef
asked_legacy (some legacy) f = legacy
asked_legacy none f = asked_fallback f

abbrev pub asked : Package → List TaskDef
asked p =
    p.additions ++ asked_modules (select is_public p.modules) (asked_legacy p.task_defs p.fallback)

-- The second import does not raise anything but ModuleNotFoundError.
abbrev pub is_quiet : Fallback → Bool
is_quiet (raising additions) = false
is_quiet _ = true

import_all-agreed :
    (ms : List Module) (ys : List TaskDef) (defs : Registry)
    → Agrees (asked_modules ms ys) defs
    → (merge ys (import_all ms defs) ≡ merge (asked_modules ms ys) defs)
      × Agrees ys (import_all ms defs)
unfolding import_all
import_all-agreed [] ys defs h = (refl, h)
import_all-agreed (m ∷ ms) ys defs h =
    let (ok, e, rest) = merge-agreed m.additions (asked_modules ms ys) defs h in
    let (e', agrees) = import_all-agreed ms ys (merge m.additions defs).0 rest in (e' ∙ e, agrees)

flagged : (r : Registry × Bool) → r.1 ≡ true → (r.0, true) ≡ r
flagged r h = λ i. (r.0, sym h i)

fall_back-agreed :
    (f : Fallback) (defs : Registry)
    → is_quiet f ≡ true
    → Agrees (asked_fallback f) defs
    → fall_back f defs ≡ merge (asked_fallback f) defs
unfolding merge
fall_back-agreed absent defs quiet h = refl
fall_back-agreed (raising additions) defs quiet h = cc
fall_back-agreed (loaded additions none) defs quiet h =
    flagged (merge additions defs) (merge-ok additions defs h)
fall_back-agreed (loaded additions (some legacy)) defs quiet h =
    (merge-agreed additions legacy defs h).1

legacy_step-agreed :
    (p : Package) (legacy : Option (List TaskDef)) (defs : Registry)
    → p.task_defs ≡ legacy
    → is_quiet p.fallback ≡ true
    → Agrees (asked_legacy legacy p.fallback) defs
    → legacy_step p defs ≡ merge (asked_legacy legacy p.fallback) defs
legacy_step-agreed p (some legacy) defs e quiet h = rw e refl
legacy_step-agreed p none defs e quiet h = rw e (fall_back-agreed p.fallback defs quiet h)

discover-agreed :
    (p : Package) (defs : Registry)
    → is_quiet p.fallback ≡ true
    → Agrees (asked p) defs
    → discover (imported p) defs ≡ merge (asked p) defs
unfolding discover
discover-agreed p defs quiet h =
    let modules = select is_public p.modules in
    let legacy = asked_legacy p.task_defs p.fallback in
    let (ok, e, rest) = merge-agreed p.additions (asked_modules modules legacy) defs h in
    let (e', agrees) = import_all-agreed modules legacy (merge p.additions defs).0 rest in
    legacy_step-agreed p p.task_defs (import_all modules (merge p.additions defs).0) refl quiet
      agrees
    ∙ (e' ∙ e)

-- A discovery of a package whose own import ends, whose registrations agree with each other and with
-- the registry, and whose second import raises nothing but ModuleNotFoundError, ends without an
-- exception; afterwards an id is
-- registered under a name exactly when it was before, or the package itself, one of its modules
-- whose names do not start with an underscore, or TASK_DEFS asked for it.
pub discover_lem :
    (p : Package) (defs : Registry) (id : ℕ) (name : String)
    → is_quiet p.fallback ≡ true
    → Agrees (asked p) defs
    → ((discover (imported p) defs).1 ≡ true)
      × (Named id name (discover (imported p) defs).0
          ↔ (Named id name defs ⊎ Listed id name (asked p)))
discover_lem p defs id name quiet h =
    let ok = merge-ok (asked p) defs h in
    rw (discover-agreed p defs quiet h) (ok, merge_lem (asked p) defs id name ok)
