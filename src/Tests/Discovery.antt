-- ===== src/Tests/Discovery.antt =====
-- A package of one public module, one private module and a TASK_DEFS in its module registry.
use reliable_ai_agents.Prelude.{
  ℕ, ◌≡◌, ◌⊎◌, ◌↔◌, inl, inr, refl, sym, ap, ◌∙◌, subst, String, true, false, none, some, [], ◌∷◌,
  Memᴰ, arith, select,
}
use reliable_ai_agents.Protocol.{TaskDef, Difficulty, returns}
use reliable_ai_agents.Registry.{get}
use reliable_ai_agents.Registry.Merge.{Named, Listed}
use reliable_ai_agents.Registry.Discover.{
  Package, loaded, imported, is_public, decorated, dashed, discover,
}
use reliable_ai_agents.Registry.Found.{Agrees, asked, discover_lem}
use reliable_ai_agents.Tests.Samples.{answer, fetch, transfer}

abbrev summarise : TaskDef
summarise = decorated 9 none Difficulty.easy false none "sum_up" (λ ctx. returns answer)

sum-up : summarise.name ≡ "sum-up"
unfolding decorated dashed
sum-up = refl

abbrev scanned : Package
scanned = record {
  additions = [];
  modules =
      record { name = "registry"; additions = fetch ∷ [] }
      ∷ record { name = "_drafts"; additions = record transfer { id = 7 } ∷ [] }
      ∷ [];
  task_defs = none;
  fallback = loaded [] (some (fetch ∷ transfer ∷ []));
}

public_only : asked scanned ≡ fetch ∷ fetch ∷ transfer ∷ []
unfolding is_public select
public_only = refl

one_of_two : (d : TaskDef) → Memᴰ d (fetch ∷ fetch ∷ transfer ∷ []) → (d ≡ fetch) ⊎ (d ≡ transfer)
one_of_two d (Memᴰ.head e) = inl e
one_of_two d (Memᴰ.tail (Memᴰ.head e)) = inl e
one_of_two d (Memᴰ.tail (Memᴰ.tail (Memᴰ.head e))) = inr e
one_of_two d (Memᴰ.tail (Memᴰ.tail (Memᴰ.tail m))) = elim m [ ]

abbrev id_of : TaskDef → ℕ
id_of d = d.id

abbrev name_of : TaskDef → String
name_of d = d.name

within :
    (d e : TaskDef)
    → Memᴰ d (fetch ∷ fetch ∷ transfer ∷ [])
    → Memᴰ e (fetch ∷ fetch ∷ transfer ∷ [])
    → d.id ≡ e.id
    → d.name ≡ e.name
within d e md me same = elim (one_of_two d md) [
  | inl p ↦ elim (one_of_two e me) [
    | inl q ↦ ap name_of (p ∙ sym q)
    | inr q ↦
        let ids : ◌≡◌ {A = ℕ} 7 8 = sym (ap id_of p) ∙ (same ∙ ap id_of q) in
        absurd (omega (arith, ids))
  ]
  | inr p ↦ elim (one_of_two e me) [
    | inl q ↦
        let ids : ◌≡◌ {A = ℕ} 8 7 = sym (ap id_of p) ∙ (same ∙ ap id_of q) in
        absurd (omega (arith, ids))
    | inr q ↦ ap name_of (p ∙ sym q)
  ]
]

nothing-Named : (d : TaskDef) (name : String) → Named d.id name [] → name ≡ d.name
unfolding get
nothing-Named d name (e, found, own) = cc

scanned-Agrees : Agrees (asked scanned) []
scanned-Agrees =
    subst (λ ds. Agrees ds []) (sym public_only)
      ((λ d m name named. nothing-Named d name named), within)

discover_lem_example :
    ((discover (imported scanned) []).1 ≡ true)
    × (Named 8 "transfer" (discover (imported scanned) []).0
        ↔ (Named 8 "transfer" [] ⊎ Listed 8 "transfer" (asked scanned)))
discover_lem_example = discover_lem scanned [] 8 "transfer" refl scanned-Agrees
