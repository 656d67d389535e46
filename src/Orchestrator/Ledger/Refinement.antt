-- ===== src/Orchestrator/Ledger/Refinement.antt =====
-- orchestrator/ledger.py against the slots: each event, and whole histories.
use mathlib.Core.Path.{fun_ext}
use reliable_ai_agents.Prelude.{
  ℕ, ◌≤◌, length, length-take_le, map, ◌≡◌, refl, sym, ap, ◌∙◌, inl, inr, subst, String, Bool,
  Option, none, some, List, [], ◌∷◌, arith, ◌==◌, Bool-cases, Option-cases,
}
use reliable_ai_agents.Json.{Json}
use reliable_ai_agents.Schema.{Reservation, Db}
use reliable_ai_agents.Orchestrator.Ledger.{
  proceed, reserve, is_open, close, reservation, verdict_of, unresolved, lookup, begin, settle,
  release, orphaned, is_orphan, reconcile,
}
use reliable_ai_agents.Orchestrator.Ledger.Once.{Event, asks, settles, releases, sweep}
use reliable_ai_agents.Orchestrator.Ledger.Spec.{
  Slot, free, taken, finished, Slots, put, verdict, changed, respond, begin_slot, settle_slot,
  release_slot, Swept, Allows, slot_of, view, History, ends, step, serve,
}
use reliable_ai_agents.Orchestrator.Ledger.Slots.{
  entry, slot, Distinct, slot-append, slot-settle, open-taken, is_taken, slot-release,
  Distinct-update, Distinct-delete, Distinct-append,
}
use reliable_ai_agents.Orchestrator.Ledger.Sweep.{entry-update, length-keys, slot-Swept}

pub begin-free :
    (key agent_id seq : ℕ) (action_type : String) (now : ℕ) (db : Db)
    → entry key db.idempotency ≡ none
    → begin key agent_id seq action_type now db
      ≡ (reserve key agent_id seq action_type now db, proceed)
unfolding begin lookup
begin-free key agent_id seq action_type now db e = rw (e, begin) refl

pub begin-held :
    (key agent_id seq : ℕ) (action_type : String) (now : ℕ) (db : Db) (r : Reservation)
    → entry key db.idempotency ≡ some r
    → begin key agent_id seq action_type now db ≡ (db, verdict_of r.state r.result)
unfolding begin lookup
begin-held key agent_id seq action_type now db r e = rw (e, begin) refl

slot-verdict :
    (now : ℕ) (r : Reservation)
    → verdict (verdict_of r.state r.result) ≡ verdict (begin_slot now (slot_of (some r))).1
slot-verdict now r = ground arith

slot-kept :
    (now : ℕ) (o : Option Reservation) (r : Reservation)
    → o ≡ some r
    → (begin_slot now (slot_of o)).0 ≡ slot_of o
slot-kept now o r e = rw e (ground arith)

put-same : (key k : ℕ) (slots : Slots) → slots k ≡ put key (slots key) slots k
put-same key k slots = elim (Bool-cases (k == key)) [
  | inl hit ↦ let e : k ≡ key = ground (arith, hit) in rw (hit, e) refl
  | inr miss ↦ rw miss refl
]

asks-Allows :
    (key agent_id seq : ℕ) (action_type : String) (now : ℕ) (db : Db) (o : Option Reservation)
    → entry key db.idempotency ≡ o
    → Allows
        (asks key agent_id seq action_type now)
        (view db)
        (respond (asks key agent_id seq action_type now) db).1
        (view (respond (asks key agent_id seq action_type now) db).0)
unfolding lookup
asks-Allows key agent_id seq action_type now db none e =
    rw (begin-free key agent_id seq action_type now db e) (
      rw e refl,
      rw e (
          fun_ext
            (λ k. slot-append k db.idempotency (reservation key agent_id seq action_type now) e)),
    )
asks-Allows key agent_id seq action_type now db (some r) e =
    rw (begin-held key agent_id seq action_type now db r e) (
      rw e (slot-verdict now r),
      rw (slot-kept now (entry key db.idempotency) r e) (fun_ext (λ k. put-same key k (view db))),
    )

settle_slot-is_taken : (result : Json) (s : Slot) → is_taken s ≡ (settle_slot result s).1
settle_slot-is_taken result free = refl
settle_slot-is_taken result (taken since) = refl
settle_slot-is_taken result (finished stored) = refl

release_slot-is_taken : (s : Slot) → is_taken s ≡ (release_slot s).1
release_slot-is_taken free = refl
release_slot-is_taken (taken since) = refl
release_slot-is_taken (finished stored) = refl

orphaned-bound :
    (locked : ℕ → Bool) (batch age now : ℕ) (db : Db)
    → length (orphaned locked batch age now db) ≤ batch
unfolding orphaned
orphaned-bound locked batch age now db = length-take_le batch _

respond-Allows :
    (e : Event) (db : Db)
    → Distinct db.idempotency
    → Allows e (view db) (respond e db).1 (view (respond e db).0)
unfolding settle release reconcile lookup
respond-Allows (asks key agent_id seq action_type now) db d =
    asks-Allows key agent_id seq action_type now db (entry key db.idempotency) refl
respond-Allows (settles key result now) db d = (
  ap changed
      (open-taken key db.idempotency d ∙ settle_slot-is_taken result (slot key db.idempotency)),
  fun_ext (λ k. slot-settle k key result now db.idempotency),
)
respond-Allows (releases key) db d = (
  ap changed (open-taken key db.idempotency d ∙ release_slot-is_taken (slot key db.idempotency)),
  fun_ext (λ k. slot-release k key db.idempotency d),
)
respond-Allows (sweep locked batch age now) db d =
    let rows = orphaned locked batch age now db in
    (
      map (λ o. o.key) rows,
      refl,
      (rw (length-keys rows) (orphaned-bound locked batch age now db)),
      λ k.
          subst
            (λ o.
              Swept locked age now (map (λ o. o.key) rows) k (slot k db.idempotency) (slot_of o))
            (sym
              (entry-update k (is_orphan rows) (close unresolved now) db.idempotency (λ r. refl)))
            (slot-Swept locked batch age now db d k (entry k db.idempotency) refl),
    )

respond-Distinct :
    (e : Event) (db : Db) → Distinct db.idempotency → Distinct (respond e db).0.idempotency
unfolding settle release reconcile
respond-Distinct (asks key agent_id seq action_type now) db d =
    elim (Option-cases (entry key db.idempotency)) [
      | inl e ↦
          rw (begin-free key agent_id seq action_type now db e)
            (Distinct-append db.idempotency (reservation key agent_id seq action_type now) e d)
      | inr (r, e) ↦ rw (begin-held key agent_id seq action_type now db r e) d
    ]
respond-Distinct (settles key result now) db d =
    Distinct-update (is_open key) (close result now) db.idempotency (λ r. refl) d
respond-Distinct (releases key) db d = Distinct-delete (is_open key) db.idempotency d
respond-Distinct (sweep locked batch age now) db d =
    Distinct-update (is_orphan (orphaned locked batch age now db)) (close unresolved now)
      db.idempotency (λ r. refl) d

-- From a table in which no action id stands twice, serving any list of requests, settlements,
-- releases and reconciliations gives exactly the answers, and leaves the slots, of a ledger that
-- keeps one slot for each id: a request of a free slot is cleared and takes it, one of a taken slot
-- is refused, one of a finished slot is told the stored result; a settlement finishes and a release
-- frees a taken slot and says so, and both leave any other slot and say that they changed nothing;
-- a reconciliation names at most `batch` ids, each taken longer than its age and not locked,
-- finishes these as unresolved and changes no other slot.
pub serve-History :
    (es : List Event) (db : Db)
    → Distinct db.idempotency
    → History es (view db) (serve es db).1 (view (serve es db).0)
unfolding serve
serve-History [] db d = ends
serve-History (e ∷ es) db d =
    step (respond-Allows e db d) (serve-History es (respond e db).0 (respond-Distinct e db d))
