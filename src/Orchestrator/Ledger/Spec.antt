-- ===== src/Orchestrator/Ledger/Spec.antt =====
-- orchestrator/ledger.py: the ledger as its clients see it, a slot for every action id, and the
-- histories that such a ledger allows.
use reliable_ai_agents.Prelude.{
  ℕ, ◌+◌, ◌*◌, ◌<◌, ◌≤◌, ◌≡◌, ◌⊎◌, length, exists_where, Bool, true, false, Option, none, some,
  List, [], ◌∷◌, map, if◌then◌else◌, ◌==◌,
}
use reliable_ai_agents.Json.{Json}
use reliable_ai_agents.Schema.{Reservation, in_flight, done, Db}
use reliable_ai_agents.Orchestrator.Ledger.{
  Verdict, proceed, already, unsettled, lookup, unresolved, begin, settle, release, reconcile,
}
use reliable_ai_agents.Orchestrator.Ledger.Once.{Event, asks, settles, releases, sweep}

-- An action id is free, taken since a time, or finished with a stored result.
pub data Slot : Type 0 where
  free : Slot
  taken : ℕ → Slot
  finished : Option Json → Slot

abbrev pub Slots : Type 0
Slots = ℕ → Slot

abbrev pub put : ℕ → Slot → Slots → Slots
put key slot slots k = if k == key then slot else slots k

-- What an event answers its caller: a verdict, whether a row was changed, the ids that were closed.
pub data Answer : Type 0 where
  verdict : Verdict → Answer
  changed : Bool → Answer
  closed : List ℕ → Answer

abbrev pub respond : Event → Db → Db × Answer
respond (asks key agent_id seq action_type now) db =
    let r = begin key agent_id seq action_type now db in (r.0, verdict r.1)
respond (settles key result now) db = let r = settle key result now db in (r.0, changed r.1)
respond (releases key) db = let r = release key db in (r.0, changed r.1)
respond (sweep locked batch age now) db =
    let r = reconcile locked batch age now db in (r.0, closed (map (λ o. o.key) r.1))

abbrev pub begin_slot : ℕ → Slot → Slot × Verdict
begin_slot now free = (taken now, proceed)
begin_slot now (taken since) = (taken since, unsettled)
begin_slot now (finished result) = (finished result, already result)

abbrev pub settle_slot : Json → Slot → Slot × Bool
settle_slot result (taken since) = (finished (some result), true)
settle_slot result slot = (slot, false)

abbrev pub release_slot : Slot → Slot × Bool
release_slot (taken since) = (free, true)
release_slot slot = (slot, false)

abbrev pub names : List ℕ → ℕ → Bool
names keys key = exists_where (λ k. key == k) keys

-- A reconciliation leaves a slot alone that it does not name. One that it names was taken more than
-- `age` seconds ago and is not locked, and it is closed.
abbrev pub Swept : (ℕ → Bool) → ℕ → ℕ → List ℕ → ℕ → Slot → Slot → Type 0
Swept locked age now keys key before after =
    ((names keys key ≡ false) × (after ≡ before))
    ⊎ (names keys key ≡ true)
      × (locked key ≡ false)
      × ((since : ℕ) × (before ≡ taken since)
          × (since + age * 1000 < now)
          × (after ≡ finished (some unresolved)))

-- The events that the ledger allows, with their answers.
abbrev pub Allows : Event → Slots → Answer → Slots → Type 0
Allows (asks key agent_id seq action_type now) slots answer slots' =
    let r = begin_slot now (slots key) in (answer ≡ verdict r.1) × (slots' ≡ put key r.0 slots)
Allows (settles key result now) slots answer slots' =
    let r = settle_slot result (slots key) in (answer ≡ changed r.1) × (slots' ≡ put key r.0 slots)
Allows (releases key) slots answer slots' =
    let r = release_slot (slots key) in (answer ≡ changed r.1) × (slots' ≡ put key r.0 slots)
Allows (sweep locked batch age now) slots answer slots' =
    (keys : List ℕ) × (answer ≡ closed keys)
    × (length keys ≤ batch)
    × ((key : ℕ) → Swept locked age now keys key (slots key) (slots' key))

-- The view of a table of reservations that forgets all but the slots.
abbrev pub slot_of : Option Reservation → Slot
slot_of none = free
slot_of (some r) = elim r.state [ in_flight ↦ taken r.created_at | done ↦ finished r.result ]

abbrev pub view : Db → Slots
view db key = slot_of (lookup key db)

-- A history of the slots, and the one that the code makes of the same events.
pub data History : List Event → Slots → List Answer → Slots → Type 0 where
  ends : {slots : Slots} → History [] slots [] slots
  step :
      {e : Event} {es : List Event} {slots mid last : Slots} {a : Answer} {answers : List Answer}
      → Allows e slots a mid
      → History es mid answers last
      → History (e ∷ es) slots (a ∷ answers) last

unfoldable pub serve : List Event → Db → Db × List Answer
serve [] db = (db, [])
serve (e ∷ es) db =
    let r = respond e db in let (db', answers) = serve es r.0 in (db', r.1 ∷ answers)
