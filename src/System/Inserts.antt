-- ===== src/System/Inserts.antt =====
-- orchestrator/queue.py: the repair of the queue, against the ordering invariant. The ids that the database draws are new: each differs from the others and from
-- those in the tables.
use mathlib.Core.List.Memᴰ
use reliable_ai_agents.Prelude.{
  ℕ, suc, ◌<◌, ◌≤◌, ◌≡◌, ◌≢◌, refl, sym, ap, ◌∙◌, subst, some-injective, inl, inr, String, Bool,
  true, false, not, ◌&&◌, Option, none, some, List, [], ◌∷◌, ◌++◌, Memᴰ, arith, get_or, Bool-cases,
  exists_where, exists_where-of_mem, mem-select, mem-order_by, mem-take,
}
use reliable_ai_agents.Schema.{Agent, Tier, Task, Db}
use reliable_ai_agents.Tiers.{base_tier}
use reliable_ai_agents.Orchestrator.Queue.{
  new_task, conflicts, insert_missing, stalled, is_stalled, repair_stalled,
}
use reliable_ai_agents.System.Ordered.{Placed, IsOrdered, IsOrdered-add_task}
use reliable_ai_agents.System.Moves.{Ordered}

-- From number `i` on, the ids drawn are in no row.
pub record FreshFrom (uuid : ℕ → ℕ) (i : ℕ) (agents : List Agent) (tasks : List Task) : Type 0 where
  pub distinct : (j k : ℕ) → uuid j ≡ uuid k → j ≡ k
  pub new_agent_id : (j : ℕ) → i ≤ j → (a : Agent) → Memᴰ a agents → a.id ≢ uuid j
  pub new_task_id : (j : ℕ) → i ≤ j → (t : Task) → Memᴰ t tasks → t.id ≢ uuid j
  pub unreferenced : (j : ℕ) → i ≤ j → (t : Task) → Memᴰ t tasks → t.agent_id ≢ uuid j

exists_none :
    (p : Task → Bool) (ts : List Task) (t : Task)
    → exists_where p ts ≡ false
    → Memᴰ t ts
    → p t ≡ true
    → ⊥
exists_none p ts t h m e = let q : true ≡ false = sym (exists_where-of_mem p ts m e) ∙ h in cc

FreshFrom-later :
    (uuid : ℕ → ℕ) (i k : ℕ) (agents : List Agent) (tasks : List Task)
    → i ≤ k
    → FreshFrom uuid i agents tasks
    → FreshFrom uuid k agents tasks
FreshFrom-later uuid i k agents tasks le fresh = record {
  distinct = fresh.distinct;
  new_agent_id = λ j h. fresh.new_agent_id j (omega arith);
  new_task_id = λ j h. fresh.new_task_id j (omega arith);
  unreferenced = λ j h. fresh.unreferenced j (omega arith);
}

-- A row with id number `i`, of an agent that is in the table or has an earlier number.
pub FreshFrom-add_task :
    (uuid : ℕ → ℕ) (i : ℕ) (agents : List Agent) (tasks : List Task) (row : Task)
    → FreshFrom uuid i agents tasks
    → row.id ≡ uuid i
    → ((j : ℕ) → i < j → row.agent_id ≢ uuid j)
    → FreshFrom uuid (suc i) agents (tasks ++ row ∷ [])
FreshFrom-add_task uuid i agents tasks row fresh e owner = record {
  distinct = fresh.distinct;
  new_agent_id = λ j h. fresh.new_agent_id j (omega arith);
  new_task_id = λ j h t m q. elim (Memᴰ.append_cases tasks m) [
    | inl old ↦ fresh.new_task_id j (omega arith) t old q
    | inr new ↦
        let same : uuid i ≡ uuid j =
          sym e ∙ sym (ap (λ (x : Task). x.id) (Memᴰ.eq_of_singleton new)) ∙ q in
        let ij : i ≡ j = fresh.distinct i j same in absurd (omega arith)
  ];
  unreferenced = λ j h t m q. elim (Memᴰ.append_cases tasks m) [
    | inl old ↦ fresh.unreferenced j (omega arith) t old q
    | inr new ↦ owner j h (sym (ap (λ (x : Task). x.agent_id) (Memᴰ.eq_of_singleton new)) ∙ q)
  ];
}

module _ (uuid : ℕ → ℕ) (tier : String) (now : ℕ) (agents : List Agent) (held : List Task) where
  missing_row-Placed : (id def : ℕ) (a : Agent) → Placed a (new_task id a.id a.cursor def tier now)
  unfolding new_task
  missing_row-Placed id def a = ground arith

  -- The batch is a list of agents of the table.
  insert_missing-IsOrdered :
      (i : ℕ) (batch : List Agent) (tasks : List Task)
      → ((a : Agent) → Memᴰ a batch → Memᴰ a agents)
      → FreshFrom uuid i agents tasks
      → IsOrdered agents tasks held
      → IsOrdered agents (insert_missing uuid i tier now batch tasks).0 held
  unfolding insert_missing
  insert_missing-IsOrdered i [] tasks within fresh ordered = ordered
  insert_missing-IsOrdered i (a ∷ rest) tasks within fresh ordered =
      elim (Bool-cases (exists_where (conflicts row) tasks)) [
        | inl taken ↦ rw taken (
            insert_missing-IsOrdered (suc i) rest tasks (λ b m. within b (Memᴰ.tail m))
              (FreshFrom-later uuid i (suc i) agents tasks (omega arith) fresh) ordered)
        | inr free ↦ rw free (
            insert_missing-IsOrdered (suc i) rest (tasks ++ row ∷ [])
              (λ b m. within b (Memᴰ.tail m))
              (FreshFrom-add_task uuid i agents tasks row fresh (unfold new_task in refl)
                (λ j lt. fresh.new_agent_id j (omega arith) a (within a (Memᴰ.head refl))))
              (IsOrdered-add_task ordered row (λ t m. fresh.new_task_id i (omega arith) t m)
                (λ t m ea es. exists_none (conflicts row) tasks t free m (conflict t ea es))
                (λ b mb e.
                  subst (λ x. Placed x row)
                    (ordered.agents_keyed a b (within a (Memᴰ.head refl)) mb e)
                    (missing_row-Placed (uuid i) def a))))
      ]
    where
      def : ℕ
      def = get_or a.plan a.cursor 0

      row : Task
      row = new_task (uuid i) a.id a.cursor def tier now

      conflict : (t : Task) → t.agent_id ≡ row.agent_id → t.seq ≡ row.seq → conflicts row t ≡ true
      conflict t ea es = ground arith

abbrev pub Fresh : (ℕ → ℕ) → Db → Type 0
Fresh uuid db = FreshFrom uuid 0 db.agents db.tasks

stalled-mem :
    (locked : ℕ → Bool) (batch : ℕ) (db : Db) (a : Agent)
    → Memᴰ a (stalled locked batch db)
    → Memᴰ a db.agents
unfolding stalled
stalled-mem locked batch db a m =
    (mem-select (λ x. is_stalled db.tasks x && not (locked x.id)) db.agents
      (mem-order_by (λ x. x.created_at) _ (mem-take batch _ m))).0

pub repair_stalled-Ordered :
    (locked : ℕ → Bool) (batch : ℕ) (uuid : ℕ → ℕ) (ladder : List Tier) (now : ℕ) (db db' : Db)
    (rows held : List Task)
    → Fresh uuid db
    → Ordered db held
    → repair_stalled locked batch uuid ladder now db ≡ some (db', rows)
    → Ordered db' held
unfolding repair_stalled
repair_stalled-Ordered locked batch uuid ladder now db db' rows held fresh ordered h =
    filled (base_tier ladder) h
  where
    filled :
        (o : Option String)
        → elim o as (λ x. Option (Db × List Task)) [
          | none ↦ none
          | some tier ↦ some (
            record db {
              tasks = (insert_missing uuid 0 tier now (stalled locked batch db) db.tasks).0;
            },
            (insert_missing uuid 0 tier now (stalled locked batch db) db.tasks).1,
          )
        ]
          ≡ some (db', rows)
        → Ordered db' held
    filled none q = cc
    filled (some tier) q =
        subst (λ (d : Db). Ordered d held) (ap (λ (x : Db × List Task). x.0) (some-injective _ _ q))
          (insert_missing-IsOrdered uuid tier now db.agents held 0 (stalled locked batch db)
            db.tasks (λ a m. stalled-mem locked batch db a m) fresh ordered)
