-- ===== src/Runtime/Stale.antt =====
-- common/runtime.py: how old the flags of a read can be. `db_at` is the database at each millisecond,
-- which other processes change; the cache is the reading process's own.
use reliable_ai_agents.Prelude.{
  ℕ, ◌+◌, ◌≤◌, ◌<◌, ◌≡◌, refl, ap, ◌∙◌, ◌++◌, String, eq_refl, Bool, true, false, some, [], ◌∷◌,
  arith, if◌then◌else◌, ◌⊎◌, inl, inr, ltb, Bool-cases, ◌-◌, ◌&&◌, not,
}
use reliable_ai_agents.Json.{Json}
use reliable_ai_agents.Schema.{Db}
use reliable_ai_agents.Runtime.{
  Flags, get, Cache, merged, flags, invalidate, set_config, defaults, is_empty, cache_ms,
}
use reliable_ai_agents.Runtime.Laws.{get-set_config}

get-append :
    (key : String) (value : Json) (xs ys : Flags)
    → get key xs ≡ some value
    → get key (xs ++ ys) ≡ some value
unfolding get
get-append key value [] ys h = cc
get-append key value ((k, v) ∷ xs) ys h = ground (arith, get-append key value xs ys)

module _ (db_at : ℕ → Db) where
  -- A process's cache at a time, after any reads and any calls of `invalidate`.
  pub data Reads : ℕ → Cache → Type 0 where
    starts : Reads 0 invalidate
    reads :
        {since : ℕ} {cache : Cache} (fresh : Bool) (now : ℕ)
        → Reads since cache
        → since ≤ now
        → Reads now (flags fresh now (db_at now) cache).0
    invalidates : {since : ℕ} {cache : Cache} → Reads since cache → Reads since invalidate

  abbrev Taken : ℕ → Cache → Type 0
  Taken since cache =
      (cache.entries ≡ [])
      ⊎ (cache.cached_at ≤ since) × (cache.entries ≡ merged (db_at cache.cached_at))

  -- What a read returns was the table's content at `seen`.
  abbrev pub Seen : Bool → ℕ → Flags → ℕ → Type 0
  Seen fresh now fs seen =
      (seen ≤ now) × (now < seen + 2000) × (fs ≡ merged (db_at seen)) × (fresh ≡ true → seen ≡ now)

  read-Seen :
      (fresh : Bool) (since now : ℕ) (cache : Cache)
      → Taken since cache
      → since ≤ now
      → ((seen : ℕ) × Seen fresh now (flags fresh now (db_at now) cache).1 seen)
        × Taken now (flags fresh now (db_at now) cache).0
  unfolding flags
  read-Seen fresh since now cache taken le =
      let current =
        not fresh && (not (is_empty cache.entries) && ltb (now - cache.cached_at) cache_ms) in
      elim (Bool-cases current) [
        | inl hit ↦ elim taken [
          | inl empty ↦
              let q : is_empty cache.entries ≡ true = rw empty refl in
              absurd (ground (arith, hit, q))
          | inr t ↦
              let held : cache.cached_at ≤ now = omega (arith, t.0, le) in
              let young : now < cache.cached_at + 2000 = ground (arith, hit, held) in
              let stale : fresh ≡ false = ground (arith, hit) in
              rw hit ((cache.cached_at, (held, young, t.1, λ e. cc)), inr (held, t.1))
        ]
        | inr miss ↦
            rw miss ((now, (omega arith, omega arith, refl, λ e. refl)), inr (omega arith, refl))
      ]

  Reads-Taken : {since : ℕ} {cache : Cache} → Reads since cache → Taken since cache
  unfolding invalidate
  Reads-Taken starts = inl refl
  Reads-Taken (reads {since} {cache} fresh now r le) =
      (read-Seen fresh since now cache (Reads-Taken r) le).1
  Reads-Taken (invalidates r) = inl refl

  -- Whatever the process read before and the other processes wrote meanwhile: the flags that a read
  -- returns are what the table held, over the defaults, at a moment less than two seconds before, and
  -- at the moment itself where the read is fresh.
  pub flags-Seen :
      {since : ℕ} {cache : Cache} (fresh : Bool) (now : ℕ)
      → Reads since cache
      → since ≤ now
      → (seen : ℕ) × Seen fresh now (flags fresh now (db_at now) cache).1 seen
  flags-Seen {since} {cache} fresh now r le = (read-Seen fresh since now cache (Reads-Taken r) le).0

  -- A flag that is set at `written`, and whose value no one changes again, whatever is written to the
  -- other flags, is what every process reads from two seconds later on.
  pub flags-set_config :
      {since : ℕ} {cache : Cache} (fresh : Bool) (written now : ℕ) (key : String) (value : Json)
      (rows : Flags)
      → Reads since cache
      → since ≤ now
      → (db_at written).runtime_config ≡ set_config key value rows
      → ((at : ℕ)
          → written ≤ at
          → get key (db_at at).runtime_config ≡ get key (db_at written).runtime_config)
      → written + 2000 ≤ now
      → get key (flags fresh now (db_at now) cache).1 ≡ some value
  unfolding merged
  flags-set_config fresh written now key value rows r le set stays late =
      let (seen, s) = flags-Seen fresh now r le in
      let (before, young, fs, same) = s in
      let row = stays seen (omega (arith, young, late)) in
      ap (get key) fs
      ∙ get-append key value (db_at seen).runtime_config defaults (
          row
          ∙ (ap (get key) set
              ∙ (get-set_config key key value rows
                  ∙ ap (λ (b : Bool). if b then some value else get key rows) (eq_refl key))))
