-- ===== src/Api/Chaos/Effect.antt =====
-- api/main.py: what `chaos_tool` does to the description of every tool, once the settings are read
-- again.
use reliable_ai_agents.Prelude.{
  ◌≡◌, ◌≢◌, refl, sym, ap, ◌∙◌, subst, String, ◌&&◌, Option, none, some, some-injective, Bool-cases,
  Option-cases, inl, inr,
}
use reliable_ai_agents.Json.{object, Fields, set_field, merge_fields, concat, jsonb_set}
use reliable_ai_agents.Schema.{Db}
use reliable_ai_agents.Runtime.{Flags, get, map_row}
use reliable_ai_agents.Tasks.Tools.{
  Tool, Tools, ToolConfig, find, load_config, Description, settings_of, described, describe,
}
use reliable_ai_agents.Tasks.Tools.Overrides.{
  entry, object-of_settings, common_mode, describe-override,
}
use reliable_ai_agents.Api.Chaos.{
  ToolChaos, ToolResponse, applied, invalid_body, not_a_tool, no_settings, patch_of, patched,
  is_rate, is_mode, is_blank, written, chaos_tool,
}
use reliable_ai_agents.Tasks.Tools.Writes.{described_other, described_own}
use reliable_ai_agents.Api.Chaos.Patch.{IsPatched, described-IsPatched}

module _ (name : String) (patch ov fs : Fields) where
  patched-puts :
      entry name fs ≡ object ov
      → patched name patch (object fs)
        ≡ some (object (set_field name (object (merge_fields ov patch)) fs))
  unfolding patched jsonb_set concat get
  patched-puts whole = rw whole refl

-- What stood for a tool that could be described.
described-before :
    (name : String) (tools : Tools) (rows : Flags) (fs : Fields) (t : Tool) (d : Description)
    → get "tool_overrides" rows ≡ some (object fs)
    → find name tools ≡ some t
    → describe name tools (load_config rows) ≡ some d
    → (ov : Fields) × (entry name fs ≡ object ov) × (d ≡ described t (common_mode rows) ov)
described-before name tools rows fs t d row found h =
    let cfg : ToolConfig = record { overrides = object fs; mode = common_mode rows } in
    let e = sym (describe-override name tools rows fs t row found) ∙ h in
    elim (Option-cases (settings_of (entry name fs))) [
      | inl bad ↦ let q : ◌≡◌ {A = Option Description} none (some d) = (rw bad at e) in cc
      | inr ov ↦
          let q : some (described t (common_mode rows) ov.0) ≡ some d = (rw (ov.1) at e) in
          (ov.0, object-of_settings (entry name fs) ov.0 ov.1, sym (some-injective _ _ q))
    ]

-- What an accepted change has written.
module _ (tools : Tools) (body : ToolChaos) (db db' : Db) (p : Fields) where
  written-by :
      (rows : Option Flags)
      → written (patch_of body) db rows ≡ (db', applied p)
      → (rows' : Flags) × (rows ≡ some rows') × (db' ≡ record db { runtime_config = rows' })
  written-by none h = cc
  written-by (some rows) h = (rows, refl, sym (ap (λ (r : Db × ToolResponse). r.0) h))

  applied-writes :
      chaos_tool tools body db ≡ (db', applied p)
      → (t : Tool) × (rows' : Flags) × (find body.name tools ≡ some t)
        × (map_row "tool_overrides" (patched body.name (patch_of body)) db.runtime_config
            ≡ some rows')
        × (db' ≡ record db { runtime_config = rows' })
  unfolding chaos_tool
  applied-writes h = elim (Bool-cases (is_rate body.failure_rate && is_mode body.mode)) [
    | inr bad ↦
        let q : ◌≡◌ {A = Db × ToolResponse} (db, invalid_body) (db', applied p) =
          (rw (bad, chaos_tool) at h) in
        cc
    | inl ok ↦ elim (Option-cases (find body.name tools)) [
      | inl unknown ↦
          let q : ◌≡◌ {A = Db × ToolResponse} (db, not_a_tool body.name) (db', applied p) =
            (rw (ok, unknown, chaos_tool) at h) in
          cc
      | inr t ↦ elim (Bool-cases (is_blank (patch_of body))) [
        | inl blank ↦
            let q : ◌≡◌ {A = Db × ToolResponse} (db, no_settings) (db', applied p) =
              (rw (ok, t.1, blank, chaos_tool) at h) in
            cc
        | inr full ↦
            let (rows', e, d) =
              written-by
                (map_row "tool_overrides" (patched body.name (patch_of body)) db.runtime_config)
                (rw (ok, t.1, full, chaos_tool) at h) in
            (t.0, rows', t.1, e, d)
      ]
    ]
  ]

  -- Where the row of overrides is a dictionary and the tool can be described: a change of a tool's
  -- settings that is accepted changes exactly the settings that were sent, with the mode held to mock
  -- for a tool that has no live implementation, and leaves the description of every other tool as it
  -- was.
  pub chaos_tool-IsPatched :
      (fs : Fields) (d : Description)
      → get "tool_overrides" db.runtime_config ≡ some (object fs)
      → describe body.name tools (load_config db.runtime_config) ≡ some d
      → chaos_tool tools body db ≡ (db', applied p)
      → ((d' : Description) × (describe body.name tools (load_config db'.runtime_config) ≡ some d')
          × IsPatched body d d')
        × ((other : String)
            → body.name ≢ other
            → describe other tools (load_config db'.runtime_config)
              ≡ describe other tools (load_config db.runtime_config))
  chaos_tool-IsPatched fs d row described_d h =
      let rows = db.runtime_config in
      let (t, rows', found, wrote, same) = applied-writes h in
      let (ov, whole, e) = described-before body.name tools rows fs t d row found described_d in
      let new = object (merge_fields ov (patch_of body)) in
      let puts = patched-puts body.name (patch_of body) ov fs whole in
      let after =
        described_own body.name new (patched body.name (patch_of body)) rows rows' fs row puts wrote
          tools t (merge_fields ov (patch_of body)) found refl in
      let kept =
        described_other body.name new (patched body.name (patch_of body)) rows rows' fs row puts
          wrote tools in
      (
        (
          described t (common_mode rows) (merge_fields ov (patch_of body)),
          ap (λ (x : Db). describe body.name tools (load_config x.runtime_config)) same ∙ after,
          subst
              (λ (x : Description).
                IsPatched body x (described t (common_mode rows) (merge_fields ov (patch_of body))))
              (sym e) (described-IsPatched t (common_mode rows) ov body),
        ),
        λ other ne.
            ap (λ (x : Db). describe other tools (load_config x.runtime_config)) same
            ∙ kept other ne,
      )
