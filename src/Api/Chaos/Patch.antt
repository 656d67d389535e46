-- ===== src/Api/Chaos/Patch.antt =====
-- api/main.py: the settings of a tool under a patch.
use reliable_ai_agents.Prelude.{
  ◌≡◌, refl, ap, ◌∙◌, String, str_eq, eq_refl, ◌||◌, Bool, false, Option, none, some, if◌then◌else◌,
}
use reliable_ai_agents.Json.{Json, num, str, Fields, end, field_of, merge_fields}
use reliable_ai_agents.Json.Laws.{field_of-merge_fields, last_of}
use reliable_ai_agents.Tasks.Tools.{Tool, Description, get_default, described, is_there, is_text}
use reliable_ai_agents.Api.Chaos.{ToolChaos, number, text, patch_of, sent}

-- A sent value, or the old one.
abbrev pub or_old : Option Json → Json → Json
or_old none old = old
or_old (some value) old = value

abbrev pub mode_after : Option String → Description → Json
mode_after none d = d.mode
mode_after (some mode) d = if str_eq mode "mock" || d.has_live then str mode else str "mock"

-- The description of a tool after its settings in `body`, against the one before.
pub record IsPatched (body : ToolChaos) (d d' : Description) : Type 0 where
  pub name : d'.name ≡ d.name
  pub mode : d'.mode ≡ mode_after body.mode d
  pub has_live : d'.has_live ≡ d.has_live
  pub latency_ms : d'.latency_ms ≡ or_old (number body.latency_ms) d.latency_ms
  pub failure_rate : d'.failure_rate ≡ or_old body.failure_rate d.failure_rate
  pub side_effecting : d'.side_effecting ≡ d.side_effecting

abbrev or_before : Option Json → Option Json → Option Json
or_before none before = before
or_before (some value) before = some value

last_of-sent_other :
    (j k : String) (o : Option Json) (rest : Fields) (before : Option Json)
    → str_eq k j ≡ false
    → last_of j (sent k o rest) before ≡ last_of j rest before
last_of-sent_other j k none rest before ne = refl
last_of-sent_other j k (some v) rest before ne =
    ap (λ (b : Bool). last_of j rest (if b then some v else before)) ne

last_of-sent :
    (k : String) (o : Option Json) (rest : Fields) (before : Option Json)
    → last_of k (sent k o rest) before ≡ last_of k rest (or_before o before)
last_of-sent k none rest before = refl
last_of-sent k (some v) rest before =
    ap (λ (b : Bool). last_of k rest (if b then some v else before)) (eq_refl k)

module _ (body : ToolChaos) (before : Option Json) where
  last-failure_rate :
      last_of "failure_rate" (patch_of body) before ≡ or_before body.failure_rate before
  last-failure_rate =
      last_of-sent "failure_rate" body.failure_rate _ before
      ∙ last_of-sent_other "failure_rate" "latency_ms" (number body.latency_ms) _ _ refl
      ∙ last_of-sent_other "failure_rate" "mode" (text body.mode) end _ refl

  last-latency_ms :
      last_of "latency_ms" (patch_of body) before ≡ or_before (number body.latency_ms) before
  last-latency_ms =
      last_of-sent_other "latency_ms" "failure_rate" body.failure_rate _ before refl
      ∙ last_of-sent "latency_ms" (number body.latency_ms) _ before
      ∙ last_of-sent_other "latency_ms" "mode" (text body.mode) end _ refl

  last-mode : last_of "mode" (patch_of body) before ≡ or_before (text body.mode) before
  last-mode =
      last_of-sent_other "mode" "failure_rate" body.failure_rate _ before refl
      ∙ last_of-sent_other "mode" "latency_ms" (number body.latency_ms) _ before refl
      ∙ last_of-sent "mode" (text body.mode) end before

get_default-or_before :
    (d : Json) (o before : Option Json)
    → get_default d (or_before o before) ≡ or_old o (get_default d before)
get_default-or_before d none before = refl
get_default-or_before d (some v) before = refl

module _ (t : Tool) (common : Json) (ov : Fields) (body : ToolChaos) where
  abbrev old : Description
  old = described t common ov

  abbrev new_one : Description
  new_one = described t common (merge_fields ov (patch_of body))

  abbrev chosen : Json → Json
  chosen mode = if is_text "mock" mode || is_there t.live then mode else str "mock"

  mode-chosen :
      (o : Option String) (mode : Json)
      → chosen (or_old (text o) mode) ≡ mode_after o (record old { mode = chosen mode })
  unfolding described
  mode-chosen none mode = refl
  mode-chosen (some m) mode = refl

  pub described-IsPatched : IsPatched body old new_one
  unfolding described
  described-IsPatched = record {
    name = refl;
    mode =
        ap (λ (o : Option Json). chosen (get_default common o))
          (field_of-merge_fields "mode" ov (patch_of body) ∙ last-mode body (field_of "mode" ov))
        ∙ ap chosen (get_default-or_before common (text body.mode) (field_of "mode" ov))
        ∙ mode-chosen body.mode (get_default common (field_of "mode" ov));
    has_live = refl;
    latency_ms =
        ap (get_default (num t.latency_ms)) (
          field_of-merge_fields "latency_ms" ov (patch_of body)
          ∙ last-latency_ms body (field_of "latency_ms" ov))
        ∙ get_default-or_before (num t.latency_ms) (number body.latency_ms)
            (field_of "latency_ms" ov);
    failure_rate =
        ap (get_default t.failure_rate) (
          field_of-merge_fields "failure_rate" ov (patch_of body)
          ∙ last-failure_rate body (field_of "failure_rate" ov))
        ∙ get_default-or_before t.failure_rate body.failure_rate (field_of "failure_rate" ov);
    side_effecting = refl;
  }
