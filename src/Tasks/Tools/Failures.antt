-- ===== src/Tasks/Tools/Failures.antt =====
-- tasks/tools.py: the failures of `call`.
use reliable_ai_agents.Prelude.{
  ℕ, ◌≡◌, ◌≢◌, refl, subst, ◌⊎◌, inl, inr, String, Bool, true, false, Option, none, some,
  Bool-cases, Option-cases,
}
use reliable_ai_agents.Json.{Json, null, bool, num, decimal, str, list, object, Fields}
use reliable_ai_agents.Schema.{FailureClass, infra, capability, poison}
use reliable_ai_agents.Failures.{TaskFailure}
use reliable_ai_agents.Protocol.{Run, returns, fails, crashes}
use reliable_ai_agents.Tasks.Tools.{
  Implementation, Tool, Tools, find, ToolConfig, Description, describe, choose, is_text, as_number,
  is_below, wrap_failure, answer, run_tool, sleeps, tried, call,
}

-- An implementation that the tool has.
abbrev pub Offers : Tool → Implementation → Type 0
Offers t impl = (impl ≡ t.mock) ⊎ (t.live ≡ some impl)

-- Why `call` fails: the infrastructure, or something that no retry fixes, which is a name that is no
-- tool or what an implementation itself called poison.
abbrev pub Explains : Tools → String → Fields → TaskFailure → Type 0
Explains tools name payload f =
    (f.failure_class ≡ infra)
    ⊎ (f.failure_class ≡ poison)
      × ((find name tools ≡ none)
          ⊎ ((t : Tool) × (impl : Implementation) × (find name tools ≡ some t)
              × Offers t impl
              × (impl payload ≡ fails f)))

choose-Offers : (live_mode : Bool) (t : Tool) → Offers t (choose live_mode t.live t.mock)
choose-Offers live_mode t = go live_mode t.live refl
  where
    go : (b : Bool) (o : Option Implementation) → t.live ≡ o → Offers t (choose b o t.mock)
    go true none e = inl refl
    go true (some live) e = inr e
    go false none e = inl refl
    go false (some live) e = inl refl

module _ (tools : Tools) (name : String) (payload : Fields) where
  abbrev Explained : Run → Type 0
  Explained (fails f) = Explains tools name payload f
  Explained (returns j) = Unit
  Explained (crashes e) = Unit

  answer-fails :
      (t : Tool) (impl : Implementation) (mode : Json) (ms : ℕ) (f : TaskFailure)
      → find name tools ≡ some t
      → Offers t impl
      → impl payload ≡ fails f
      → Explains tools name payload (wrap_failure t.name f.failure_class f)
  answer-fails t impl mode ms f found offers ran = go f.failure_class refl
    where
      go :
          (c : FailureClass)
          → f.failure_class ≡ c
          → Explains tools name payload (wrap_failure t.name c f)
      go infra e = inl e
      go capability e = inl refl
      go poison e = inr (e, inr (t, impl, found, offers, ran))

  answer-Explained :
      (t : Tool) (impl : Implementation) (mode : Json) (ms : ℕ)
      → find name tools ≡ some t
      → Offers t impl
      → (r : Run) → impl payload ≡ r
      → Explained (answer t.name mode ms r)
  unfolding answer
  answer-Explained t impl mode ms found offers (returns null) e = tt
  answer-Explained t impl mode ms found offers (returns (bool b)) e = tt
  answer-Explained t impl mode ms found offers (returns (num n)) e = tt
  answer-Explained t impl mode ms found offers (returns (decimal m k)) e = tt
  answer-Explained t impl mode ms found offers (returns (str s)) e = tt
  answer-Explained t impl mode ms found offers (returns (list xs)) e = tt
  answer-Explained t impl mode ms found offers (returns (object fs)) e = tt
  answer-Explained t impl mode ms found offers (fails f) e =
      answer-fails t impl mode ms f found offers e
  answer-Explained t impl mode ms found offers (crashes c) e = inl refl

  run_tool-Explained :
      (t : Tool) (d : Description) (draw ms : ℕ)
      → find name tools ≡ some t
      → Explained (run_tool t d draw ms payload)
  unfolding run_tool
  run_tool-Explained t d draw ms found = elim (Option-cases (as_number d.failure_rate)) [
    | inl bad ↦ rw (bad, run_tool) tt
    | inr rate ↦ elim (Bool-cases (is_below draw rate.0)) [
      | inl drawn ↦ rw (rate.1, drawn, run_tool) (inl refl)
      | inr spared ↦
          let impl = choose (is_text "live" d.mode) t.live t.mock in
          rw (rate.1, spared, run_tool)
            (answer-Explained t impl d.mode ms found (choose-Offers (is_text "live" d.mode) t)
              (impl payload) refl)
    ]
  ]

  tried-Explained :
      (t : Tool) (o : Option Description) (draw ms : ℕ)
      → find name tools ≡ some t
      → Explained (tried t o draw ms payload)
  tried-Explained t none draw ms found = tt
  tried-Explained t (some d) draw ms found = elim (Bool-cases (sleeps d)) [
    | inl able ↦ rw able (run_tool-Explained t d draw ms found)
    | inr unable ↦ rw unable tt
  ]

  pub call-Explained :
      (cfg : ToolConfig) (draw ms : ℕ) → Explained (call tools cfg draw ms name payload)
  unfolding call
  call-Explained cfg draw ms = elim (Option-cases (find name tools)) [
    | inl unknown ↦ rw (unknown, call) (inr (refl, inl unknown))
    | inr t ↦ rw (t.1, call) (tried-Explained t.0 (describe name tools cfg) draw ms t.1)
  ]

  -- A failure of `call` is an infra failure; or it is poison, and then the name is no tool or one of
  -- the tool's implementations raised that very failure. It is never a capability failure, also
  -- where an implementation raised one.
  pub call-Explains :
      (cfg : ToolConfig) (draw ms : ℕ) (f : TaskFailure)
      → call tools cfg draw ms name payload ≡ fails f
      → Explains tools name payload f × (f.failure_class ≢ capability)
  call-Explains cfg draw ms f h =
      let why = subst Explained h (call-Explained cfg draw ms) in
      (why, elim why [ inl i ↦ (λ c. cc) | inr p ↦ (λ c. let q = p.0 in cc) ])
