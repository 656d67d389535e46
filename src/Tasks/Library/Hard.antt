-- ===== src/Tasks/Library/Hard.antt =====
-- tasks/registry.py over tasks/tools.py: which tasks of the library fail on their own merits.
use reliable_ai_agents.Prelude.{
  ℕ, ◌≡◌, ◌↔◌, refl, sym, ap, String, str_eq, eq_iff, Bool, Option, none, some, some-injective,
  Memᴰ, arith, Bool-cases, inl, inr, All, All-mem,
}
use reliable_ai_agents.Json.{Json, Fields, object, str, field, end}
use reliable_ai_agents.Schema.{capability, Detail}
use reliable_ai_agents.Failures.{TaskFailure, capability_failure}
use reliable_ai_agents.Protocol.{easy, hard, TaskContext, Run, returns, fails, crashes, TaskDef}
use reliable_ai_agents.Tasks.Tools.{Tools, ToolConfig, call}
use reliable_ai_agents.Tasks.Tools.Failures.{call-Explains}
use reliable_ai_agents.Tasks.Library.{
  Call, beyond, hard_run, under, simple, tooled, thinking, draft_summary, task_defs,
}

-- The run fails as the model's fault.
abbrev pub FailsOnMerits : Run → Type 0
FailsOnMerits r = (f : TaskFailure) × (r ≡ fails f) × (f.failure_class ≡ capability)

-- A task is beyond the base tier, and runs there.
abbrev pub IsBeyond : Option String → TaskContext → TaskDef → Type 0
IsBeyond base ctx d = (d.difficulty ≡ hard) × (base ≡ some ctx.tier)

abbrev MeritsRule : Option String → TaskContext → TaskDef → Type 0
MeritsRule base ctx d = FailsOnMerits (d.run ctx) ↔ IsBeyond base ctx d

returns-never : (j : Json) → ¬ FailsOnMerits (returns j)
returns-never j h = let q = h.1 in cc

under-never : (key : String) (r : Run) → ¬ FailsOnMerits r → ¬ FailsOnMerits (under key r)
under-never key (returns out) never h = let q = h.1 in cc
under-never key (fails f) never h = never h
under-never key (crashes e) never h = let q = h.1 in cc

beyond-fails :
    (base : Option String) (tier what : String) (j : Json)
    → FailsOnMerits (beyond base tier what (returns j)) ↔ (base ≡ some tier)
beyond-fails none tier what j = (λ h. let q = h.1 in cc, λ e. cc)
beyond-fails (some b) tier what j = elim (Bool-cases (str_eq tier b)) [
  | inl same ↦
      let e = (eq_iff tier b).0 same in
      rw same
        ((λ h. ap some (sym e)), λ q. (capability_failure (Detail.no_answer what), refl, refl))
  | inr differ ↦ rw differ (
    λ h. absurd (returns-never j h),
    λ q. let same = (eq_iff tier b).1 (sym (some-injective _ _ q)) in ground (arith, same, differ),
  )
]

module _ (base : Option String) (call : Call) (ctx : TaskContext) where
  easy-rule :
      (d : TaskDef) → d.difficulty ≡ easy → ¬ FailsOnMerits (d.run ctx) → MeritsRule base ctx d
  easy-rule d e never = (λ h. absurd (never h), λ b. let q = b.0 in cc)

  simple-rule : (id : ℕ) (name : String) (fs : Fields) → MeritsRule base ctx (simple id name fs)
  simple-rule id name fs = easy-rule (simple id name fs) refl (returns-never (object fs))

  thinking-rule :
      (id : ℕ) (name what : String) (result : TaskContext → Fields)
      → MeritsRule base ctx (thinking base id name what result)
  unfolding hard_run
  thinking-rule id name what result =
      let r = beyond-fails base ctx.tier what (object (result ctx)) in
      (λ h. (refl, r.0 h), λ b. r.1 b.1)

  module _
      (blameless : (name : String) (payload : Fields) → ¬ FailsOnMerits (call name payload)) where
    tooled-rule :
        (id : ℕ) (name tool : String) (acts : Bool) (key param value : String)
        → MeritsRule base ctx (tooled call id name tool acts key param value)
    tooled-rule id name tool acts key param value =
        easy-rule (tooled call id name tool acts key param value) refl (
          under-never key (call tool (field param (str value) end))
            (blameless tool (field param (str value) end)))

    task_defs-rule : All (MeritsRule base ctx) (task_defs base call)
    unfolding task_defs
    task_defs-rule =
        let draft_rule = easy-rule draft_summary refl (returns-never _) in
        search (simple-rule, tooled-rule, thinking-rule, draft_rule)

-- A task of the library fails on its own merits exactly when it is a hard one and runs at the base
-- tier; whatever the tools do, no other failure of a task is a capability failure.
pub task_defs-MeritsRule :
    (tools : Tools) (cfg : ToolConfig) (draw ms : ℕ) (base : Option String) (ctx : TaskContext)
    (d : TaskDef)
    → Memᴰ d (task_defs base (call tools cfg draw ms))
    → FailsOnMerits (d.run ctx) ↔ IsBeyond base ctx d
task_defs-MeritsRule tools cfg draw ms base ctx d m =
    All-mem (MeritsRule base ctx) (task_defs base (call tools cfg draw ms))
      (task_defs-rule base (call tools cfg draw ms) ctx
        (λ name payload h. (call-Explains tools name payload cfg draw ms h.0 h.1).1 h.2))
      m
