-- ===== src/Tasks/Library.antt =====
-- tasks/registry.py: the task library. `base` is what `base_tier` returns when a task runs, `none`
-- its IndexError; `call` is `tools.call` as the task finds it.
pub mod Hard
use reliable_ai_agents.Prelude.{
  ℕ, suc, String, str_eq, Bool, true, false, Option, none, some, List, [], ◌∷◌, if◌then◌else◌,
  length, order_by,
}
use reliable_ai_agents.Json.{
  Json, bool, num, decimal, str, list, object, Items, nil, cons, Fields, end, field,
}
use reliable_ai_agents.Schema.{Detail}
use reliable_ai_agents.Failures.{capability_failure}
use reliable_ai_agents.Protocol.{
  Difficulty, easy, hard, TaskContext, Run, returns, fails, crashes, TaskDef,
}
use reliable_ai_agents.Registry.{Registry, add}

abbrev pub Call : Type 0
Call = String → Fields → Run

-- `_hard`, and what the task does after it.
abbrev pub beyond : Option String → String → String → Run → Run
beyond none tier what answer = crashes "IndexError"
beyond (some base) tier what answer =
    if str_eq tier base then fails (capability_failure (Detail.no_answer what)) else answer

unfoldable pub hard_run : Option String → String → TaskContext → Fields → Run
hard_run base what ctx fs = beyond base ctx.tier what (returns (object fs))

abbrev pub keys : List (ℕ × Json) → List ℕ
keys [] = []
keys ((k, v) ∷ rest) = k ∷ keys rest

abbrev pub numbers : List ℕ → Items
numbers [] = nil
numbers (n ∷ ns) = cons (num n) (numbers ns)

-- sorted(ctx.prior)
unfoldable pub steps : TaskContext → Json
steps ctx = list (numbers (order_by (λ n. n) (keys ctx.prior)))

-- {key: tools.call(…)}
abbrev pub under : String → Run → Run
under key (returns out) = returns (object (field key out end))
under key (fails f) = fails f
under key (crashes e) = crashes e

abbrev pub simple : ℕ → String → Fields → TaskDef
simple id name fs = record {
  id = id;
  name = name;
  run = λ ctx. returns (object fs);
  difficulty = easy;
  side_effecting = false;
  tool = none;
}

-- A task that calls the tool that it declares.
abbrev pub tooled : Call → ℕ → String → String → Bool → String → String → String → TaskDef
tooled call id name tool side_effecting key param value = record {
  id = id;
  name = name;
  run = λ ctx. under key (call tool (field param (str value) end));
  difficulty = easy;
  side_effecting = side_effecting;
  tool = some tool;
}

abbrev pub thinking : Option String → ℕ → String → String → (TaskContext → Fields) → TaskDef
thinking base id name what result = record {
  id = id;
  name = name;
  run = λ ctx. hard_run base what ctx (result ctx);
  difficulty = hard;
  side_effecting = false;
  tool = none;
}

-- 1-9 intake
abbrev pub parse_request : TaskDef
parse_request =
    simple 1 "parse-request" (
      field "intent" (str "investigate_payment_failure") (field "service" (str "payments-api") end))

abbrev pub classify_severity : TaskDef
classify_severity =
    simple 2 "classify-severity"
      (field "severity" (str "sev2") (field "customer_facing" (bool true) end))

abbrev pub extract_entities : TaskDef
extract_entities = simple 3 "extract-entities" (
    field "services" (list (cons (str "payments-api") (cons (str "ledger") nil)))
      (field "regions" (list (cons (str "us-east-1") nil)) end))

-- 10-19 observe
abbrev pub search_logs : Call → TaskDef
search_logs call = tooled call 10 "search-logs" "logs" false "logs" "query" "payments-api ERROR"

abbrev pub query_metrics : Call → TaskDef
query_metrics call = tooled call 11 "query-metrics" "metrics_db" false "metrics" "window" "1h"

abbrev pub check_deploys : Call → TaskDef
check_deploys call = tooled call 12 "check-deploys" "github" false "github" "repo" "psycopg/psycopg"

abbrev pub scan_codebase : Call → TaskDef
scan_codebase call = tooled call 13 "scan-codebase" "files" false "scan" "pattern" "SKIP LOCKED"

abbrev pub run_diagnostics : Call → TaskDef
run_diagnostics call = tooled call 14 "run-diagnostics" "shell" false "diagnostics" "cmd" "git-log"

abbrev pub fetch_status_page : Call → TaskDef
fetch_status_page call =
    tooled call 15 "fetch-status-page" "http" false "status_page" "url" "https://api.github.com/zen"

abbrev pub read_jira : Call → TaskDef
read_jira call = tooled call 16 "read-jira" "jira" false "jira" "action" "read"

-- 20-29 analyse
unfoldable pub correlate_signals : Option String → TaskDef
unfolding steps
correlate_signals base =
    thinking base 20 "correlate-signals" "correlating signals across sources" (λ ctx.
      field "correlated" (bool true)
        (field "solved_by" (str ctx.tier) (field "sources" (steps ctx) end)))

unfoldable pub root_cause_analysis : Option String → TaskDef
unfolding steps
root_cause_analysis base = thinking base 21 "root-cause-analysis" "root cause analysis" (λ ctx.
    field "root_cause" (str "connection pool exhaustion after deploy #8814") (
      field "confidence" (decimal 91 2)
        (field "solved_by" (str ctx.tier) (field "evidence_from_steps" (steps ctx) end))))

abbrev pub assess_blast_radius : TaskDef
assess_blast_radius =
    simple 22 "assess-blast-radius"
      (field "affected_users" (num 12400) (field "regions" (list (cons (str "us-east-1") nil)) end))

unfoldable pub rank_hypotheses : Option String → TaskDef
rank_hypotheses base = thinking base 23 "rank-hypotheses" "ranking competing hypotheses" (λ ctx.
    field "top" (str "pool exhaustion")
      (field "alternatives" (num 3) (field "solved_by" (str ctx.tier) end)))

-- 30-39 decide
unfoldable pub draft_summary : TaskDef
unfolding steps
draft_summary = record {
  id = 30;
  name = "draft-summary";
  run = λ ctx. returns (
      object (
        field "summary" (str "Payment failures traced to pool exhaustion.")
          (field "based_on_steps" (steps ctx) end)));
  difficulty = easy;
  side_effecting = false;
  tool = none;
}

unfoldable pub recommend_remediation : Option String → TaskDef
recommend_remediation base =
    thinking base 31 "recommend-remediation" "recommending a remediation" (λ ctx.
      field "action" (str "raise pool size to 60 and roll back #8814")
        (field "solved_by" (str ctx.tier) end))

abbrev pub estimate_risk : TaskDef
estimate_risk =
    simple 32 "estimate-risk" (field "rollback_risk" (str "low") (field "eta_minutes" (num 15) end))

-- 40-49 act
abbrev pub create_jira_ticket : Call → TaskDef
create_jira_ticket call = tooled call 40 "create-jira-ticket" "jira" true "jira" "action" "create"

abbrev pub notify_slack : Call → TaskDef
notify_slack call = tooled call 41 "notify-slack" "slack" true "slack" "channel" "#payments-oncall"

abbrev pub page_oncall : Call → TaskDef
page_oncall call = tooled call 42 "page-oncall" "pagerduty" true "page" "severity" "sev2"

abbrev pub post_status_update : Call → TaskDef
post_status_update call =
    tooled call 43 "post-status-update" "http" true "posted" "url" "https://api.github.com/zen"

-- 50-59 verify
abbrev pub verify_resolution : TaskDef
verify_resolution =
    simple 50 "verify-resolution" (field "resolved" (bool true) (field "checks_passed" (num 4) end))

unfoldable pub write_postmortem : Option String → TaskDef
write_postmortem base = thinking base 51 "write-postmortem" "writing the postmortem" (λ ctx.
    field "postmortem" (str "PM-118")
      (field "steps_covered" (num (length ctx.prior)) (field "solved_by" (str ctx.tier) end)))

-- TASK_DEFS, in the order in which the decorators add them.
unfoldable pub task_defs : Option String → Call → Registry
unfolding correlate_signals root_cause_analysis rank_hypotheses draft_summary recommend_remediation
    write_postmortem hard_run
task_defs base call =
    parse_request
    ∷ classify_severity
    ∷ extract_entities
    ∷ search_logs call
    ∷ query_metrics call
    ∷ check_deploys call
    ∷ scan_codebase call
    ∷ run_diagnostics call
    ∷ fetch_status_page call
    ∷ read_jira call
    ∷ correlate_signals base
    ∷ root_cause_analysis base
    ∷ assess_blast_radius
    ∷ rank_hypotheses base
    ∷ draft_summary
    ∷ recommend_remediation base
    ∷ estimate_risk
    ∷ create_jira_ticket call
    ∷ notify_slack call
    ∷ page_oncall call
    ∷ post_status_update call
    ∷ verify_resolution
    ∷ write_postmortem base
    ∷ []
