-- ===== src/Tasks/Tools/Mocks.antt =====
-- tasks/tools.py: the mock implementations, registered in the order of the file.
use reliable_ai_agents.Prelude.{ℕ, String, Bool, true, false, none, []}
use reliable_ai_agents.Json.{Json, bool, num, decimal, str, object, Fields, end, field, field_of}
use reliable_ai_agents.Protocol.{returns}
use reliable_ai_agents.Tasks.Tools.{Implementation, Tools, tool, get_default}

-- p.get(key, default)
unfoldable pub param : String → String → Fields → Json
unfolding field_of
param key default p = get_default (str default) (field_of key p)

unfoldable pub logs : Implementation
logs p =
    returns (
      object (field "matches" (num 42) (field "top_error" (str "UpstreamTimeout on charge()") end)))

unfoldable pub github : Implementation
github p = returns (object (field "recent_deploys" (num 2) (field "suspect_pr" (str "#8814") end)))

unfoldable pub jira : Implementation
unfolding param
jira p =
    returns
      (object (field "ticket" (str "PAY-4471") (field "action" (param "action" "read" p) end)))

unfoldable pub http : Implementation
unfolding param
http p = returns (
    object (
      field "status" (num 200)
        (field "bytes" (num 1234) (field "url" (param "url" "https://example.com" p) end))))

unfoldable pub files : Implementation
unfolding param
files p = returns (
    object (
      field "files_scanned" (num 19)
        (field "hits" (num 3) (field "pattern" (param "pattern" "TODO" p) end))))

unfoldable pub shell : Implementation
unfolding param
shell p = returns (
    object (
      field "exit_code" (num 0)
        (field "stdout" (str "(mocked)") (field "cmd" (param "cmd" "true" p) end))))

unfoldable pub metrics_db : Implementation
unfolding param
metrics_db p = returns (
    object (
      field "p99_ms" (num 4700)
        (field "error_rate" (decimal 61 3) (field "window" (param "window" "1h" p) end))))

unfoldable pub slack : Implementation
unfolding param
slack p =
    returns
      (object (field "posted" (bool true) (field "channel" (param "channel" "#oncall" p) end)))

unfoldable pub pagerduty : Implementation
unfolding param
pagerduty p =
    returns
      (object (field "incident" (str "PD-9921") (field "severity" (param "severity" "sev2" p) end)))

abbrev pub mock : String → Implementation → ℕ → Json → Bool → Tools → Tools
mock name fn latency_ms failure_rate side_effecting tools =
    tool
      (record {
        name = name;
        mock = fn;
        live = none;
        latency_ms = latency_ms;
        failure_rate = failure_rate;
        side_effecting = side_effecting;
      })
      tools

-- The decorators, innermost first.
unfoldable pub mocks : Tools
unfolding tool
mocks = mock "pagerduty" pagerduty 350 (decimal 6 2) true (
    mock "slack" slack 250 (decimal 5 2) true (
      mock "metrics_db" metrics_db 400 (decimal 4 2) false (
        mock "shell" shell 150 (decimal 2 2) false (
          mock "files" files 120 (decimal 1 2) false (
            mock "http" http 250 (decimal 3 2) false (
              mock "jira" jira 500 (decimal 10 2) true (
                mock "github" github 300 (decimal 2 2) false
                  (mock "logs" logs 800 (decimal 5 2) false []))))))))
