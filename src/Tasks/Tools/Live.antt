-- ===== src/Tasks/Tools/Live.antt =====
-- tasks/tools.py: the live implementations. What the outside answers, be it the file system, a process,
-- a server, and text and float formatting, is a parameter; what the code does with it is here.
use reliable_ai_agents.Prelude.{
  ℕ, zero, suc, String, str_eq, Bool, true, false, ◌&&◌, Option, none, some, List, [], ◌∷◌, ◌++◌,
  if◌then◌else◌, ltb, leb, length, take, count_where,
}
use reliable_ai_agents.Json.{
  Json, null, num, str, list, object, Items, nil, cons, end, field, field_of, get,
}
use reliable_ai_agents.Schema.{Detail, Db, is_failure}
use reliable_ai_agents.Failures.{TaskFailure, infra_failure, poison_failure}
use reliable_ai_agents.Protocol.{Run, returns, fails, crashes}
use reliable_ai_agents.Metrics.{sum_of}
use reliable_ai_agents.Tasks.Tools.{Implementation, Tools, live_impl}
use reliable_ai_agents.Tasks.Tools.Mocks.{param, mocks}

-- A Python file below the root: the parts of its path, the path, and its lines or an OSError.
pub record SourceFile : Type 0 where
  pub parts : List String
  pub path : String
  pub lines : Option (List String)

abbrev pub among : String → List String → Bool
among x [] = false
among x (y ∷ ys) = if str_eq y x then true else among x ys

abbrev pub hit : String → ℕ → Json
hit path i = object (field "file" (str path) (field "line" (num i) end))

abbrev pub hits_in : (String → Bool) → String → ℕ → List String → List Json
hits_in matches path i [] = []
hits_in matches path i (l ∷ ls) =
    let rest = hits_in matches path (suc i) ls in if matches l then hit path i ∷ rest else rest

abbrev pub lines_or_none : Option (List String) → List String
lines_or_none none = []
lines_or_none (some ls) = ls

-- The loop: the number of files scanned, and the hits.
unfoldable pub scan : (String → Bool) → List SourceFile → ℕ × List Json
scan matches [] = (0, [])
scan matches (f ∷ fs) =
    let (n, hits) = scan matches fs in
    if among ".venv" f.parts
    then (n, hits)
    else (if among "__pycache__" f.parts
        then (n, hits)
        else (suc n, hits_in matches f.path 1 (lines_or_none f.lines) ++ hits))

abbrev pub items : List Json → Items
items [] = nil
items (x ∷ xs) = cons x (items xs)

-- `tree` lists the files below the root that the payload names; `contains` is the test of a pattern
-- in a line. A pattern that is no text is left out.
unfoldable pub files_live :
    (Option Json → List SourceFile) → (Json → String → Bool) → Implementation
unfolding param field_of scan
files_live tree contains p =
    let (scanned, hits) = scan (contains (param "pattern" "TODO" p)) (tree (field_of "root" p)) in
    returns (
      object (
        field "files_scanned" (num scanned)
          (field "hits" (num (length hits)) (field "sample" (list (items (take 5 hits))) end))))

-- What subprocess.run gives: an exit code with the text that was written, or an exception, the
-- timeout's or another.
pub data Process : Type 0 where
  exits : Json → String → Process
  dies : String → Process

abbrev pub allowed : String → Option (List String)
allowed cmd =
    if str_eq cmd "git-log"
    then some ("git" ∷ "log" ∷ "--oneline" ∷ "-10" ∷ [])
    else (if str_eq cmd "git-status"
        then some ("git" ∷ "status" ∷ "--short" ∷ [])
        else (if str_eq cmd "pytest-collect"
            then some ("python" ∷ "-m" ∷ "pytest" ∷ "--collect-only" ∷ "-q" ∷ [])
            else (if str_eq cmd "disk" then some ("df" ∷ "-h" ∷ "." ∷ []) else none)))

-- The command of a key; a list or a dictionary cannot be a key.
unfoldable pub command : Json → Option (List String)
command (str cmd) = allowed cmd
command _ = none

abbrev pub is_hashable : Json → Bool
is_hashable (list xs) = false
is_hashable (object fs) = false
is_hashable _ = true

-- `run` runs a command, and `clip` strips and shortens what it wrote.
abbrev pub finished : (String → String) → Json → Process → Run
finished clip key (exits code stdout) =
    returns
      (object (field "exit_code" code (field "stdout" (str (clip stdout)) (field "cmd" key end))))
finished clip key (dies error) = crashes error

unfoldable pub shell_live : (List String → Process) → (String → String) → Implementation
unfolding param command
shell_live run clip p =
    let key = param "cmd" "git-log" p in
    if is_hashable key
    then elim (command key) [
      | none ↦ fails (poison_failure (Detail.not_allowlisted key))
      | some argv ↦ finished clip key (run argv)
    ]
    else crashes "TypeError"

-- What urlopen gives: a status with the bytes, an HTTPError with its code, or another exception.
pub data Reply : Type 0 where
  responds : ℕ → List ℕ → Reply
  http_error : ℕ → Reply
  unreachable : String → Reply

-- A 4xx is poison, any other error status the infrastructure's.
abbrev pub status_failure : Json → ℕ → TaskFailure
status_failure what code =
    if leb 400 code && ltb code 500
    then poison_failure (Detail.http_status what code)
    else infra_failure (Detail.http_status what code)

abbrev pub fetched : (List ℕ → String) → Json → Reply → Run
fetched decode url (responds status body) = returns (
    object (
      field "status" (num status) (
        field "bytes" (num (length (take 4096 body)))
          (field "url" url (field "preview" (str (decode (take 200 (take 4096 body)))) end)))))
fetched decode url (http_error code) = fails (status_failure url code)
fetched decode url (unreachable error) = crashes error

unfoldable pub http_live : (Json → Reply) → (List ℕ → String) → Implementation
unfolding param
http_live open_url decode p =
    let url = param "url" "https://api.github.com/zen" p in fetched decode url (open_url url)

abbrev pub count_items : Items → ℕ
count_items nil = 0
count_items (cons x xs) = suc (count_items xs)

-- data[0]["commit"]["message"][:80], of a list of commits; `none` is an exception.
abbrev pub message_text : (String → String) → Option Json → Option Json
message_text clip (some (str s)) = some (str (clip s))
message_text clip _ = none

abbrev pub or_null : Option Json → Json
or_null none = null
or_null (some j) = j

unfoldable pub latest : (String → String) → Items → Option Json
unfolding get
latest clip nil = some null
latest clip (cons c cs) = message_text clip (get "message" (or_null (get "commit" c)))

abbrev pub summary : Json → Items → Option Json → Run
summary repo commits none = crashes "KeyError"
summary repo commits (some message) = returns (
    object (
      field "repo" repo
        (field "recent_commits" (num (count_items commits)) (field "latest" message end))))

-- What json.loads makes of the body; a document that is no list is left out.
abbrev pub parsed : (List ℕ → Option Items) → (String → String) → Json → Reply → Run
parsed loads clip repo (responds status body) = elim (loads body) [
  | none ↦ crashes "JSONDecodeError"
  | some commits ↦ summary repo commits (latest clip commits)
]
parsed loads clip repo (http_error code) = fails (status_failure repo code)
parsed loads clip repo (unreachable error) = crashes error

unfoldable pub github_live :
    (Json → Reply) → (List ℕ → Option Items) → (String → String) → Implementation
unfolding param latest
github_live open_commits loads clip p =
    let repo = param "repo" "python/cpython" p in parsed loads clip repo (open_commits repo)

abbrev pub or_one : ℕ → ℕ
or_one zero = 1
or_one (suc n) = suc n

-- `quotient` divides and rounds to four places.
unfoldable pub metrics_db_live : (ℕ → ℕ → Json) → Db → Implementation
metrics_db_live quotient db p =
    let attempts = length db.attempts in
    let failures = count_where (λ a. is_failure a.outcome) db.attempts in
    returns (
      object (
        field "attempts" (num attempts) (
          field "cost_units" (num (sum_of (λ a. a.cost_units) db.attempts))
            (field "error_rate" (quotient failures (or_one attempts)) end))))

-- The outside world of one run.
pub record Outside : Type 0 where
  pub tree : Option Json → List SourceFile
  pub contains : Json → String → Bool
  pub run : List String → Process
  pub clip : String → String
  pub open_url : Json → Reply
  pub decode : List ℕ → String
  pub open_commits : Json → Reply
  pub loads : List ℕ → Option Items
  pub shorten : String → String
  pub quotient : ℕ → ℕ → Json
  pub db : Db

abbrev pub attach : String → Implementation → Option Tools → Option Tools
attach name fn none = none
attach name fn (some tools) = live_impl name fn tools

-- TOOLS when the module is loaded; `none` is the KeyError of a name that has no mock.
unfoldable pub loaded : Outside → Option Tools
unfolding mocks live_impl files_live shell_live http_live github_live metrics_db_live
loaded out = attach "metrics_db" (metrics_db_live out.quotient out.db) (
    attach "github" (github_live out.open_commits out.loads out.shorten) (
      attach "http" (http_live out.open_url out.decode) (
        attach "shell" (shell_live out.run out.clip)
          (attach "files" (files_live out.tree out.contains) (some mocks)))))
