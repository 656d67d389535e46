-- ===== src/Scale/Command.antt =====
-- scale/autoscaler.py: what docker reports, and the command line of `main`. The report is a text of
-- ASCII characters; ids of containers are hexadecimal digits.
use reliable_ai_agents.Prelude.{
  ℕ, suc, String, Bool, false, not, ◌&&◌, ◌||◌, Option, List, [], ◌∷◌, if◌then◌else◌, leb,
}
use reliable_ai_agents.Schema.{Db}
use reliable_ai_agents.Harness.Text.{codes, is_space}
use reliable_ai_agents.Scale.{Scaler, Tick, Logged, Round, configured, fresh, tick, run}

-- Where splitlines ends a line.
abbrev pub is_break : ℕ → Bool
is_break c = (leb 10 c && leb c 13) || (leb 28 c && leb c 30)

-- The lines that are not blank; the flag says that the line so far is not.
unfoldable pub full_lines : Bool → List ℕ → ℕ
full_lines seen [] = if seen then 1 else 0
full_lines seen (c ∷ cs) =
    let rest = full_lines (if is_break c then false else seen || not (is_space c)) cs in
    if is_break c && seen then suc rest else rest

-- The answer of `docker compose ps -q`, counted.
unfoldable pub running_replicas : String → ℕ
unfolding codes full_lines
running_replicas report = full_lines false (codes report)

pub record Arguments : Type 0 where
  pub per_agent : Option ℕ
  pub min_replicas : Option ℕ
  pub max_replicas : Option ℕ
  pub once : Bool

-- How `main` ends: without docker, with one decision printed, or not at all; then the rounds that
-- it has made so far are shown.
pub data Outcome : Type 0 where
  no_docker : Outcome
  decided : Tick → Outcome
  looping : Scaler × List Logged → Outcome

unfoldable pub main : Bool → Arguments → String → ℕ → Db → List Round → Outcome
unfolding configured tick run running_replicas
main has_docker args report now db rounds =
    let cfg = configured args.per_agent args.min_replicas args.max_replicas in
    let single = tick cfg (running_replicas report) now db fresh in
    let loop = run cfg rounds fresh in
    if has_docker then (if args.once then decided single.1 else looping loop) else no_docker
