-- ===== src/Tests/Dashboard.antt =====
-- Three attempts on the dashboard, one of them stamped by a worker whose clock is ahead.
use reliable_ai_agents.Prelude.{◌≡◌, refl, none, [], ◌∷◌}
use reliable_ai_agents.Schema.{Outcome, Attempt, Db}
use reliable_ai_agents.Worker.Checkpoint.{attempt_row}
use reliable_ai_agents.Metrics.{report}
use reliable_ai_agents.Prelude.{pos, negsuc}
use reliable_ai_agents.Metrics.Latency.{leq, insert_sorted, sort_by, percentile_disc, durations}
use reliable_ai_agents.Tests.Samples.{junior, senior, running_task, claimed_db}

abbrev quick : Attempt
quick = attempt_row running_task "w1" Outcome.succeeded none 1 10 1000 1300

abbrev slow : Attempt
slow = attempt_row running_task "w1" Outcome.succeeded none 1 10 1000 9000

abbrev skewed : Attempt
skewed = attempt_row running_task "w2" Outcome.succeeded none 1 10 5001 5000

abbrev tried : Db
tried = record claimed_db { attempts = slow ∷ quick ∷ skewed ∷ [] }

sorted_durations : sort_by leq (durations tried.attempts) ≡ negsuc 0 ∷ pos 300 ∷ pos 8000 ∷ []
unfolding sort_by insert_sorted durations
sorted_durations = refl

half_and_most :
    ((report 30 "junior" junior senior 40000 tried).p50_s ≡ pos 300)
    × ((report 30 "junior" junior senior 40000 tried).p99_s ≡ pos 8000)
unfolding report percentile_disc sort_by insert_sorted durations
half_and_most = (refl, refl)
