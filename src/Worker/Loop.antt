-- ===== src/Worker/Loop.antt =====
-- worker/main.py: the loop of `main`, turn by turn, with the pauses that it makes. Times are
-- milliseconds.
use reliable_ai_agents.Prelude.{ℕ, suc, ◌*◌, min, String, List, [], ◌∷◌}
use reliable_ai_agents.Schema.{Db}
use reliable_ai_agents.Worker.Executor.{Labels}
use reliable_ai_agents.Worker.Process.{Progress, idle, worked, raised, Setting, process_one}

-- The count of idle turns in a row; an exception leaves it.
abbrev pub next_idle : Progress → ℕ → ℕ
next_idle worked n = 0
next_idle idle n = suc n
next_idle raised n = n

-- The sleep after a turn, for the new count.
unfoldable pub pause : ℕ → Progress → ℕ → ℕ
pause poll_ms worked n = 0
pause poll_ms idle n = min (poll_ms * min n 6) 3000
pause poll_ms raised n = 1000

module _ (sha256 : ℕ × ℕ × String → ℕ) (label : Labels) (poll_ms : ℕ) where
  -- The turns until the shutdown flag is seen. In the pause after a turn, at its gap 3, other
  -- processes write.
  unfoldable pub work : List Setting → ℕ → Db → Db × List ℕ
  unfolding pause process_one
  work [] n db = (db, [])
  work (set ∷ rest) n db =
      let (db', progress) = process_one sha256 label set db in
      let n' = next_idle progress n in
      let (end_db, pauses) = work rest n' (set.meanwhile 3 db') in
      (end_db, pause poll_ms progress n' ∷ pauses)
