-- ===== src/Tests/Ledger.antt =====
-- A transfer reserved, settled, asked for again, and given up.
use reliable_ai_agents.Prelude.{
  ◌+◌, ◌≤◌, ◌≡◌, refl, true, List, [], ◌∷◌, if◌then◌else◌, select, exists_where,
}
use reliable_ai_agents.Tests.Samples.{empty_db, answer, free}
use reliable_ai_agents.Orchestrator.Ledger.{
  proceed, unsettled, begin, settle, release, reconcile, orphaned, is_stranded, has_key,
}
use reliable_ai_agents.Prelude.{update_where, delete_where, order_by}
use reliable_ai_agents.Orchestrator.Ledger.Once.{
  Event, asks, settles, releases, sweep, clearances, release_count, clearances-le-releases,
}
use reliable_ai_agents.Orchestrator.Ledger.Spec.{view, serve, History, verdict, changed, closed}
use reliable_ai_agents.Orchestrator.Ledger.Refinement.{serve-History}

abbrev history : List Event
history =
    asks 9 100 1 "task:8" 1000
    ∷ asks 9 100 1 "task:8" 2000
    ∷ releases 9
    ∷ asks 9 100 1 "task:8" 3000
    ∷ settles 9 answer 4000
    ∷ sweep free 100 60 90000
    ∷ []

-- Two of the three requests are cleared: the release lets the third through.
two_clearances : clearances 9 history empty_db ≡ 2
unfolding clearances begin select release delete_where
two_clearances = refl

clearances-le-releases_example :
    clearances 9 history empty_db + (if exists_where (has_key 9) empty_db.idempotency then 1 else 0)
    ≤ 1 + release_count 9 history
clearances-le-releases_example = clearances-le-releases 9 history empty_db

serve-History_example :
    History history (view empty_db) (serve history empty_db).1 (view (serve history empty_db).0)
serve-History_example = serve-History history empty_db tt

-- The second request is refused, the third is cleared after the release.
answers_in_order :
    (serve history empty_db).1
    ≡ verdict proceed
      ∷ verdict unsettled
      ∷ changed true
      ∷ verdict proceed
      ∷ changed true
      ∷ closed []
      ∷ []
unfolding serve begin settle release reconcile select exists_where orphaned is_stranded update_where
    delete_where order_by
answers_in_order = refl
