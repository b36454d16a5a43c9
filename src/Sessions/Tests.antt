-- ===== src/Sessions/Tests.antt =====
-- The theorems on the registry at a run that opens, binds and closes files.
use sync_tex.Base.{
  ◌≤◌, String, none, some, List, [], ◌∷◌, true, false, ◌≡◌, refl, arith, lookup, insert,
}
use sync_tex.Collab.Session.{connected, connecting}
use sync_tex.Sessions.{
  Registry, no_sessions, Callback, reported_status, skipped, bind_active_session, retry_due,
  close_collab_session,
}
use sync_tex.Sessions.Sound.{Sound}
use sync_tex.Sessions.Run.{Event, opened, closed, called, bound, run, run-Sound}
use sync_tex.Sessions.Retry.{Look, timers, retries_bounded}
use sync_tex.Sessions.Stale.{retry_of_closed_session}

abbrev no_calls : String → List Callback
no_calls id = []

abbrev two_files : List Event
two_files =
    opened "f1" (some "token") (reported_status connecting [] ∷ [])
    ∷ opened "f2" (some "token") []
    ∷ called "f1" (reported_status connected [])
    ∷ bound "f1" true (some 4) true
    ∷ closed "f1" []
    ∷ opened "f1" (some "token") []
    ∷ []

no_sessions-Sound : Sound no_sessions
unfolding lookup
no_sessions-Sound id = (refl, refl)

run-Sound_example : Sound (run two_files no_sessions)
unfolding run lookup insert
run-Sound_example =
    run-Sound two_files no_sessions (tt, (tt, (refl, (tt, (tt, (tt, tt)))))) no_sessions-Sound

abbrev one_session : Registry
one_session = record no_sessions { collab_sessions = ("f1", 0) ∷ []; made = 1 }

abbrev not_ready : List Look
not_ready =
    record { registry = one_session; model = none; ok = false }
    ∷ record { registry = one_session; model = some 1; ok = true }
    ∷ []

retries_bounded_example :
    timers "f1" (bind_active_session "f1" true 0 none false one_session).0 not_ready ≤ 10
retries_bounded_example = retries_bounded "f1" true none false one_session not_ready

retry_of_closed_session_example :
    retry_due "f1" 0 1
      (some 1)
      true
      (run (opened "f1" (some "token") [] ∷ []) (close_collab_session "f1" [] one_session))
    ≡ (skipped, run (opened "f1" (some "token") [] ∷ []) (close_collab_session "f1" [] one_session))
retry_of_closed_session_example =
    retry_of_closed_session "f1" 0 1 (some 1) true [] (opened "f1" (some "token") [] ∷ [])
      one_session (omega arith)
