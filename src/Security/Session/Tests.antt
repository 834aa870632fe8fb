-- ===== src/Security/Session/Tests.antt =====
-- A session that is kept alive once and then runs out.
use xv.Security.Session.{is_session_valid, record_activity, start_session, end_session, init, fire}
use xv.Prelude.{refl, true, ◌∷◌, some, [], ◌↔◌, arith, none, ◌≤◌, ◌≡◌, ◌++◌, List, length}
use xv.Security.Session.Expiry.{
  called_once_per_start, starts, activity, one_timer_per_session, timer, start,
  ended_session_stays_ended, timer_spares_valid_session, step, Event, run,
}
use xv.Security.Session.Timer.{set_timeout, clear_timeout, expire}
use xv.Prelude.Text.{codes}

abbrev events : List Event
events =
    start 1000 1001 (0xab ∷ 0x07 ∷ []) 42 ∷ timer 1 2000 ∷ activity 5000 5001 ∷ timer 1 301001 ∷ []

id_is_hex :
    (run init events).current ≡ some (record { last_activity = 5000; session_id = codes "ab07" })
unfolding run step start_session record_activity fire expire clear_timeout set_timeout
id_is_hex = refl

valid_at_the_end : is_session_valid 304999 (run init events) ≡ true
unfolding run step start_session record_activity fire is_session_valid expire clear_timeout
    set_timeout
valid_at_the_end = refl

called_when_due : (run init (events ++ timer 2 305001 ∷ [])).called ≡ 42 ∷ []
unfolding run step start_session record_activity fire expire clear_timeout set_timeout
called_when_due = refl

one_timer_per_session_example :
    (length (run init events).timers.pending ≤ 1)
    × (((run init events).current ≡ none) ↔ ((run init events).timers.pending ≡ []))
    × (((run init events).current ≡ none) ↔ ((run init events).on_expired ≡ none))
one_timer_per_session_example = one_timer_per_session events (omega arith)

timer_sample : fire 2 304999 (run init events) ≡ run init events
timer_sample = timer_spares_valid_session events 2 304999 (omega arith) valid_at_the_end

ended_sample : fire 2 305001 (end_session (run init events)) ≡ end_session (run init events)
ended_sample = ended_session_stays_ended events 2 305001 (omega arith)

called_once_per_start_example :
    length (run init (events ++ timer 2 305001 ∷ [])).called
    ≤ starts (events ++ timer 2 305001 ∷ [])
called_once_per_start_example = called_once_per_start (events ++ timer 2 305001 ∷ [])
