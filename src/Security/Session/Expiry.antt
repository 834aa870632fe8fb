-- ===== src/Security/Session/Expiry.antt =====
-- The session and its timer together: over any events there is at most one timer, it never cuts a
-- session that is still valid, and each start is followed by at most one call of its callback.
use xv.Prelude.{true, ◌↔◌, length, ℕ, ◌+◌, ◌≤◌, ◌≡◌, Option, none, some, List, [], ◌∷◌, arith}
use xv.Security.Limits.{session_timeout_ms}
use xv.Security.Session.{
  init, fire, start_session, record_activity, is_session_valid, Session, SessionState, end_session,
}
use xv.Prelude.Text.{Bytes}
use xv.Security.Session.Timer.{expire}

-- No session, no timer and no callback; or a session with its callback and one timer, which is due
-- no earlier than the session's end.
abbrev Shape : Option SessionState → Option ℕ → Option ℕ → List (ℕ × ℕ) → Type 0
Shape none none none [] = Unit
Shape (some c) (some id) (some f) ((j, due) ∷ []) =
    (j ≡ id) × (c.last_activity + session_timeout_ms ≤ due)
Shape _ _ _ _ = ⊥

pub record IsWell (s : Session) : Type 0 where
  pub shape : Shape s.current s.timeout_id s.on_expired s.timers.pending

IsWell-end : (s : Session) → IsWell s → IsWell (end_session s)
unfolding end_session
IsWell-end s w = ground arith

IsWell-start :
    (now0 now1 f : ℕ) (random : Bytes) (s : Session)
    → IsWell s
    → now0 ≤ now1
    → IsWell (start_session now0 now1 random f s)
unfolding start_session
IsWell-start now0 now1 f random s w h = ground arith

IsWell-activity :
    (now0 now1 : ℕ) (s : Session) → IsWell s → now0 ≤ now1 → IsWell (record_activity now0 now1 s)
unfolding record_activity
IsWell-activity now0 now1 s w h = ground arith

IsWell-fire : (id now : ℕ) (s : Session) → IsWell s → IsWell (fire id now s)
unfolding fire expire
IsWell-fire id now s w = ground arith

pub data Event : Type 0 where
  start : ℕ → ℕ → Bytes → ℕ → Event
  activity : ℕ → ℕ → Event
  finish : Event
  timer : ℕ → ℕ → Event

unfoldable pub step : Session → Event → Session
step s (start now0 now1 random f) = start_session now0 now1 random f s
step s (activity now0 now1) = record_activity now0 now1 s
step s finish = end_session s
step s (timer id now) = fire id now s

unfoldable pub run : Session → List Event → Session
run s [] = s
run s (e ∷ es) = run (step s e) es

-- In each event, the clock does not go back between two readings.
abbrev pub IsTimely : Event → Type 0
IsTimely (start now0 now1 random f) = now0 ≤ now1
IsTimely (activity now0 now1) = now0 ≤ now1
IsTimely finish = Unit
IsTimely (timer id now) = Unit

abbrev pub AllTimely : List Event → Type 0
AllTimely [] = Unit
AllTimely (e ∷ es) = IsTimely e × AllTimely es

IsWell-step : (s : Session) (e : Event) → IsTimely e → IsWell s → IsWell (step s e)
unfolding step
IsWell-step s (start now0 now1 random f) h w = IsWell-start now0 now1 f random s w h
IsWell-step s (activity now0 now1) h w = IsWell-activity now0 now1 s w h
IsWell-step s finish h w = IsWell-end s w
IsWell-step s (timer id now) h w = IsWell-fire id now s w

IsWell-run : (s : Session) (es : List Event) → AllTimely es → IsWell s → IsWell (run s es)
unfolding run
IsWell-run s [] h w = w
IsWell-run s (e ∷ es) (h, hs) w = IsWell-run (step s e) es hs (IsWell-step s e h w)

-- After any events in none of which the clock steps back, there is a session exactly if a timer is
-- pending, and exactly if a callback is set, and at most one timer is pending.
pub one_timer_per_session :
    (es : List Event)
    → AllTimely es
    → (length (run init es).timers.pending ≤ 1)
      × (((run init es).current ≡ none) ↔ ((run init es).timers.pending ≡ []))
      × (((run init es).current ≡ none) ↔ ((run init es).on_expired ≡ none))
one_timer_per_session es h =
    shape_facts (run init es) (IsWell-run init es h (record { shape = tt }))
  where
    shape_facts :
        (s : Session)
        → IsWell s
        → (length s.timers.pending ≤ 1)
          × ((s.current ≡ none) ↔ (s.timers.pending ≡ []))
          × ((s.current ≡ none) ↔ (s.on_expired ≡ none))
    shape_facts s w = ground arith

fire_when_invalid :
    (id now : ℕ) (s : Session) → IsWell s → is_session_valid now s ≡ true → fire id now s ≡ s
unfolding fire expire is_session_valid
fire_when_invalid id now s w v = ground arith

-- After any events in none of which the clock steps back, no timer runs while the session is valid: the
-- auto-lock never cuts it short.
pub timer_spares_valid_session :
    (es : List Event) (id now : ℕ)
    → AllTimely es
    → is_session_valid now (run init es) ≡ true
    → fire id now (run init es) ≡ run init es
timer_spares_valid_session es id now h v =
    fire_when_invalid id now (run init es) (IsWell-run init es h (record { shape = tt })) v

-- Ending the session leaves no timer of it: whatever timer the browser would run later, no
-- callback is called and nothing changes.
pub ended_session_stays_ended :
    (es : List Event) (id now : ℕ)
    → AllTimely es
    → fire id now (end_session (run init es)) ≡ end_session (run init es)
ended_session_stays_ended es id now h =
    no_timer_left (run init es) (IsWell-run init es h (record { shape = tt }))
  where
    no_timer_left : (s : Session) → IsWell s → fire id now (end_session s) ≡ end_session s
    no_timer_left s w = unfold fire expire end_session in ground arith

pub starts : List Event → ℕ
starts [] = 0
starts (start now0 now1 random f ∷ es) = starts es + 1
starts (_ ∷ es) = starts es

abbrev open_sessions : Option ℕ → ℕ
open_sessions none = 0
open_sessions (some f) = 1

abbrev started : Event → ℕ
started (start now0 now1 random f) = 1
started _ = 0

calls_of_step :
    (s : Session) (e : Event)
    → length (step s e).called + open_sessions (step s e).on_expired
      ≤ length s.called + open_sessions s.on_expired + started e
unfolding step start_session record_activity fire end_session
calls_of_step s (start now0 now1 random f) = ground arith
calls_of_step s (activity now0 now1) = ground arith
calls_of_step s finish = ground arith
calls_of_step s (timer id now) = ground arith

calls_of_run :
    (s : Session) (es : List Event)
    → length (run s es).called + open_sessions (run s es).on_expired
      ≤ length s.called + open_sessions s.on_expired + starts es
unfolding run starts
calls_of_run s [] = omega arith
calls_of_run s (start now0 now1 random f ∷ es) =
    let e = start now0 now1 random f in omega (arith, calls_of_step s e, calls_of_run (step s e) es)
calls_of_run s (activity now0 now1 ∷ es) =
    let e = activity now0 now1 in omega (arith, calls_of_step s e, calls_of_run (step s e) es)
calls_of_run s (finish ∷ es) =
    omega (arith, calls_of_step s finish, calls_of_run (step s finish) es)
calls_of_run s (timer id now ∷ es) =
    let e = timer id now in omega (arith, calls_of_step s e, calls_of_run (step s e) es)

-- Over any events, callbacks are called at most as often as sessions are started.
pub called_once_per_start : (es : List Event) → length (run init es).called ≤ starts es
called_once_per_start es = omega (arith, calls_of_run init es)
