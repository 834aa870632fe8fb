-- ===== src/Security/Session.antt =====
-- The session of wallet-extension/src/core/security.ts: the module's variables, the browser's
-- timers that they depend on, and the callbacks that have run. Each reading of `Date.now()` is an
-- argument, in the order of the calls.
pub mod Timer
pub mod Expiry
mod Tests
use xv.Prelude.{
  ℕ, ◌+◌, ◌-◌, Bool, true, false, Option, none, some, List, [], ◌∷◌, ltb, if◌then◌else◌,
}
use xv.Prelude.Hex.{bytes_to_hex}
use xv.Prelude.Text.{Text, Bytes}
use xv.Security.Limits.{session_timeout_ms}
use xv.Security.Session.Timer.{Timers, set_timeout, clear_timeout, no_timers, expire}

pub record SessionState : Type 0 where
  pub last_activity : ℕ
  pub session_id : Text

-- A callback is known by a number; `called` lists those that a timer has called, the last first.
pub record Session : Type 0 where
  pub current : Option SessionState
  pub timeout_id : Option ℕ
  pub on_expired : Option ℕ
  pub timers : Timers
  pub called : List ℕ

abbrev pub init : Session
init = record {
  current = none;
  timeout_id = none;
  on_expired = none;
  timers = no_timers;
  called = [];
}

abbrev pub clear_if_set : Option ℕ → Timers → Timers
clear_if_set none t = t
clear_if_set (some id) t = clear_timeout id t

unfoldable pub end_session : Session → Session
unfolding clear_timeout
end_session s = record s {
  timers = clear_if_set s.timeout_id s.timers;
  timeout_id = none;
  current = none;
  on_expired = none;
}

unfoldable pub reset_session_timeout : ℕ → Session → Session
unfolding clear_timeout set_timeout
reset_session_timeout now s =
    let (id, t) = set_timeout now session_timeout_ms (clear_if_set s.timeout_id s.timers) in
    record s { timers = t; timeout_id = some id }

-- `random` is what `randomBytes(32)` returned.
unfoldable pub generate_session_id : Bytes → Text
unfolding bytes_to_hex
generate_session_id random = bytes_to_hex random

unfoldable pub start_session : ℕ → ℕ → Bytes → ℕ → Session → Session
unfolding end_session reset_session_timeout generate_session_id
start_session now0 now1 random on_expire s =
    let ended = end_session s in
    reset_session_timeout now1 (record ended {
      on_expired = some on_expire;
      current = some (record { last_activity = now0; session_id = generate_session_id random });
    })

unfoldable pub record_activity : ℕ → ℕ → Session → Session
unfolding reset_session_timeout
record_activity now0 now1 s = elim s.current [
  | none ↦ s
  | some c ↦
      reset_session_timeout now1 (record s { current = some (record c { last_activity = now0 }) })
]

unfoldable pub is_session_valid : ℕ → Session → Bool
is_session_valid now s = elim s.current [
  | none ↦ false
  | some c ↦ ltb (now - c.last_activity) session_timeout_ms
]

-- `checkSessionTimeout`
unfoldable pub check_session_timeout : ℕ → Session → Bool
unfolding is_session_valid
check_session_timeout now s = elim (is_session_valid now s) [ true ↦ false | false ↦ true ]

abbrev call : Option ℕ → List ℕ → List ℕ
call none log = log
call (some f) log = f ∷ log

-- The function that `resetSessionTimeout` schedules. A callback that ends the session itself
-- leaves nothing more to end.
unfoldable pub on_timeout : Session → Session
unfolding end_session
on_timeout s = end_session (record s { called = call s.on_expired s.called })

-- The browser runs a timer that is due, and a timer that is not pending or not due does not run.
unfoldable pub fire : ℕ → ℕ → Session → Session
unfolding on_timeout
fire id now s = elim (expire id now s.timers) [
  | none ↦ s
  | some t ↦ on_timeout (record s { timers = t })
]
