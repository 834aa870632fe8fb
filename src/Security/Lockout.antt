-- ===== src/Security/Lockout.antt =====
-- The rate limit on PIN attempts of wallet-extension/src/core/security.ts. The entry of
-- localStorage is a state that the operations take and return; each reading of `Date.now()` is an
-- argument, in the order of the calls.
pub mod Enforced
pub mod Rate
mod Tests
use xv.Prelude.{ℕ, ◌+◌, ◌-◌, ◌/◌, Bool, true, false, ltb, leb, if◌then◌else◌}
use xv.Security.Limits.{max_pin_attempts, lockout_duration_ms}

pub record LockoutState : Type 0 where
  pub attempts : ℕ
  pub last_attempt : ℕ
  pub locked_until : ℕ

-- localStorage's entry: there is none, it does not parse, or it holds a state that was saved.
pub data Entry : Type 0 where
  absent unreadable : Entry
  saved : LockoutState → Entry

abbrev pub fresh : LockoutState
fresh = record { attempts = 0; last_attempt = 0; locked_until = 0 }

unfoldable pub get_lockout_state : Entry → LockoutState
get_lockout_state absent = fresh
get_lockout_state unreadable = fresh
get_lockout_state (saved s) = s

unfoldable pub is_locked_out : ℕ → Entry → Bool
unfolding get_lockout_state
is_locked_out now e = let state = get_lockout_state e in ltb now state.locked_until

-- The seconds left, rounded up.
unfoldable pub get_lockout_remaining : ℕ → Entry → ℕ
unfolding get_lockout_state
get_lockout_remaining now e =
    let state = get_lockout_state e in
    if ltb now state.locked_until then (state.locked_until - now + 999) / 1000 else 0

pub record Reply : Type 0 where
  pub locked : Bool
  pub attempts_remaining : ℕ

-- A clock that went back makes the source's difference negative, and here 0: neither is above the
-- lockout duration.
abbrev count_attempt : ℕ → ℕ → LockoutState → LockoutState
count_attempt now0 now1 state =
    let before =
      if ltb lockout_duration_ms (now0 - state.last_attempt) then 0 else state.attempts in
    record state { attempts = before + 1; last_attempt = now1 }

unfoldable pub record_failed_attempt : ℕ → ℕ → ℕ → Entry → Entry × Reply
unfolding get_lockout_state
record_failed_attempt now0 now1 now2 e =
    let state = count_attempt now0 now1 (get_lockout_state e) in
    if leb max_pin_attempts state.attempts
    then (
      saved (record state { locked_until = now2 + lockout_duration_ms }),
      record { locked = true; attempts_remaining = 0 },
    )
    else (
      saved state,
      record { locked = false; attempts_remaining = max_pin_attempts - state.attempts },
    )

unfoldable pub clear_failed_attempts : Entry → Entry
clear_failed_attempts e = absent
