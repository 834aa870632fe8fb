-- ===== src/Security/Lockout/Enforced.antt =====
-- What one failed attempt does, and what the remaining time tells.
use xv.Prelude.{ℕ, ◌+◌, ◌-◌, ◌*◌, ◌<◌, ◌≡◌, ◌↔◌, true, false, arith, ltb}
use xv.Security.Limits.{max_pin_attempts, lockout_duration_ms}
use xv.Security.Lockout.{
  Entry, is_locked_out, get_lockout_remaining, get_lockout_state, record_failed_attempt,
}

-- When a failed attempt reports the lockout, the wallet is locked for the whole duration from its
-- last reading of the clock, and at no time after.
pub locked_for_the_duration :
    (now0 now1 now2 t : ℕ) (e : Entry)
    → (record_failed_attempt now0 now1 now2 e).1.locked ≡ true
    → is_locked_out t (record_failed_attempt now0 now1 now2 e).0
      ≡ ltb t (now2 + lockout_duration_ms)
unfolding record_failed_attempt is_locked_out
locked_for_the_duration now0 now1 now2 t e h = ground arith

-- A failed attempt that does not lock leaves attempts over: those reported and those counted make
-- the limit, and the wallet is locked at a time exactly if it was before.
pub attempts_are_counted :
    (now0 now1 now2 t : ℕ) (e : Entry)
    → (record_failed_attempt now0 now1 now2 e).1.locked ≡ false
    → ((get_lockout_state (record_failed_attempt now0 now1 now2 e).0).attempts
          + (record_failed_attempt now0 now1 now2 e).1.attempts_remaining
        ≡ max_pin_attempts)
      × (0 < (record_failed_attempt now0 now1 now2 e).1.attempts_remaining)
      × (is_locked_out t (record_failed_attempt now0 now1 now2 e).0 ≡ is_locked_out t e)
unfolding record_failed_attempt is_locked_out
attempts_are_counted now0 now1 now2 t e h = ground arith

-- Seconds are left exactly while the wallet is locked; after waiting them it is not locked, and
-- a second less is too short.
pub remaining_is_exact :
    (now : ℕ) (e : Entry)
    → ((0 < get_lockout_remaining now e) ↔ (is_locked_out now e ≡ true))
      × (is_locked_out (now + get_lockout_remaining now e * 1000) e ≡ false)
      × (is_locked_out now e ≡ true
          → is_locked_out (now + (get_lockout_remaining now e - 1) * 1000) e ≡ true)
unfolding get_lockout_remaining is_locked_out
remaining_is_exact now e = ground arith
