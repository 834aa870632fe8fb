-- ===== src/Security/Lockout/Tests.antt =====
-- The lockout at concrete times.
use xv.Prelude.{
  ℕ, ◌+◌, ◌-◌, ◌*◌, ◌≤◌, ◌<◌, ◌≡◌, ◌≢◌, ◌↔◌, refl, true, false, none, List, [], ◌∷◌, arith, ltb,
}
use xv.Security.Limits.{max_pin_attempts, lockout_duration_ms}
use xv.Security.Lockout.{
  Entry, absent, unreadable, saved, is_locked_out, get_lockout_state, get_lockout_remaining,
  record_failed_attempt, clear_failed_attempts,
}
use xv.Security.Lockout.Enforced.{locked_for_the_duration, attempts_are_counted, remaining_is_exact}
use xv.Security.Lockout.Rate.{Guess, guess_all, six_guesses_take_the_duration}

-- Four failures a moment ago.
abbrev four_failed : Entry
four_failed = saved (record { attempts = 4; last_attempt = 1000; locked_until = 0 })

abbrev locked : Entry
locked = saved (record { attempts = 5; last_attempt = 2000; locked_until = 302002 })

fifth_locks : (record_failed_attempt 2000 2001 2002 four_failed).1.locked ≡ true
unfolding record_failed_attempt
fifth_locks = refl

long_ago_is_forgotten :
    (record_failed_attempt 301001 301001 301001 four_failed).1.attempts_remaining ≡ 4
unfolding record_failed_attempt
long_ago_is_forgotten = refl

cleared : is_locked_out 2003 (clear_failed_attempts locked) ≡ false
unfolding is_locked_out clear_failed_attempts
cleared = refl

first_leaves_four : (record_failed_attempt 7 7 7 unreadable).1.locked ≡ false
unfolding record_failed_attempt
first_leaves_four = refl

locked_sample :
    is_locked_out 302001 (record_failed_attempt 2000 2001 2002 four_failed).0
    ≡ ltb 302001 (2002 + lockout_duration_ms)
locked_sample = locked_for_the_duration 2000 2001 2002 302001 four_failed fifth_locks

first_attempts_left :
    ((get_lockout_state (record_failed_attempt 7 7 7 unreadable).0).attempts
        + (record_failed_attempt 7 7 7 unreadable).1.attempts_remaining
      ≡ max_pin_attempts)
    × (0 < (record_failed_attempt 7 7 7 unreadable).1.attempts_remaining)
    × (is_locked_out 8 (record_failed_attempt 7 7 7 unreadable).0 ≡ is_locked_out 8 unreadable)
first_attempts_left = attempts_are_counted 7 7 7 8 unreadable first_leaves_four

seconds_left :
    ((0 < get_lockout_remaining 2003 locked) ↔ (is_locked_out 2003 locked ≡ true))
    × (is_locked_out (2003 + get_lockout_remaining 2003 locked * 1000) locked ≡ false)
    × (is_locked_out 2003 locked ≡ true
        → is_locked_out (2003 + (get_lockout_remaining 2003 locked - 1) * 1000) locked ≡ true)
seconds_left = remaining_is_exact 2003 locked

abbrev guess_at : ℕ → Guess
guess_at t = record { gate = t; now0 = t; now1 = t; now2 = t }

abbrev between : List Guess
between = guess_at 2 ∷ guess_at 3 ∷ guess_at 4 ∷ guess_at 5 ∷ []

six_made :
    guess_all absent
      (guess_at 1 ∷ guess_at 2 ∷ guess_at 3 ∷ guess_at 4 ∷ guess_at 5 ∷ guess_at 300005 ∷ [])
    ≢ none
unfolding guess_all is_locked_out record_failed_attempt
six_made = cc

six_guesses_take_the_duration_example : 1 + lockout_duration_ms ≤ 300005
six_guesses_take_the_duration_example =
    six_guesses_take_the_duration absent (guess_at 1) between (guess_at 300005) (omega arith)
      (omega arith) six_made
