-- ===== src/Security/SessionPin/Tests.antt =====
-- The session PIN under a toy digest.
use xv.Prelude.{◌≡◌, ◌≢◌, refl, true, false, some, arith}
use xv.Prelude.Text.{codes}
use xv.Prelude.Result.{ok}
use xv.Platform.Samples.{sum_digest, hex_kept, one_byte}
use xv.Security.Lockout.{absent, record_failed_attempt, is_locked_out}
use xv.Security.SessionPin.{hash_pin_for_verification, verify_session_pin}
use xv.Security.SessionPin.Checked.{session_pin_is_checked}

session_pin_is_checked_example :
    (sum_digest (one_byte.encode (codes "271828")) ≡ sum_digest (one_byte.encode (codes "314159"))
      → verify_session_pin one_byte sum_digest 5 6
          (7, 8, 9)
          (some (hash_pin_for_verification one_byte sum_digest (codes "271828")))
          (codes "314159")
          absent
        ≡ (absent, ok true))
    × (sum_digest (one_byte.encode (codes "271828")) ≢ sum_digest (one_byte.encode (codes "314159"))
        → verify_session_pin one_byte sum_digest 5 6
            (7, 8, 9)
            (some (hash_pin_for_verification one_byte sum_digest (codes "271828")))
            (codes "314159")
            absent
          ≡ ((record_failed_attempt 7 8 9 absent).0, ok false))
unfolding is_locked_out
session_pin_is_checked_example =
    session_pin_is_checked one_byte sum_digest (λ bs. (omega arith, tt)) (λ bs. omega arith)
      hex_kept 5 6 (7, 8, 9) (codes "271828") (codes "314159") absent refl
