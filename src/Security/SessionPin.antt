-- ===== src/Security/SessionPin.antt =====
-- `hashPinForVerification` and `verifySessionPin` of wallet-extension/src/core/security.ts. SHA-256 is a
-- package's function, and a parameter.
pub mod Checked
mod Tests
use xv.Prelude.{ℕ, Bool, true, false, Option, none, some, length, ◌==◌, if◌then◌else◌}
use xv.Prelude.Text.{Text, Bytes}
use xv.Prelude.Hex.{bytes_to_hex}
use xv.Prelude.Result.{Result, ok, err}
use xv.Platform.{TextCodec}
use xv.Security.ConstantTime.{constant_time_equal}
use xv.Security.Lockout.{Entry, is_locked_out, get_lockout_remaining, record_failed_attempt}

-- The throw of a locked wallet, with the seconds that the message gives.
pub data SessionPinError : Type 0 where
  try_again_in : ℕ → SessionPinError

module _ (codec : TextCodec) (sha256 : Bytes → Bytes) where
  unfoldable pub hash_pin_for_verification : Text → Text
  hash_pin_for_verification pin = bytes_to_hex (sha256 (codec.encode pin))

  -- `session_pin_hash` is the module's variable, and `e` the entry of the lockout. The clock is read
  -- by the test of the lockout, for the message, and three times by a failed attempt.
  unfoldable pub verify_session_pin :
      ℕ → ℕ → (ℕ × ℕ × ℕ) → Option Text → Text → Entry → Entry × Result SessionPinError Bool
  unfolding hash_pin_for_verification
  verify_session_pin now now' clock session_pin_hash pin e =
      if is_locked_out now e
      then (e, err (try_again_in (get_lockout_remaining now' e)))
      else elim session_pin_hash [
        | none ↦ (e, ok false)
        | some hash ↦
            if length hash == 0
            then (e, ok false)
            else if constant_time_equal (codec.encode hash)
                (codec.encode (hash_pin_for_verification pin))
            then (e, ok true)
            else ((record_failed_attempt clock.0 clock.1 clock.2 e).0, ok false)
      ]
