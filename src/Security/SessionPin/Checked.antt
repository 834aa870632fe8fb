-- ===== src/Security/SessionPin/Checked.antt =====
-- What a check of the session PIN answers and what it costs.
use xv.Prelude.{◌==◌, ◌<◌, ℕ, ◌≡◌, ◌≢◌, ◌↔◌, refl, ap, some, Bool, true, false, arith, length, All}
use xv.Prelude.Text.{Text, Bytes}
use xv.Prelude.Hex.{length-bytes_to_hex, IsByte, bytes_to_hex}
use xv.Prelude.Hex.Injective.{bytes_to_hex_injective}
use xv.Prelude.Result.{ok}
use xv.Platform.{encode_injective, TextCodec}
use xv.Security.ConstantTime.{constant_time_equal, constant_time_equal_iff}
use xv.Security.Lockout.{Entry, is_locked_out, record_failed_attempt}
use xv.Security.SessionPin.{hash_pin_for_verification, verify_session_pin}

not_equal : {P : Type 0} {b : Bool} → (b ≡ true) ↔ P → ¬ P → b ≡ false
not_equal {b = true} h n = absurd (n (h.0 refl))
not_equal {b = false} h n = refl

-- A digest of at least one byte, all of them bytes, and a codec that keeps hexadecimal text.
module _ (codec : TextCodec) (sha256 : Bytes → Bytes)
    (of_bytes : (bs : Bytes) → All IsByte (sha256 bs))
    (not_empty : (bs : Bytes) → 0 < length (sha256 bs))
    (keeps_hex : (bs : Bytes) → All IsByte bs → codec.well_formed (bytes_to_hex bs) ≡ true) where
  hashes_agree :
      (p q : Text)
      → (constant_time_equal
            (codec.encode (hash_pin_for_verification codec sha256 p))
            (codec.encode (hash_pin_for_verification codec sha256 q))
          ≡ true)
        ↔ (sha256 (codec.encode p) ≡ sha256 (codec.encode q))
  unfolding hash_pin_for_verification
  hashes_agree p q = (
    (λ h. bytes_to_hex_injective _ _ (of_bytes (codec.encode p)) (of_bytes (codec.encode q)) (
        encode_injective codec _ _ (keeps_hex _ (of_bytes (codec.encode p)))
          (keeps_hex _ (of_bytes (codec.encode q))) ((constant_time_equal_iff _ _).0 h))),
    (λ e. (constant_time_equal_iff _ _).1 (ap (λ d. codec.encode (bytes_to_hex d)) e)),
  )

  hash_not_empty : (p : Text) → (length (hash_pin_for_verification codec sha256 p) == 0) ≡ false
  unfolding hash_pin_for_verification
  hash_not_empty p = ground (
    arith,
    length-bytes_to_hex (sha256 (codec.encode p)) (of_bytes (codec.encode p)),
    not_empty (codec.encode p),
  )

  -- While the wallet is not locked and the session's PIN is set, a PIN with the same digest is accepted
  -- and costs nothing, and a PIN with another digest is refused and recorded as a failed attempt.
  pub session_pin_is_checked :
      (now now' : ℕ) (clock : ℕ × ℕ × ℕ) (session_pin pin : Text) (e : Entry)
      → is_locked_out now e ≡ false
      → (sha256 (codec.encode session_pin) ≡ sha256 (codec.encode pin)
          → verify_session_pin codec sha256 now now' clock
              (some (hash_pin_for_verification codec sha256 session_pin))
              pin
              e
            ≡ (e, ok true))
        × (sha256 (codec.encode session_pin) ≢ sha256 (codec.encode pin)
            → verify_session_pin codec sha256 now now' clock
                (some (hash_pin_for_verification codec sha256 session_pin))
                pin
                e
              ≡ ((record_failed_attempt clock.0 clock.1 clock.2 e).0, ok false))
  unfolding verify_session_pin
  session_pin_is_checked now now' clock session_pin pin e free = (
    (λ same. rw (free, hash_not_empty session_pin, (hashes_agree session_pin pin).1 same) refl),
    (λ other.
        rw (free, hash_not_empty session_pin, not_equal (hashes_agree session_pin pin) other) refl),
  )
