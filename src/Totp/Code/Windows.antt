-- ===== src/Totp/Code/Windows.antt =====
-- Which codes are accepted.
use xv.Prelude.{
  ◌∙◌, Bool-cases, ℕ, zero, suc, ◌+◌, ◌-◌, ◌*◌, ◌/◌, ◌≤◌, ◌<◌, ◌≡◌, refl, ap, ◌↔◌, inl, inr, Bool,
  true, false, arith,
}
use xv.Prelude.Text.{Text, Bytes}
use xv.Prelude.Result.{Result, ok, err}
use native.Mathlib.Decide.{dec_le}
use xv.Security.ConstantTime.{constant_time_equal, constant_time_equal_iff}
use xv.Totp.Code.{
  generate_totp, verify_totp, window_counter, try_windows, generate_hotp, text_constant_time_equal,
}
use xv.Prelude.Int.{pos}
use xv.Totp.Base32.{base32_decode, DecodeError}

-- The comparison of texts is that of byte arrays, on character codes.
text_constant_time_equal_lem : (a b : Text) → text_constant_time_equal a b ≡ constant_time_equal a b
unfolding text_constant_time_equal constant_time_equal
text_constant_time_equal_lem a b = refl

pub text_constant_time_equal_iff : (a b : Text) → (text_constant_time_equal a b ≡ true) ↔ (a ≡ b)
text_constant_time_equal_iff a b = rw text_constant_time_equal_lem (constant_time_equal_iff a b)

module _ (hmac_sha1 : Bytes → Bytes → Bytes) (secret : Bytes) (code : Text)
    (now digits window : ℕ) where
  -- The code of one of the windows from `k` on, `rounds` of them.
  abbrev pub IsCodeFrom : ℕ → ℕ → Type 0
  IsCodeFrom rounds k =
      (j : ℕ) × (k ≤ j)
      × (j < k + rounds)
      × (code ≡ generate_hotp hmac_sha1 secret (window_counter now window j) digits)

  try_windows_sound :
      (rounds k : ℕ)
      → try_windows hmac_sha1 secret code now digits window rounds k ≡ true
      → IsCodeFrom rounds k
  unfolding try_windows
  try_windows_sound zero k h = absurd (cc)
  try_windows_sound (suc rounds) k h =
      let expected = generate_hotp hmac_sha1 secret (window_counter now window k) digits in
      elim (Bool-cases (text_constant_time_equal code expected)) [
        | inl same ↦
            (k, omega arith, omega arith, (text_constant_time_equal_iff code expected).0 same)
        | inr other ↦
            let (j, lo, hi, e) = try_windows_sound rounds (k + 1) (rw (other, try_windows) at h) in
            (j, omega arith, omega arith, e)
      ]

  try_windows_complete :
      (rounds k j : ℕ)
      → k ≤ j
      → j < k + rounds
      → code ≡ generate_hotp hmac_sha1 secret (window_counter now window j) digits
      → try_windows hmac_sha1 secret code now digits window rounds k ≡ true
  unfolding try_windows
  try_windows_complete zero k j lo hi e = absurd (omega arith)
  try_windows_complete (suc rounds) k j lo hi e =
      let expected = generate_hotp hmac_sha1 secret (window_counter now window k) digits in
      elim (Bool-cases (text_constant_time_equal code expected)) [
        | inl same ↦ rw same
        | inr other ↦ rw other (try_windows_complete rounds (k + 1) j (above other) (omega arith) e)
      ]
    where
      same_code :
          j ≡ k
          → text_constant_time_equal code
              (generate_hotp hmac_sha1 secret (window_counter now window k) digits)
            ≡ true
      same_code jk = (text_constant_time_equal_iff code _).1 (
          e
          ∙ ap (λ (t : ℕ). generate_hotp hmac_sha1 secret (window_counter now window t) digits) jk)

      above :
          text_constant_time_equal code
              (generate_hotp hmac_sha1 secret (window_counter now window k) digits)
            ≡ false
          → k + 1 ≤ j
      above other = elim (dec_le (k + 1) j) [
        | yes h ↦ h
        | no h ↦ absurd (cc (other, same_code (omega arith)))
      ]

module _ (hmac_sha1 : Bytes → Bytes → Bytes) where
  -- With a secret that decodes, the check of a code answers (it does not throw), and it answers
  -- true exactly if the code is that of one of the windows from `window` before the current time
  -- step to `window` after it.
  pub verify_totp_iff :
      (secret code : Text) (now_ms time_step digits window : ℕ) (secret_bytes : Bytes)
      → base32_decode secret ≡ ok secret_bytes
      → (answer : Bool) × (verify_totp hmac_sha1 secret code now_ms time_step digits window
          ≡ ok answer)
        × ((answer ≡ true) ↔ (
            (j : ℕ) × (j ≤ 2 * window)
            × (code
                ≡ generate_hotp hmac_sha1 secret_bytes
                    (window_counter (now_ms / 1000 / time_step) window j)
                    digits)))
  unfolding verify_totp
  verify_totp_iff secret code now_ms time_step digits window secret_bytes h =
      let now = now_ms / 1000 / time_step in
      let rounds = 2 * window + 1 in
      (
        try_windows hmac_sha1 secret_bytes code now digits window rounds 0,
        rw h,
        (
          λ t.
              let (j, lo, hi, e) =
                try_windows_sound hmac_sha1 secret_bytes code now digits window rounds 0 t in
              (j, omega arith, e),
          λ (j, le, e).
              try_windows_complete hmac_sha1 secret_bytes code now digits window rounds 0 j
                (omega arith) (omega arith) e,
        ),
      )

  centre :
      (now1 now2 window : ℕ)
      → now1 ≤ now2 + window
      → now2 ≤ now1 + window
      → window_counter now2 window (now1 + window - now2) ≡ pos now1
  centre now1 now2 window p q = ground arith

  -- A code that was generated is accepted later, or by a slower clock, as long as the two time
  -- steps are at most `window` apart.
  pub verify-generate_totp :
      (secret code : Text) (then_ms now_ms time_step digits window : ℕ)
      → generate_totp hmac_sha1 secret then_ms time_step digits ≡ ok code
      → then_ms / 1000 / time_step ≤ now_ms / 1000 / time_step + window
      → now_ms / 1000 / time_step ≤ then_ms / 1000 / time_step + window
      → verify_totp hmac_sha1 secret code now_ms time_step digits window ≡ ok true
  unfolding generate_totp
  verify-generate_totp secret code then_ms now_ms time_step digits window made p q =
      accepted (base32_decode secret) refl
    where
      steps_then : ℕ
      steps_then = then_ms / 1000 / time_step

      steps_now : ℕ
      steps_now = now_ms / 1000 / time_step

      accepted :
          (r : Result DecodeError Bytes)
          → base32_decode secret ≡ r
          → verify_totp hmac_sha1 secret code now_ms time_step digits window ≡ ok true
      accepted (err e) h = absurd (cc (rw h at made))
      accepted (ok bytes) h =
          let (answer, is_ok, exact) =
            verify_totp_iff secret code now_ms time_step digits window bytes h in
          is_ok
          ∙ ap ok (
              exact.1 (
                steps_then + window - steps_now,
                omega arith,
                rw (centre steps_then steps_now window p q) (cc (rw h at made)),
              ))
