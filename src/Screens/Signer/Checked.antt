-- ===== src/Screens/Signer/Checked.antt =====
-- What a check of the entered PIN leaves and when it lets an action pass.
use xv.Prelude.{
  ◌∙◌, sym, ◌==◌, length, Bool-cases, arith, List, Bool, inr, inl, false, true, ◌≡◌, refl,
}
use xv.Screens.Signer.{full_pin, check_pin, Signer, verified, Readings, check_of}
use xv.Prelude.Result.{Result, err, ok}
use xv.Platform.{TextCodec}
use xv.Prelude.Text.{Text, Bytes}
use xv.Security.SessionPin.{verify_session_pin, SessionPinError}

-- `verifySessionPin` answers true to the PIN that was entered.
abbrev pub PinVerified : TextCodec → (Bytes → Bytes) → Readings → List Text → Signer → Type 0
PinVerified codec sha256 r pin s =
    (verify_session_pin codec sha256 r.locked_at r.remaining_at r.failed_at s.session_pin_hash
      (full_pin pin) s.lockout).1
    ≡ ok true

check_of-verified : (a : Result SessionPinError Bool) → check_of a ≡ verified → a ≡ ok true
check_of-verified (err e) h = absurd (ground (arith, h))
check_of-verified (ok true) h = refl
check_of-verified (ok false) h = absurd (ground (arith, h))

module _ (codec : TextCodec) (sha256 : Bytes → Bytes) (r : Readings) (pin : List Text)
    (s : Signer) where
  pub check_pin-verified :
      (check_pin codec sha256 r pin s).1 ≡ verified → PinVerified codec sha256 r pin s
  unfolding check_pin
  check_pin-verified h = elim (Bool-cases (length (full_pin pin) == 6)) [
    | inl six ↦ check_of-verified _ (sym (rw six refl) ∙ h)
    | inr other ↦ absurd (ground (arith, other, h))
  ]

  pub trace-check_pin : (check_pin codec sha256 r pin s).0.trace ≡ s.trace
  unfolding check_pin
  trace-check_pin = elim (Bool-cases (length (full_pin pin) == 6)) [
    | inl six ↦ rw six refl
    | inr other ↦ rw other refl
  ]

  -- The signer with the lockout's entry that the check leaves.
  abbrev pub after_check : Signer
  after_check = record s {
    lockout =
        (verify_session_pin codec sha256 r.locked_at r.remaining_at r.failed_at s.session_pin_hash
          (full_pin pin) s.lockout).0;
  }

  pub check_pin-passes :
      length (full_pin pin) ≡ 6
      → PinVerified codec sha256 r pin s
      → check_pin codec sha256 r pin s ≡ (after_check, verified)
  unfolding check_pin
  check_pin-passes six right = rw (full, right) refl
    where
      full : (length (full_pin pin) == 6) ≡ true
      full = rw six refl
