-- ===== src/Security/Pin.antt =====
-- `validatePin` of wallet-extension/src/core/security.ts.
pub mod Accepted
mod Tests
use xv.Prelude.{
  all, ℕ, zero, suc, ◌+◌, ◌-◌, ◌*◌, ◌/◌, ◌%◌, ◌^◌, ◌≤◌, ◌<◌, ◌≡◌, refl, ap, ◌≢◌, ◌↔◌, ◌⊎◌, inl, inr,
  Bool, true, false, not, ◌&&◌, ◌||◌, Option, none, some, List, [], ◌∷◌, ◌++◌, map, arith, length,
  ltb, leb, ◌==◌, if◌then◌else◌,
}
use xv.Prelude.Text.{is_digit, Text}
use xv.Security.Limits.{max_pin_length, min_pin_length}

pub data PinError : Type 0 where
  required too_short too_long not_digits sequential repeated : PinError

-- The loop over `i`: every digit is one more than the digit before it. It runs on digits only, so
-- `parseInt` of a character is its distance from `0`.
abbrev pub ascends : Text → Bool
ascends [] = true
ascends (c ∷ []) = true
ascends (c ∷ d ∷ s) = (d - b'0' == c - b'0' + 1) && ascends (d ∷ s)

abbrev pub contains : ℕ → Text → Bool
contains c [] = false
contains c (d ∷ s) = (d == c) || contains c s

-- new Set(pin.split('')).size
abbrev pub set_size : Text → ℕ
set_size [] = 0
set_size (c ∷ s) = let rest = set_size s in if contains c s then rest else rest + 1

-- `none` is the answer that the PIN is valid.
unfoldable pub validate_pin : Text → Option PinError
validate_pin pin =
    if length pin == 0
    then some required
    else if ltb (length pin) min_pin_length
    then some too_short
    else if ltb max_pin_length (length pin)
    then some too_long
    else if not (all is_digit pin)
    then some not_digits
    else if ascends pin
    then some sequential
    else if set_size pin == 1
    then some repeated
    else none
