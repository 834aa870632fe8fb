-- ===== src/Api/Governance/Numbers.antt =====
-- What parseInt reads of a number that wallet-extension/src/api/sultanAPI.ts is given as digits.
use xv.Prelude.{arith, ap, refl, ◌≡◌, ◌≢◌, ◌∷◌, [], ◌==◌, none, some, true, false, ℕ, all, length}
use xv.Prelude.Text.{Text, is_digit, trim_start, strip_prefix}
use xv.Prelude.Decimal.{
  leading_digits, value_from, to_string, value_from-to_string, all_digits-to_string,
  to_string-ne-nil,
}
use xv.Prelude.Int.{pos}
use xv.Api.Governance.{parse_int}

trim_start-digits : (s : Text) → all is_digit s ≡ true → trim_start s ≡ s
trim_start-digits [] h = refl
trim_start-digits (c ∷ s) h = ground (arith, h)

strip_sign-digits :
    (p : ℕ) (s : Text) → is_digit p ≡ false → all is_digit s ≡ true → strip_prefix (p ∷ []) s ≡ none
strip_sign-digits p [] hp h = refl
strip_sign-digits p (c ∷ s) hp h = ground (arith, ap is_digit {x = p} {y = c})

leading-digits : (s : Text) → all is_digit s ≡ true → leading_digits s ≡ s
leading-digits [] h = refl
leading-digits (c ∷ s) h = ground (arith, h, leading-digits s)

some_length : (s : Text) → s ≢ [] → (length s == 0) ≡ false
some_length [] h = absurd (h refl)
some_length (c ∷ s) h = ground arith

parse_int-digits :
    (s : Text) → all is_digit s ≡ true → s ≢ [] → parse_int s ≡ some (pos (value_from 0 s))
unfolding parse_int
parse_int-digits s h some_digit =
    rw
      (
        trim_start-digits s h,
        strip_sign-digits b'-' s refl h,
        trim_start-digits s h,
        strip_sign-digits b'+' s refl h,
        trim_start-digits s h,
        leading-digits s h,
        some_length s some_digit,
        parse_int,
      )
      refl

pub parse_int-to_string : (n : ℕ) → parse_int (to_string n) ≡ some (pos n)
parse_int-to_string n =
    rw
      (
        parse_int-digits (to_string n) (all_digits-to_string n) (to_string-ne-nil n),
        value_from-to_string n,
      )
      refl
