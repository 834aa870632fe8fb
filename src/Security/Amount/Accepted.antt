-- ===== src/Security/Amount/Accepted.antt =====
-- What an accepted amount is worth.
use xv.Prelude.{
  ◌-◌, append-nil, refl, length, replicate, ◌≤◌, ◌++◌, ◌∙◌, ◌<◌, arith, all, ap, ◌∷◌, [], suc, zero,
  drop, ◌+◌, ◌^◌, ◌*◌, ℕ, none, true, ◌≡◌,
}
use xv.Prelude.Text.{is_digit, pad_end, Text}
use xv.Prelude.Decimal.{
  all_digits-leading_digits, leading_after, value_from, leading_digits, after_digits,
}
use xv.Prelude.Result.{◌>>=◌, ok}
use xv.Platform.Floats.{Floats}
use xv.Wallet.Amount.{big_int, fraction, decimal_digits, sultan_decimals, parse_sltn}
use xv.Security.Amount.{fraction_format, amount_format, validate_amount}
use xv.Prelude.Int.{pos}
use xv.Wallet.Amount.Spelling.{big_int-plain, digits_plain, all-append-eq}
use xv.Wallet.Amount.RoundTrip.{
  after_point-digits, before_point-digits, decimal_digits-ok, after_point-none, take_all,
  before_point-none, parse_parts,
}

-- The base units that a text of digits, with at most nine behind a point, spells.
abbrev pub spelled_units : Text → ℕ
spelled_units s =
    value_from 0 (leading_digits s) * 10 ^ 9
    + value_from 0 (pad_end sultan_decimals b'0' (drop 1 (after_digits s)))

digits-padded :
    (n : ℕ) (s : Text) → all is_digit s ≡ true → all is_digit (s ++ replicate n b'0') ≡ true
digits-padded n s h = rw (all-append-eq is_digit s (replicate n b'0')) (ground (arith, h, zeros n))
  where
    zeros : (n : ℕ) → all is_digit (replicate n b'0') ≡ true
    zeros zero = refl
    zeros (suc n) = zeros n

-- The digits behind the point, at most nine of them.
fraction-digits :
    (f : Text)
    → all is_digit f ≡ true
    → 1 ≤ length f
    → length f ≤ 9
    → fraction f ≡ ok (pos (value_from 0 (pad_end sultan_decimals b'0' f)))
fraction-digits [] d h k = absurd (omega (arith, h))
fraction-digits (c ∷ f) d h k =
    let padded = pad_end sultan_decimals b'0' (c ∷ f) in
    let digits = digits-padded (9 - length (c ∷ f)) (c ∷ f) d in
    ap (λ (t : Text). big_int (pad_end sultan_decimals b'0' t)) (take_all sultan_decimals (c ∷ f) k)
    ∙ big_int-plain padded (digits_plain padded digits) (omega arith)
    ∙ decimal_digits-ok padded digits (omega arith)

whole_part :
    (i : Text) (r : ℕ)
    → all is_digit i ≡ true
    → 0 < length i
    → (decimal_digits i >>= λ n. ok (pos (n * 10 ^ 9 + r))) ≡ ok (pos (value_from 0 i * 10 ^ 9 + r))
whole_part i r d h = ground (arith, d, h)

parse-parts :
    (i tail : Text)
    → all is_digit i ≡ true
    → 0 < length i
    → fraction_format sultan_decimals tail ≡ true
    → parse_sltn (i ++ tail)
      ≡ ok (
          pos (value_from 0 i * 10 ^ 9 + value_from 0 (pad_end sultan_decimals b'0' (drop 1 tail))))
parse-parts i [] d h f =
    let plain = digits_plain i d in
    ap parse_sltn (append-nil i)
    ∙ parse_parts i i 0 plain h (before_point-none i plain) (ap fraction (after_point-none i plain))
    ∙ whole_part i 0 d h
parse-parts i (c ∷ f) d h k =
    let plain = digits_plain i d in
    let digits : all is_digit f ≡ true = ground (arith, k) in
    let point : c ≡ b'.' = ground (arith, k) in
    ap (λ (x : ℕ). parse_sltn (i ++ (x ∷ f))) point
    ∙ parse_parts (i ++ (b'.' ∷ f)) i (value_from 0 (pad_end sultan_decimals b'0' f)) plain h
        (before_point-digits i f plain)
        (ap fraction (after_point-digits i f plain (digits_plain f digits))
          ∙ fraction-digits f digits (ground (arith, k)) (ground (arith, k)))
    ∙ whole_part i (value_from 0 (pad_end sultan_decimals b'0' f)) d h

parse_sltn-format :
    (s : Text) → amount_format sultan_decimals s ≡ true → parse_sltn s ≡ ok (pos (spelled_units s))
unfolding amount_format
parse_sltn-format s h =
    ap parse_sltn (leading_after s)
    ∙ parse-parts (leading_digits s) (after_digits s) (all_digits-leading_digits s)
        (ground (arith, h)) (ground (arith, h))

-- Whatever the balance is, and however numbers are rounded: an accepted amount of at most nine decimals
-- is parsed without an error, to the base units that its digits spell.
pub accepted_amount_is_parsed :
    {F : Type 0} (floats : Floats F) (amount available : Text)
    → validate_amount floats amount available sultan_decimals ≡ none
    → parse_sltn amount ≡ ok (pos (spelled_units amount))
unfolding validate_amount
accepted_amount_is_parsed floats amount available h = parse_sltn-format amount (ground (arith, h))
