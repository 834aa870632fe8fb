-- ===== src/Security/Amount/Commas.antt =====
-- A print with a comma is no amount.
use xv.Prelude.{
  ◌%◌, append_assoc, ◌==◌, ◌∙◌, ap, length, ◌/◌, Bool-cases, ◌≤◌, ◌^◌, ◌*◌, arith, ℕ, inr, inl, ◌∷◌,
  [], some, false, true, ◌≡◌, refl, all, ◌++◌,
}
use xv.Wallet.Amount.Spelling.{not_comma, all-append-eq}
use xv.Security.Amount.Balance.{format_sltn-front}
use xv.Wallet.Amount.{format_sltn, group_loop, to_locale_string}
use xv.Prelude.Text.{pad_start, is_digit, Text}
use xv.Security.Amount.{bad_format, fraction_format, validate_amount}
use xv.Platform.Floats.{Floats}
use xv.Prelude.Decimal.{
  all_digits-leading_digits, to_string, leading_digits, leading_after, after_digits,
}
use xv.Prelude.Int.{pos}

pub record HasComma (s : Text) : Type 0 where
  pub front : Text
  pub rest : Text
  pub split : s ≡ front ++ (b',' ∷ rest)

-- The print of a thousand or more has one.
to_locale_string-HasComma : (n : ℕ) → 1000 ≤ n → HasComma (to_locale_string n)
unfolding to_locale_string group_loop
to_locale_string-HasComma n h = record {
  front = group_loop n (n / 1000);
  rest = pad_start 3 b'0' (to_string (n % 1000));
  split = ground (arith, h);
}

pub format_sltn-HasComma : (b : ℕ) → 1000 * 10 ^ 9 ≤ b → HasComma (format_sltn (pos b))
format_sltn-HasComma b h =
    let (t, e) = format_sltn-front b in
    let c = to_locale_string-HasComma (b / 10 ^ 9) (omega (arith, h)) in
    record {
      front = c.front;
      rest = c.rest ++ t;
      split = e ∙ ap (λ (s : Text). s ++ t) c.split ∙ append_assoc c.front (b',' ∷ c.rest) t;
    }

not_comma-digits : (s : Text) → all is_digit s ≡ true → all not_comma s ≡ true
not_comma-digits [] h = refl
not_comma-digits (c ∷ s) h = ground (arith, h, not_comma-digits s)

not_comma-fraction : (d : ℕ) (s : Text) → fraction_format d s ≡ true → all not_comma s ≡ true
not_comma-fraction d [] h = refl
not_comma-fraction d (c ∷ s) h = ground (arith, h, not_comma-digits s)

not_comma-parts :
    (d : ℕ) (s : Text) → fraction_format d (after_digits s) ≡ true → all not_comma s ≡ true
not_comma-parts d s h =
    ap (all not_comma) (leading_after s)
    ∙ all-append-eq not_comma (leading_digits s) (after_digits s)
    ∙ ground (
      arith,
      not_comma-digits (leading_digits s) (all_digits-leading_digits s),
      not_comma-fraction d (after_digits s) h,
    )

comma-found : (u v : Text) → all not_comma (u ++ (b',' ∷ v)) ≡ false
comma-found [] v = refl
comma-found (c ∷ u) v = ground (arith, comma-found u v)

pub fraction_format-HasComma :
    (d : ℕ) (s : Text) → HasComma s → fraction_format d (after_digits s) ≡ false
fraction_format-HasComma d s c = elim (Bool-cases (fraction_format d (after_digits s))) [
  | inr other ↦ other
  | inl plain ↦ absurd (
      ground
        (arith, not_comma-parts d s plain, ap (all not_comma) c.split ∙ comma-found c.front c.rest))
]

not_empty-comma : (u v : Text) → (length (u ++ (b',' ∷ v)) == 0) ≡ false
not_empty-comma [] v = ground arith
not_empty-comma (c ∷ u) v = ground arith

pub validate_amount-HasComma :
    {F : Type 0} (floats : Floats F) (amount available : Text) (d : ℕ)
    → HasComma amount
    → validate_amount floats amount available d ≡ some bad_format
unfolding validate_amount
validate_amount-HasComma floats amount available d c =
    let no = fraction_format-HasComma d amount c in
    let long : (length amount == 0) ≡ false =
      ap (λ (t : Text). length t == 0) c.split ∙ not_empty-comma c.front c.rest in
    ground (arith, no, long)
