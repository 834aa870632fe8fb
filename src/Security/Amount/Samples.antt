-- ===== src/Security/Amount/Samples.antt =====
-- Numbers of at most nine decimals, for the examples: `none` is NaN, and others count billionths.
use xv.Prelude.{
  ◌/◌, ◌%◌, ◌+◌, take, ◌^◌, refl, ◌*◌, ◌++◌, ◌==◌, arith, Bool, if◌then◌else◌, Option, append-nil,
  all, ℕ, ◌∷◌, [], some, none, false, true, ◌≡◌, length, leb, ltb,
}
use xv.Prelude.Text.{codes, is_digit, Text, pad_end}
use xv.Prelude.Decimal.{to_string, leading_digits, after_digits, value_from, leading_digits-append}
use xv.Platform.Floats.{CommaIsNaN, Floats, StopsAtComma}
use xv.Security.Amount.{fraction_format}
use xv.Security.Amount.Commas.{fraction_format-HasComma, HasComma}
use xv.Wallet.Amount.{with_fraction}

abbrev pub fraction_units : Text → ℕ
fraction_units [] = 0
fraction_units (c ∷ s) =
    if c == b'.' then value_from 0 (pad_end 9 b'0' (take 9 (leading_digits s))) else 0

abbrev pub read_units : Text → Option ℕ
read_units s =
    if length (leading_digits s) == 0
    then none
    else some (value_from 0 (leading_digits s) * 10 ^ 9 + fraction_units (after_digits s))

abbrev on_numbers : (ℕ → ℕ → Bool) → Option ℕ → Option ℕ → Bool
on_numbers f none b = false
on_numbers f (some a) none = false
on_numbers f (some a) (some b) = f a b

abbrev units_text : ℕ → Text
units_text n =
    if n % 10 ^ 9 == 0
    then to_string (n / 10 ^ 9)
    else with_fraction (to_string (n / 10 ^ 9)) (to_string (n % 10 ^ 9))

abbrev pub billionths : Floats (Option ℕ)
billionths = record {
  parse_float = read_units;
  number = λ s. if fraction_format 9 (after_digits s) then read_units s else none;
  of_ℕ = λ n. some (n * 10 ^ 9);
  to_text = λ x. elim x [ none ↦ codes "NaN" | some n ↦ units_text n ];
  is_nan = λ x. elim x [ none ↦ true | some n ↦ false ];
  gt = on_numbers (λ a b. ltb b a);
  le = on_numbers leb;
  eq = on_numbers (λ a b. a == b);
}

after_digits-comma :
    (s t : Text) → all is_digit s ≡ true → after_digits (s ++ (b',' ∷ t)) ≡ b',' ∷ t
after_digits-comma [] t h = refl
after_digits-comma (c ∷ s) t h = ground (arith, h, after_digits-comma s t)

after_digits-none : (s : Text) → all is_digit s ≡ true → after_digits s ≡ []
after_digits-none [] h = refl
after_digits-none (c ∷ s) h = ground (arith, h, after_digits-none s)

leading_same : (s : Text) → all is_digit s ≡ true → leading_digits s ≡ s
leading_same [] h = refl
leading_same (c ∷ s) h = ground (arith, h, leading_same s)

pub billionths-StopsAtComma : StopsAtComma billionths
billionths-StopsAtComma = record {
  parse_float-comma = λ s t d h.
      rw
        (
          leading_digits-append s (b',' ∷ t) d,
          after_digits-comma s t d,
          after_digits-none s d,
          leading_same s d,
          append-nil s,
        )
        refl;
}

pub billionths-CommaIsNaN : CommaIsNaN billionths
billionths-CommaIsNaN = record {
  number-comma = λ s t.
      let c : HasComma (s ++ (b',' ∷ t)) = record { front = s; rest = t; split = refl } in
      rw (fraction_format-HasComma 9 (s ++ (b',' ∷ t)) c) refl;
  gt-nan = λ x y h. gt-none x y h;
  nan-gt = λ x y h. none-gt x y h;
}
  where
    gt-none : (x y : Option ℕ) → billionths.is_nan x ≡ true → billionths.gt x y ≡ false
    gt-none none y h = refl
    gt-none (some n) y h = absurd (ground (arith, h))

    none-gt : (x y : Option ℕ) → billionths.is_nan y ≡ true → billionths.gt x y ≡ false
    none-gt none y h = refl
    none-gt (some n) none h = refl
    none-gt (some n) (some m) h = absurd (ground (arith, h))
