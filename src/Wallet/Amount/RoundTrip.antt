-- ===== src/Wallet/Amount/RoundTrip.antt =====
-- Reading an amount back from its print.
use xv.Prelude.{
  ltb, sym, ◌%◌, ◌/◌, Bool-cases, inr, inl, ◌+◌, ◌*◌, ap₂, subst, if◌then◌else◌, ◌^◌, ◌∙◌, ◌<◌,
  ◌&&◌, false, ◌==◌, ap, not, ◌-◌, arith, refl, ◌≡◌, ◌≤◌, Bool, ◌++◌, ◌∷◌, [], true, suc, zero, ℕ,
  all, length, keep, take, replicate,
}
use xv.Prelude.Text.{Text, is_digit, pad_start, pad_end, length-pad_start}
use xv.Prelude.Decimal.{
  to_string, value_from, value_from-to_string, all_digits-to_string, length-to_string,
  value_from-pad_start, all_digits-pad_start,
}
use xv.Prelude.Int.{pos, scale, ◌+ℤ◌}
use xv.Prelude.Result.{Result, ok, err, ◌>>=◌}
use xv.Wallet.Amount.{
  syntax_error, ParseError, format_sltn, parse_sltn, decimal_digits, big_int, trim_zeros, fraction,
  before_point, after_point, or_zero, with_fraction, to_locale_string, sultan_decimals,
}
use xv.Wallet.Amount.Spelling.{is_plain, not_comma, digits_plain, big_int-plain}
use xv.Wallet.Amount.Grouped.{
  Spells, to_locale_string-Spells, to_locale_string-small, to_locale_string-comma, keep-append,
  keep_digits,
}

zeros_again : (m n : ℕ) → m ≡ n → ◌≡◌ {A = Text} (replicate m b'0') (replicate n b'0')
zeros_again m n h = ap (λ (k : ℕ). replicate {A = ℕ} k b'0') h

restore :
    (c : ℕ) (s r : Text) (cut : Bool)
    → ((c == b'0') && (length r == 0)) ≡ cut
    → r ++ replicate (length s - length r) b'0' ≡ s
    → (if cut then [] else c ∷ r)
        ++ replicate (suc (length s) - length (if cut then [] else c ∷ r)) b'0'
      ≡ c ∷ s
restore c s [] true h ih =
    zeros_again (suc (length s) - 0) (suc (length s - 0)) (omega arith)
    ∙ ap₂ (λ (x : ℕ) (t : Text). x ∷ t) (ground (arith, h)) ih
restore c s (d ∷ r) true h ih = absurd (ground (arith, h))
restore c s r false h ih =
    ap (λ (t : Text). c ∷ t)
      (ap (λ (t : Text). r ++ t)
          (zeros_again (suc (length s) - suc (length r)) (length s - length r) (omega arith))
        ∙ ih)

-- The zeros that are cut off are those that the padding puts back.
pad_end-trim_zeros :
    (s : Text) → trim_zeros s ++ replicate (length s - length (trim_zeros s)) b'0' ≡ s
pad_end-trim_zeros [] = refl
pad_end-trim_zeros (c ∷ s) = restore c s (trim_zeros s) _ refl (pad_end-trim_zeros s)

length-trim_zeros : (s : Text) → length (trim_zeros s) ≤ length s
length-trim_zeros [] = omega arith
length-trim_zeros (c ∷ s) = ground (arith, length-trim_zeros s)

digits-trim_zeros : (s : Text) → all is_digit s ≡ true → all is_digit (trim_zeros s) ≡ true
digits-trim_zeros [] h = refl
digits-trim_zeros (c ∷ s) h = ground (arith, h, digits-trim_zeros s)

pub take_all : (n : ℕ) (s : Text) → length s ≤ n → take n s ≡ s
take_all zero [] h = refl
take_all zero (c ∷ s) h = absurd (omega arith)
take_all (suc n) [] h = refl
take_all (suc n) (c ∷ s) h = ap (λ (t : Text). c ∷ t) (take_all n s (omega arith))

pub value_of_zeros : (n : ℕ) → value_from 0 (replicate n b'0') ≡ 0
value_of_zeros zero = refl
value_of_zeros (suc n) = value_of_zeros n

pub decimal_digits-ok :
    (s : Text)
    → all is_digit s ≡ true
    → 0 < length s
    → (decimal_digits s >>= λ n. ok (pos n)) ≡ ok (pos (value_from 0 s))
decimal_digits-ok s d h = ground arith

-- Nine digits, cut and padded again, are read as the number that they spell.
fraction-trim_zeros :
    (s : Text)
    → length s ≡ 9
    → all is_digit s ≡ true
    → fraction (trim_zeros s) ≡ ok (pos (value_from 0 s))
fraction-trim_zeros s h d = by_case (trim_zeros s) refl
  where
    zeros : trim_zeros s ≡ [] → replicate 9 b'0' ≡ s
    zeros e =
        zeros_again 9 (length s - 0) (omega (arith, h))
        ∙ subst (λ (t : Text). t ++ replicate (length s - length t) b'0' ≡ s) e
            (pad_end-trim_zeros s)

    padded :
        (t : Text) → trim_zeros s ≡ t → pad_end sultan_decimals b'0' (take sultan_decimals t) ≡ s
    padded t e =
        ap (pad_end sultan_decimals b'0') (
          take_all sultan_decimals t
            (omega (arith, h, length-trim_zeros s, ap {A = Text} {B = ℕ} length e)))
        ∙ ap (λ (r : Text). t ++ r)
            (zeros_again (sultan_decimals - length t) (length s - length t) (omega (arith, h)))
        ∙ subst (λ (t : Text). t ++ replicate (length s - length t) b'0' ≡ s) e
            (pad_end-trim_zeros s)

    read : big_int s ≡ ok (pos (value_from 0 s))
    read =
        big_int-plain s (digits_plain s d) (omega (arith, h))
        ∙ decimal_digits-ok s d (omega (arith, h))

    by_case : (t : Text) → trim_zeros s ≡ t → fraction t ≡ ok (pos (value_from 0 s))
    by_case [] e = ap (λ (t : Text). ok (pos (value_from 0 t))) (zeros e)
    by_case (c ∷ t) e = ap big_int (padded (c ∷ t) e) ∙ read

no_point : ℕ → Bool
no_point c = not (c == b'.')

pub before_point-digits : (s t : Text) → all is_plain s ≡ true → before_point (s ++ (b'.' ∷ t)) ≡ s
before_point-digits [] t h = refl
before_point-digits (c ∷ s) t h = ground (arith, h, before_point-digits s t)

pub before_point-none : (s : Text) → all is_plain s ≡ true → before_point s ≡ s
before_point-none [] h = refl
before_point-none (c ∷ s) h = ground (arith, h, before_point-none s)

pub after_point-digits :
    (s t : Text) → all is_plain s ≡ true → all is_plain t ≡ true → after_point (s ++ (b'.' ∷ t)) ≡ t
after_point-digits [] t h k = before_point-none t k
after_point-digits (c ∷ s) t h k = ground (arith, h, after_point-digits s t)

pub after_point-none : (s : Text) → all is_plain s ≡ true → after_point s ≡ []
after_point-none [] h = refl
after_point-none (c ∷ s) h = ground (arith, h, after_point-none s)

or_zero-same : (s : Text) → 0 < length s → or_zero s ≡ s
or_zero-same [] h = absurd (omega (arith, h))
or_zero-same (c ∷ s) h = refl

joined :
    (d : Result ParseError ℕ) (r : ℕ)
    → (d >>= (λ n. ok (pos n)) >>= λ int_part.
        ok (pos r) >>= λ frac_part. ok (scale int_part (10 ^ sultan_decimals) +ℤ frac_part))
      ≡ (d >>= λ n. ok (pos (n * 10 ^ 9 + r)))
joined (ok n) r = refl
joined (err e) r = refl

pub parse_parts :
    (s i : Text) (r : ℕ)
    → all is_plain i ≡ true
    → 0 < length i
    → before_point s ≡ i
    → fraction (after_point s) ≡ ok (pos r)
    → parse_sltn s ≡ (decimal_digits i >>= λ n. ok (pos (n * 10 ^ 9 + r)))
unfolding parse_sltn
parse_parts s i r h h0 e f =
    rw (e, or_zero-same i h0, big_int-plain i h h0, f) (joined (decimal_digits i) r)

nine_digits : ℕ → Text
nine_digits r = pad_start sultan_decimals b'0' (to_string r)

shown_fraction :
    (r : ℕ)
    → r < 10 ^ 9
    → (all is_digit (trim_zeros (nine_digits r)) ≡ true)
      × (fraction (trim_zeros (nine_digits r)) ≡ ok (pos r))
unfolding nine_digits
shown_fraction r hr =
    let d = all_digits-pad_start 9 (to_string r) (all_digits-to_string r) in
    let l = length-pad_start 9 b'0' (to_string r) (length-to_string r 8 hr) in
    (
      digits-trim_zeros (nine_digits r) d,
      fraction-trim_zeros (nine_digits r) l d
          ∙ ap (λ (n : ℕ). ok (pos n))
              (value_from-pad_start 9 (to_string r) ∙ value_from-to_string r),
    )

abbrev pub shown : Text → ℕ → Text
shown i r = if r == 0 then i else with_fraction i (to_string r)

-- What a print with the integer part `i` is read as.
parse-shown :
    (i : Text) (r : ℕ)
    → all is_plain i ≡ true
    → 0 < length i
    → r < 10 ^ 9
    → parse_sltn (shown i r) ≡ (decimal_digits i >>= λ n. ok (pos (n * 10 ^ 9 + r)))
unfolding nine_digits
parse-shown i r h h0 hr = elim (Bool-cases (r == 0)) [
  | inl whole ↦ rw whole (
      parse_parts i i r h h0 (before_point-none i h)
        (ap fraction (after_point-none i h) ∙ ap (λ (n : ℕ). ok (pos n)) (ground (arith, whole))))
  | inr part ↦
      let (d, f) = shown_fraction r hr in
      let t = trim_zeros (nine_digits r) in
      rw part (
        parse_parts (i ++ (b'.' ∷ t)) i r h h0 (before_point-digits i t h)
          (ap fraction (after_point-digits i t h (digits_plain t d)) ∙ f))
]

keep-shown :
    (i : Text) (r : ℕ) → r < 10 ^ 9 → keep not_comma (shown i r) ≡ shown (keep not_comma i) r
unfolding nine_digits
keep-shown i r hr = elim (Bool-cases (r == 0)) [
  | inl whole ↦ rw whole refl
  | inr part ↦
      let t = trim_zeros (nine_digits r) in
      rw part (
        keep-append not_comma i (b'.' ∷ t)
        ∙ ap (λ (u : Text). keep not_comma i ++ (b'.' ∷ u)) (keep_digits t (shown_fraction r hr).0))
]

read_back :
    (n : ℕ) (i : Text)
    → Spells i (n / 10 ^ 9)
    → parse_sltn (shown (keep not_comma i) (n % 10 ^ 9)) ≡ ok (pos n)
read_back n i p =
    parse-shown (keep not_comma i) (n % 10 ^ 9) (digits_plain (keep not_comma i) p.digits)
      p.some_digit (omega arith)
    ∙ value_read
  where
    value_read :
        (decimal_digits (keep not_comma i) >>= λ q. ok (pos (q * 10 ^ 9 + n % 10 ^ 9))) ≡ ok (pos n)
    value_read = ground (arith, p.digits, p.some_digit, p.value)

small_read :
    (n : ℕ)
    → n < 1000 * 10 ^ 9
    → parse_sltn (shown (to_locale_string (n / 10 ^ 9)) (n % 10 ^ 9)) ≡ ok (pos n)
small_read n h =
    let q = n / 10 ^ 9 in
    let e : keep not_comma (to_locale_string q) ≡ to_locale_string q =
      rw (to_locale_string-small q (omega arith))
        (keep_digits (to_string q) (all_digits-to_string q)) in
    ap (λ (t : Text). parse_sltn (shown t (n % 10 ^ 9))) (sym e)
    ∙ read_back n (to_locale_string q) (to_locale_string-Spells q)

large_refused :
    (n : ℕ)
    → 1000 * 10 ^ 9 ≤ n
    → parse_sltn (shown (to_locale_string (n / 10 ^ 9)) (n % 10 ^ 9)) ≡ err syntax_error
large_refused n h =
    let p = to_locale_string-Spells (n / 10 ^ 9) in
    parse-shown (to_locale_string (n / 10 ^ 9)) (n % 10 ^ 9) p.plain p.not_empty (omega arith)
    ∙ ground (arith, to_locale_string-comma (n / 10 ^ 9) (omega (arith, h)))

-- An amount without its commas is read back exactly. As it is printed, it is read back below 1,000
-- SLTN, and from there on reading it throws.
pub parse-format :
    (n : ℕ)
    → (parse_sltn (keep not_comma (format_sltn (pos n))) ≡ ok (pos n))
      × (parse_sltn (format_sltn (pos n))
          ≡ (if ltb n (1000 * 10 ^ 9) then ok (pos n) else err syntax_error))
unfolding format_sltn
parse-format n = (
  ap parse_sltn (keep-shown (to_locale_string (n / 10 ^ 9)) (n % 10 ^ 9) (omega arith))
      ∙ read_back n (to_locale_string (n / 10 ^ 9)) (to_locale_string-Spells (n / 10 ^ 9)),
  ground (arith, small_read n, large_refused n),
)
