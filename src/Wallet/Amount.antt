-- ===== src/Wallet/Amount.antt =====
-- `formatSLTN`, `parseSLTN` and `truncateAddress` of wallet-extension/src/core/wallet.ts. A bigint is
-- an integer, and a SyntaxError of `BigInt` an `err`.
pub mod Spelling
pub mod Grouped
pub mod RoundTrip
pub mod Shorten
mod Tests
use xv.Prelude.{
  zero, false, none, ◌-◌, ◌+◌, ltb, some, ◌&&◌, [], Option, not, suc, Bool, leb, ◌*◌, ◌==◌, ◌%◌,
  ◌++◌, if◌then◌else◌, ◌∷◌, ◌/◌, ℕ, ◌^◌, all, length, take, drop, get_or,
}
use xv.Prelude.Text.{Text, codes, is_digit, trim, strip_prefix, pad_start, pad_end}
use xv.Prelude.Decimal.{to_string, value_from}
use xv.Prelude.Int.{ℤ, pos, negsuc, neg, scale, ◌+ℤ◌}
use xv.Prelude.Result.{Result, ok, err, ◌>>=◌}

abbrev pub sultan_decimals : ℕ
sultan_decimals = 9

-- n.toLocaleString('en-US') of a non-negative bigint: a comma before every three digits. The number of
-- rounds is bounded by the number, which each round divides.
unfoldable pub group_loop : ℕ → ℕ → Text
unfolding to_string
group_loop zero n = []
group_loop (suc f) n =
    let rest = group_loop f (n / 1000) in
    if ltb n 1000 then to_string n else rest ++ (b',' ∷ pad_start 3 b'0' (to_string (n % 1000)))

unfoldable pub to_locale_string : ℕ → Text
unfolding group_loop
to_locale_string n = group_loop (suc n) n

-- replace(/0+$/, '')
abbrev pub trim_zeros : Text → Text
trim_zeros [] = []
trim_zeros (c ∷ s) =
    let rest = trim_zeros s in if (c == b'0') && (length rest == 0) then [] else c ∷ rest

-- The digits behind the point, of the text of the remainder.
abbrev pub with_fraction : Text → Text → Text
with_fraction int_str frac = int_str ++ (b'.' ∷ trim_zeros (pad_start sultan_decimals b'0' frac))

-- Division and remainder of a negative bigint go towards zero, and the remainder keeps the sign.
unfoldable pub format_sltn : ℤ → Text
unfolding to_locale_string to_string
format_sltn (pos n) =
    let int_str = to_locale_string (n / 10 ^ sultan_decimals) in
    if n % 10 ^ sultan_decimals == 0
    then int_str
    else with_fraction int_str (to_string (n % 10 ^ sultan_decimals))
format_sltn (negsuc n) =
    let int_part = suc n / 10 ^ sultan_decimals in
    let int_str = if int_part == 0 then to_locale_string 0 else b'-' ∷ to_locale_string int_part in
    if suc n % 10 ^ sultan_decimals == 0
    then int_str
    else with_fraction int_str (b'-' ∷ to_string (suc n % 10 ^ sultan_decimals))

pub data ParseError : Type 0 where
  syntax_error : ParseError

-- The value of a digit of any radix up to 16, or `none`.
abbrev pub digit_of : ℕ → Option ℕ
digit_of c =
    if is_digit c
    then some (c - b'0')
    else if leb b'a' c && leb c b'f'
    then some (c - b'a' + 10)
    else if leb b'A' c && leb c b'F'
    then some (c - b'A' + 10)
    else none

abbrev in_radix : ℕ → ℕ → Bool
in_radix radix c = elim (digit_of c) [ none ↦ false | some d ↦ ltb d radix ]

abbrev pub radix_value : ℕ → ℕ → Text → ℕ
radix_value radix v [] = v
radix_value radix v (c ∷ s) =
    radix_value radix (v * radix + elim (digit_of c) [ none ↦ 0 | some d ↦ d ]) s

-- One digit or more, all of the radix.
abbrev pub digits_in : ℕ → Text → Result ParseError ℕ
digits_in radix s =
    if not (length s == 0) && all (in_radix radix) s
    then ok (radix_value radix 0 s)
    else err syntax_error

abbrev pub decimal_digits : Text → Result ParseError ℕ
decimal_digits s =
    if not (length s == 0) && all is_digit s then ok (value_from 0 s) else err syntax_error

-- The number behind a sign or the prefix of a radix, or the number with neither.
abbrev pub after_prefix :
    Text → (Text → Result ParseError ℤ) → Result ParseError ℤ → Text → Result ParseError ℤ
after_prefix prefix read otherwise s = elim (strip_prefix prefix s) [
  | none ↦ otherwise
  | some rest ↦ read rest
]

abbrev radix_digits : ℕ → Text → Result ParseError ℤ
radix_digits radix s = digits_in radix s >>= λ n. ok (pos n)

-- BigInt(s): blanks around the number do not count, and a text of blanks is 0. Only a decimal number
-- may have a sign.
unfoldable pub big_int : Text → Result ParseError ℤ
unfolding trim
big_int text =
    let s = trim text in
    if length s == 0
    then ok (pos 0)
    else after_prefix (codes "-") (λ t. decimal_digits t >>= λ n. ok (neg n))
        (after_prefix (codes "+") (λ t. decimal_digits t >>= λ n. ok (pos n))
          (after_prefix (codes "0x") (radix_digits 16)
            (after_prefix (codes "0X") (radix_digits 16)
              (after_prefix (codes "0o") (radix_digits 8)
                (after_prefix (codes "0O") (radix_digits 8)
                  (after_prefix (codes "0b") (radix_digits 2)
                    (after_prefix (codes "0B") (radix_digits 2)
                      (decimal_digits s >>= λ n. ok (pos n)) s)
                    s)
                  s)
                s)
              s)
            s)
          s)
        s

-- split('.')[0], and split('.')[1] with the empty text for `undefined`: both are falsy.
abbrev pub before_point : Text → Text
before_point [] = []
before_point (c ∷ s) = let rest = before_point s in if c == b'.' then [] else c ∷ rest

abbrev pub after_point : Text → Text
after_point [] = []
after_point (c ∷ s) = let rest = after_point s in if c == b'.' then before_point s else rest

abbrev pub or_zero : Text → Text
or_zero [] = b'0' ∷ []
or_zero (c ∷ s) = c ∷ s

abbrev pub fraction : Text → Result ParseError ℤ
fraction [] = ok (pos 0)
fraction (c ∷ s) = big_int (pad_end sultan_decimals b'0' (take sultan_decimals (c ∷ s)))

unfoldable pub parse_sltn : Text → Result ParseError ℤ
unfolding big_int
parse_sltn display_units = do
  int_part ← big_int (or_zero (before_point display_units))
  frac_part ← fraction (after_point display_units)
  ok (scale int_part (10 ^ sultan_decimals) +ℤ frac_part)

-- slice(-n), which is the whole text for 0
abbrev pub slice_last : ℕ → Text → Text
slice_last n s = if n == 0 then s else drop (length s - n) s

unfoldable pub truncate_address : Text → ℕ → Text
truncate_address address chars =
    if leb (length address) (chars * 2 + 3)
    then address
    else take (chars + 6) address ++ (codes "..." ++ slice_last chars address)
