-- ===== src/Security/Amount.antt =====
-- `validateAmount` and `isHighValueTransaction` of wallet-extension/src/core/security.ts.
pub mod Accepted
pub mod Balance
pub mod Commas
pub mod Samples
mod Tests
use xv.Prelude.{
  all, Option, ◌==◌, Bool, ℕ, ◌∷◌, [], some, none, true, ◌≡◌, length, leb, not, ◌&&◌, ◌||◌,
  if◌then◌else◌,
}
use xv.Prelude.Text.{is_digit, Text}
use xv.Prelude.Decimal.{leading_digits, after_digits}
use xv.Platform.Floats.{Floats}

abbrev pub high_value_threshold_sltn : ℕ
high_value_threshold_sltn = 1000

pub data AmountError : Type 0 where
  amount_required bad_format not_positive insufficient_balance : AmountError

-- (\.\d{1,decimals})?$
abbrev pub fraction_format : ℕ → Text → Bool
fraction_format decimals [] = true
fraction_format decimals (c ∷ s) =
    (c == b'.') && leb 1 (length s) && leb (length s) decimals && all is_digit s

-- `^\d+(\.\d{1,${decimals}})?$`
unfoldable pub amount_format : ℕ → Text → Bool
amount_format decimals s =
    not (length (leading_digits s) == 0) && fraction_format decimals (after_digits s)

module _ {F : Type 0} (floats : Floats F) where
  -- `none` is a valid amount.
  unfoldable pub validate_amount : Text → Text → ℕ → Option AmountError
  unfolding amount_format
  validate_amount amount available decimals =
      let amount_num = floats.parse_float amount in
      let available_num = floats.parse_float available in
      if length amount == 0
      then some amount_required
      else if not (amount_format decimals amount)
      then some bad_format
      else if floats.is_nan amount_num || floats.le amount_num (floats.of_ℕ 0)
      then some not_positive
      else if floats.gt amount_num available_num
      then some insufficient_balance
      else none

  -- Of a text; the screens pass no number.
  unfoldable pub is_high_value_transaction : Text → Bool
  is_high_value_transaction amount =
      let n = floats.parse_float amount in
      not (floats.is_nan n) && floats.le (floats.of_ℕ high_value_threshold_sltn) n
