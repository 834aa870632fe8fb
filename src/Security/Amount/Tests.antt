-- ===== src/Security/Amount/Tests.antt =====
-- Examples for amounts.
use xv.Prelude.{refl, some, true, ◌≡◌}
use xv.Prelude.Text.{codes}
use xv.Prelude.Int.{pos}
use xv.Prelude.Result.{ok}
use xv.Wallet.Amount.{parse_sltn}
use xv.Security.Amount.{
  insufficient_balance, bad_format, validate_amount, is_high_value_transaction,
}
use xv.Security.Amount.Accepted.{spelled_units, accepted_amount_is_parsed}
use xv.Security.Amount.Samples.{billionths}

ten_of_a_thousand :
    validate_amount billionths (codes "10") (codes "1,234.5") 9 ≡ some insufficient_balance
unfolding validate_amount
ten_of_a_thousand = refl

no_tenth_decimal : validate_amount billionths (codes "0.1234567890") (codes "5") 9 ≡ some bad_format
unfolding validate_amount
no_tenth_decimal = refl

thousand_is_high : is_high_value_transaction billionths (codes "1000") ≡ true
unfolding is_high_value_transaction
thousand_is_high = refl

accepted_amount_is_parsed_example :
    parse_sltn (codes "2.25") ≡ ok (pos (spelled_units (codes "2.25")))
unfolding validate_amount
accepted_amount_is_parsed_example =
    accepted_amount_is_parsed billionths (codes "2.25") (codes "10.5") refl
