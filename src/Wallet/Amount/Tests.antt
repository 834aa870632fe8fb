-- ===== src/Wallet/Amount/Tests.antt =====
-- Amounts at the source's own test values.
use xv.Prelude.{min, keep, ◌+◌, ◌*◌, ◌^◌, ◌≡◌, refl, length, ltb, leb, if◌then◌else◌}
use xv.Prelude.Text.{codes}
use xv.Prelude.Int.{pos, negsuc}
use xv.Prelude.Result.{ok, err}
use xv.Wallet.Amount.{truncate_address, format_sltn, parse_sltn, syntax_error}
use xv.Wallet.Amount.Spelling.{not_comma}
use xv.Wallet.Amount.RoundTrip.{parse-format}
use xv.Wallet.Amount.Shorten.{length-truncate_address}

billion : format_sltn (pos 1000000000000000000) ≡ codes "1,000,000,000"
unfolding format_sltn
billion = refl

fractional : format_sltn (pos 123456789) ≡ codes "0.123456789"
unfolding format_sltn
fractional = refl

half : parse_sltn (codes "1.5") ≡ ok (pos 1500000000)
unfolding parse_sltn
half = refl

negative_half : parse_sltn (codes "-1.5") ≡ ok (negsuc 499999999)
unfolding parse_sltn
negative_half = refl

too_long : parse_sltn (codes "1.1234567899999") ≡ ok (pos 1123456789)
unfolding parse_sltn
too_long = refl

parse-format_example :
    (parse_sltn (keep not_comma (format_sltn (pos 1234567890123))) ≡ ok (pos 1234567890123))
    × (parse_sltn (format_sltn (pos 1234567890123))
        ≡ (if ltb 1234567890123 (1000 * 10 ^ 9) then ok (pos 1234567890123) else err syntax_error))
parse-format_example = parse-format 1234567890123

shortened_sample : length (truncate_address (codes "sultan1qpzry9x8gf2tvdw0s3jn54khce6mua7l") 8) ≡ (
    if leb (length (codes "sultan1qpzry9x8gf2tvdw0s3jn54khce6mua7l")) (8 * 2 + 3)
    then length (codes "sultan1qpzry9x8gf2tvdw0s3jn54khce6mua7l")
    else min (8 + 6) (length (codes "sultan1qpzry9x8gf2tvdw0s3jn54khce6mua7l")) + 3 + 8)
shortened_sample = length-truncate_address (codes "sultan1qpzry9x8gf2tvdw0s3jn54khce6mua7l") 7
