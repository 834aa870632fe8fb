-- ===== src/Totp/Code/Tests.antt =====
-- The digest of the example in RFC 4226, and a stand-in for HMAC that copies the counter.
use xv.Prelude.{
  all, ℕ, ◌-◌, ◌*◌, ◌/◌, ◌%◌, ◌^◌, ◌≤◌, ◌≡◌, refl, ◌↔◌, Bool, true, [], ◌∷◌, ◌++◌, arith, length,
}
use xv.Prelude.Text.{is_digit, Bytes, codes}
use xv.Prelude.Result.{ok}
use xv.Totp.Code.{
  window_counter, generate_hotp, generate_totp, dynamic_truncate, number_to_bytes, verify_totp,
}
use xv.Prelude.Int.{negsuc, pos}
use xv.Totp.Base32.{base32_decode}
use xv.Totp.Code.Windows.{verify_totp_iff, verify-generate_totp}
use xv.Totp.Code.Digits.{dynamic_truncate_exact, rfc_binary, number_to_bytes_exact, big_endian}
use xv.Prelude.Decimal.{value_from}

abbrev rfc_digest : Bytes
rfc_digest =
    0x1f ∷ 0x86 ∷ 0x98 ∷ 0x69 ∷ 0x0e ∷ 0x02 ∷ 0xca ∷ 0x16 ∷ 0x61 ∷ 0x85 ∷ 0x50 ∷ 0xef ∷ 0x7f ∷ 0x19
    ∷ 0xda ∷ 0x8e ∷ 0x94 ∷ 0x5b ∷ 0x55 ∷ 0x5a ∷ []

rfc_code : dynamic_truncate rfc_digest 6 ≡ codes "872921"
unfolding dynamic_truncate
rfc_code = refl

minus_one : number_to_bytes (negsuc 0) ≡ 255 ∷ 255 ∷ 255 ∷ 255 ∷ 255 ∷ 255 ∷ 255 ∷ 255 ∷ []
unfolding number_to_bytes
minus_one = refl

abbrev copying : Bytes → Bytes → Bytes
copying key message = message ++ message ++ key

small_counter_fits :
    (length (number_to_bytes (pos 57000000)) ≡ 8)
    × (big_endian 0 (number_to_bytes (pos 57000000)) ≡ 57000000)
    × (length (number_to_bytes (negsuc 57000000)) ≡ 8)
    × (big_endian 0 (number_to_bytes (negsuc 57000000)) ≡ 2 ^ 64 - 1 - 57000000)
small_counter_fits = number_to_bytes_exact 57000000 (omega arith)

dynamic_truncate_exact_example :
    (length (dynamic_truncate rfc_digest 6) ≡ 6)
    × (all is_digit (dynamic_truncate rfc_digest 6) ≡ true)
    × (value_from 0 (dynamic_truncate rfc_digest 6) ≡ rfc_binary rfc_digest % 10 ^ 6)
dynamic_truncate_exact_example = dynamic_truncate_exact rfc_digest 5 (omega arith)

secret_decodes : base32_decode (codes "MZXW6") ≡ ok (codes "foo")
unfolding base32_decode
secret_decodes = refl

verify_totp_iff_example :
    (answer : Bool) × (verify_totp copying (codes "MZXW6") (codes "000000") 1000000 30 6 1
      ≡ ok answer)
    × ((answer ≡ true) ↔ (
        (j : ℕ) × (j ≤ 2 * 1)
        × (codes "000000"
            ≡ generate_hotp copying (codes "foo") (window_counter (1000000 / 1000 / 30) 1 j) 6)))
verify_totp_iff_example =
    verify_totp_iff copying (codes "MZXW6") (codes "000000") 1000000 30 6 1 (codes "foo")
      secret_decodes

generated : generate_totp copying (codes "MZXW6") 1000000 30 6 ≡ ok (codes "361327")
unfolding generate_totp generate_hotp
generated = refl

code_passes_later : verify_totp copying (codes "MZXW6") (codes "361327") 1049000 30 6 1 ≡ ok true
code_passes_later =
    verify-generate_totp copying (codes "MZXW6") (codes "361327") 1000000 1049000 30 6 1 generated
      (omega arith) (omega arith)
