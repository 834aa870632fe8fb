-- ===== src/Totp/Base32/Tests.antt =====
-- The encoding of the test vector of RFC 4648, and refusals.
use xv.Prelude.{◌≡◌, refl, [], ◌∷◌, arith}
use xv.Totp.Base32.{invalid_character, base32_encode, base32_decode}
use xv.Prelude.Text.{codes}
use xv.Prelude.Result.{err, ok}
use xv.Totp.Base32.RoundTrip.{base32_decode-base32_encode}

hello : base32_encode (codes "foobar") ≡ codes "MZXW6YTBOI"
unfolding base32_encode
hello = refl

back : base32_decode (codes "mzxw 6ytb OI==") ≡ ok (codes "foobar")
unfolding base32_decode
back = refl

refused : base32_decode (codes "AB1") ≡ err (invalid_character b'1')
unfolding base32_decode
refused = refl

base32_decode-base32_encode_example :
    base32_decode (base32_encode (255 ∷ 0 ∷ 128 ∷ 7 ∷ [])) ≡ ok (255 ∷ 0 ∷ 128 ∷ 7 ∷ [])
base32_decode-base32_encode_example =
    base32_decode-base32_encode (255 ∷ 0 ∷ 128 ∷ 7 ∷ []) (omega arith)
