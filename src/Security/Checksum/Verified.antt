-- ===== src/Security/Checksum/Verified.antt =====
-- Which checksums verify.
use xv.Prelude.{ℕ, ◌≡◌, ◌↔◌, ap, true, some, take, All, zero, suc, [], ◌∷◌}
use xv.Prelude.Text.{Text, Bytes, text_eq_iff}
use xv.Prelude.Hex.{IsByte, bytes_to_hex}
use xv.Prelude.Hex.Injective.{bytes_to_hex_injective}
use xv.Platform.{encode_injective, TextCodec}
use xv.Security.ConstantTime.{constant_time_string_equal_lem}
use xv.Security.Checksum.{create_checksum, verify_checksum, hash_text}

take-IsByte : (n : ℕ) (bs : Bytes) → All IsByte bs → All IsByte (take n bs)
take-IsByte zero bs h = tt
take-IsByte (suc n) [] h = tt
take-IsByte (suc n) (b ∷ bs) (hb, hs) = (hb, take-IsByte n bs hs)

-- The checksum of one text verifies another exactly if the digests of the two begin with the same four
-- bytes, and verifying never fails. The digest is made of bytes, and the codec keeps hexadecimal text.
pub verify-create_checksum :
    (codec : TextCodec) (sha256 : Bytes → Bytes)
    → ((bs : Bytes) → All IsByte (sha256 bs))
    → ((bs : Bytes) → All IsByte bs → codec.well_formed (bytes_to_hex bs) ≡ true)
    → (s t : Text)
    → (verify_checksum codec sha256 s (create_checksum codec sha256 t) ≡ some true)
      ↔ (take 4 (sha256 (codec.encode s)) ≡ take 4 (sha256 (codec.encode t)))
unfolding verify_checksum create_checksum hash_text
verify-create_checksum codec sha256 of_bytes keeps_hex s t =
    let a = take 4 (sha256 (codec.encode s)) in
    let b = take 4 (sha256 (codec.encode t)) in
    let ha = take-IsByte 4 (sha256 (codec.encode s)) (of_bytes (codec.encode s)) in
    let hb = take-IsByte 4 (sha256 (codec.encode t)) (of_bytes (codec.encode t)) in
    rw (constant_time_string_equal_lem codec (bytes_to_hex a) (bytes_to_hex b)) (
      (λ h. bytes_to_hex_injective a b ha hb (
          encode_injective codec (bytes_to_hex a) (bytes_to_hex b) (keeps_hex a ha) (keeps_hex b hb)
            ((text_eq_iff _ _).0 (cc h)))),
      (λ e. ap some ((text_eq_iff _ _).1 (ap (λ x. codec.encode (bytes_to_hex x)) e))),
    )
