-- ===== src/Wallet/Hex/RoundTrip.antt =====
-- Bytes read back from their print.
use xv.Prelude.{arith, ◌∙◌, ==_iff, ap, ap₂, refl, ◌≡◌, ◌==◌, ◌∷◌, [], true, ℕ, length, All}
use xv.Prelude.Text.{Bytes, pad_start}
use xv.Prelude.Hex.{
  IsByte, all_below, of_all_below, to_hex, bytes_to_hex, length-byte_hex, length-bytes_to_hex,
}
use xv.Prelude.Hex.Injective.{take_two, drop_two}
use xv.Wallet.Hex.{parse_hex_byte, hex_bytes_loop, hex_to_bytes}

byte_table : all_below (λ b. parse_hex_byte (pad_start 2 b'0' (to_hex b)) == b) 256 ≡ true
unfolding all_below to_hex parse_hex_byte
byte_table = refl

parse_hex_byte-print : (b : ℕ) → IsByte b → parse_hex_byte (pad_start 2 b'0' (to_hex b)) ≡ b
parse_hex_byte-print b h =
    (==_iff _ b).0
      (of_all_below (λ c. parse_hex_byte (pad_start 2 b'0' (to_hex c)) == c) 256 b byte_table h)

loop_lem : (bs : Bytes) → All IsByte bs → hex_bytes_loop (length bs) (bytes_to_hex bs) ≡ bs
unfolding hex_bytes_loop bytes_to_hex
loop_lem [] h = refl
loop_lem (b ∷ bs) (hb, hs) =
    let p = pad_start 2 b'0' (to_hex b) in
    let l = length-byte_hex b hb in
    ap₂ (λ (x : ℕ) (t : Bytes). x ∷ t)
      (ap parse_hex_byte (take_two p (bytes_to_hex bs) l) ∙ parse_hex_byte-print b hb)
      (ap (hex_bytes_loop (length bs)) (drop_two p (bytes_to_hex bs) l) ∙ loop_lem bs hs)

-- Bytes written in hexadecimal are read back as they were.
pub hex_to_bytes-bytes_to_hex : (bs : Bytes) → All IsByte bs → hex_to_bytes (bytes_to_hex bs) ≡ bs
unfolding hex_to_bytes
hex_to_bytes-bytes_to_hex bs h =
    ap (λ (n : ℕ). hex_bytes_loop n (bytes_to_hex bs)) (omega (arith, length-bytes_to_hex bs h))
    ∙ loop_lem bs h
