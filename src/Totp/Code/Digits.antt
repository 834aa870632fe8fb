-- ===== src/Totp/Code/Digits.antt =====
-- The counter's bytes and the digits of a code, against RFC 4226.
use xv.Prelude.{
  all, sym, get_or, All, ◌∙◌, ℕ, zero, suc, ◌+◌, ◌-◌, ◌*◌, ◌/◌, ◌%◌, ◌^◌, ◌<◌, ◌≡◌, ap, true, [],
  ◌∷◌, arith, length,
}
use Prim.Native.Nat.{bit_and, bit_or}
use native.Mathlib.Nat.{pow-suc, mod-lt, one-le-pow}
use xv.Prelude.Bits.{bit_and_mask, bit_or_fields}
use xv.Prelude.Text.{Bytes, length-pad_start, is_digit}
use xv.Totp.Code.{
  truncated_binary, dynamic_truncate, to_uint32, floor_256, number_to_bytes, fill_bytes,
}
use xv.Prelude.Int.{negsuc, ℤ, pos}
use xv.Totp.Base32.{shl}
use xv.Prelude.Hex.{IsByte}
use xv.Prelude.Decimal.{
  value_from-to_string, value_from-pad_start, all_digits-to_string, all_digits-pad_start,
  length-to_string, to_string, value_from,
}

-- The number that bytes stand for, the first the highest, behind the number `v`.
abbrev pub big_endian : ℕ → Bytes → ℕ
big_endian v [] = v
big_endian v (b ∷ bs) = big_endian (v * 256 + b) bs

low8 : (x : ℕ) → bit_and x 0xff ≡ x % 256
low8 = bit_and_mask 8

fill_bytes_pos :
    (k n : ℕ) (out : Bytes)
    → n < 256 ^ k
    → big_endian 0 (fill_bytes k (pos n) out) ≡ big_endian n out
unfolding fill_bytes
fill_bytes_pos zero n out h = ap (λ (t : ℕ). big_endian t out) (omega arith)
fill_bytes_pos (suc k) n out h =
    fill_bytes_pos k (n / 256) (bit_and (to_uint32 (pos n)) 0xff ∷ out)
      (omega (arith, pow-suc 256 k))
    ∙ ap (λ (t : ℕ). big_endian t out) (omega (arith, low8 (to_uint32 (pos n))))

fill_bytes_negsuc :
    (k n : ℕ) (out : Bytes)
    → n < 256 ^ k
    → big_endian 0 (fill_bytes k (negsuc n) out) ≡ big_endian (256 ^ k - 1 - n) out
unfolding fill_bytes
fill_bytes_negsuc zero n out h = ap (λ (t : ℕ). big_endian t out) (omega arith)
fill_bytes_negsuc (suc k) n out h =
    fill_bytes_negsuc k (n / 256) (bit_and (to_uint32 (negsuc n)) 0xff ∷ out)
      (omega (arith, pow-suc 256 k))
    ∙ ap (λ (t : ℕ). big_endian t out) (omega (arith, low8 (to_uint32 (negsuc n)), pow-suc 256 k))

length-fill_bytes : (k : ℕ) (num : ℤ) (out : Bytes) → length (fill_bytes k num out) ≡ k + length out
unfolding fill_bytes
length-fill_bytes zero num out = omega arith
length-fill_bytes (suc k) num out =
    omega (arith, length-fill_bytes k (floor_256 num) (bit_and (to_uint32 num) 0xff ∷ out))

-- A counter below 2 to the 64 is written as 8 bytes that stand for it, the highest first; a counter
-- below zero as its two's complement.
pub number_to_bytes_exact :
    (n : ℕ)
    → n < 2 ^ 64
    → (length (number_to_bytes (pos n)) ≡ 8)
      × (big_endian 0 (number_to_bytes (pos n)) ≡ n)
      × (length (number_to_bytes (negsuc n)) ≡ 8)
      × (big_endian 0 (number_to_bytes (negsuc n)) ≡ 2 ^ 64 - 1 - n)
unfolding number_to_bytes
number_to_bytes_exact n h = (
  length-fill_bytes 8 (pos n) [],
  fill_bytes_pos 8 n [] h,
  length-fill_bytes 8 (negsuc n) [],
  fill_bytes_negsuc 8 n [] h,
)

or_sum : (k q x y : ℕ) → x ≡ q * 2 ^ k → y < 2 ^ k → bit_or x y ≡ x + y
or_sum k q x y e h =
    ap (λ (t : ℕ). bit_or t y) e ∙ bit_or_fields k q y h ∙ ap (λ (t : ℕ). t + y) (sym e)

-- Four bytes put together by shifts, as one sum.
pack :
    (a b c d : ℕ)
    → a < 128
    → b < 256
    → c < 256
    → d < 256
    → bit_or (bit_or (bit_or (shl a 24) (shl b 16)) (shl c 8)) d
      ≡ a * 2 ^ 24 + b * 2 ^ 16 + c * 2 ^ 8 + d
pack a b c d ha hb hc hd =
    let x = shl a 24 in
    let y = shl b 16 in
    let z = shl c 8 in
    let two = or_sum 24 a x y (omega arith) (omega arith) in
    let three = or_sum 16 (a * 256 + b) (bit_or x y) z (omega (arith, two)) (omega arith) in
    let four =
      or_sum 8 ((a * 256 + b) * 256 + c) (bit_or (bit_or x y) z) d (omega (arith, two, three))
        (omega arith) in
    omega (arith, two, three, four)

get_or-lt : (bs : Bytes) (i : ℕ) → All IsByte bs → get_or bs i 0 < 256
get_or-lt [] i h = omega arith
get_or-lt (b ∷ bs) zero (hb, hs) = hb
get_or-lt (b ∷ bs) (suc i) (hb, hs) = get_or-lt bs i hs

low7 : (x : ℕ) → bit_and x 0x7f ≡ x % 128
low7 = bit_and_mask 7

low4 : (x : ℕ) → bit_and x 0x0f ≡ x % 16
low4 = bit_and_mask 4

-- The offset that the last byte names, and the four bytes from there without the top bit, in the
-- arithmetic of RFC 4226.
abbrev pub rfc_offset : Bytes → ℕ
rfc_offset hmac = get_or hmac (length hmac - 1) 0 % 16

abbrev pub rfc_binary : Bytes → ℕ
rfc_binary hmac =
    let at = rfc_offset hmac in
    get_or hmac at 0 % 128 * 2 ^ 24
    + get_or hmac (at + 1) 0 * 2 ^ 16
    + get_or hmac (at + 2) 0 * 2 ^ 8
    + get_or hmac (at + 3) 0

binary_at :
    (hmac : Bytes) (o : ℕ)
    → All IsByte hmac
    → bit_or
        (bit_or
          (bit_or
            (shl (bit_and (get_or hmac o 0) 0x7f) 24)
            (shl (bit_and (get_or hmac (o + 1) 0) 0xff) 16))
          (shl (bit_and (get_or hmac (o + 2) 0) 0xff) 8))
        (bit_and (get_or hmac (o + 3) 0) 0xff)
      ≡ get_or hmac o 0 % 128 * 2 ^ 24
        + get_or hmac (o + 1) 0 * 2 ^ 16
        + get_or hmac (o + 2) 0 * 2 ^ 8
        + get_or hmac (o + 3) 0
binary_at hmac o h =
    let a = bit_and (get_or hmac o 0) 0x7f in
    let b = bit_and (get_or hmac (o + 1) 0) 0xff in
    let c = bit_and (get_or hmac (o + 2) 0) 0xff in
    let d = bit_and (get_or hmac (o + 3) 0) 0xff in
    let ea = low7 (get_or hmac o 0) in
    let eb = low8 (get_or hmac (o + 1) 0) in
    let ec = low8 (get_or hmac (o + 2) 0) in
    let ed = low8 (get_or hmac (o + 3) 0) in
    let sum =
      pack a b c d (omega (arith, ea)) (omega (arith, eb)) (omega (arith, ec))
        (omega (arith, ed)) in
    omega (
      arith,
      sum,
      ea,
      eb,
      ec,
      ed,
      get_or-lt hmac (o + 1) h,
      get_or-lt hmac (o + 2) h,
      get_or-lt hmac (o + 3) h,
    )

truncated_binary_lem : (hmac : Bytes) → All IsByte hmac → truncated_binary hmac ≡ rfc_binary hmac
unfolding truncated_binary
truncated_binary_lem hmac h =
    rw (low4 (get_or hmac (length hmac - 1) 0)) (binary_at hmac (rfc_offset hmac) h)

pow_positive : (k : ℕ) → 0 < 10 ^ k
pow_positive k = omega (arith, one-le-pow k 10)

-- The code of a digest of bytes has the wanted number of digits, at least one, is made of digits,
-- and spells the number of RFC 4226 reduced to so many digits.
pub dynamic_truncate_exact :
    (hmac : Bytes) (k : ℕ)
    → All IsByte hmac
    → (length (dynamic_truncate hmac (suc k)) ≡ suc k)
      × (all is_digit (dynamic_truncate hmac (suc k)) ≡ true)
      × (value_from 0 (dynamic_truncate hmac (suc k)) ≡ rfc_binary hmac % 10 ^ suc k)
unfolding dynamic_truncate
dynamic_truncate_exact hmac k h =
    let otp = truncated_binary hmac % 10 ^ suc k in
    let e = truncated_binary_lem hmac h in
    (
      length-pad_start (suc k) b'0' (to_string otp)
          (length-to_string otp k (mod-lt _ (pow_positive (suc k)))),
      all_digits-pad_start (suc k) (to_string otp) (all_digits-to_string otp),
      value_from-pad_start (suc k) (to_string otp)
          ∙ value_from-to_string otp
          ∙ ap (λ (t : ℕ). t % 10 ^ suc k) e,
    )
