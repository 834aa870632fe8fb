-- ===== src/Totp/Base32.antt =====
-- `base32Encode` and `base32Decode` of wallet-extension/src/core/totp.ts. The accumulator is an
-- int32 in the source; here it is the bit pattern, below 2 to the 32.
pub mod Letters
pub mod RoundTrip
mod Tests
use xv.Prelude.{
  keep, get_or, ℕ, zero, suc, ◌+◌, ◌-◌, ◌*◌, ◌/◌, ◌%◌, ◌^◌, ◌≤◌, ◌<◌, ◌≡◌, refl, ap, ◌≢◌, ◌↔◌, ◌⊎◌,
  inl, inr, Bool, true, false, not, ◌&&◌, ◌||◌, Option, none, some, List, [], ◌∷◌, ◌++◌, map, arith,
  length, ltb, leb, ◌==◌, if◌then◌else◌,
}
use Prim.Native.Nat.{bit_and, bit_or}
use xv.Prelude.Text.{Text, Bytes, codes, index_of, is_space, to_upper}
use xv.Prelude.Result.{Result, ok, err, ◌>>=◌}

abbrev pub alphabet : Text
alphabet = codes "ABCDEFGHIJKLMNOPQRSTUVWXYZ234567"

-- value << k and value >>> k
abbrev pub shl : ℕ → ℕ → ℕ
shl value k = (value * 2 ^ k) % 2 ^ 32

abbrev pub shr : ℕ → ℕ → ℕ
shr value k = value / 2 ^ k

abbrev pub letter : ℕ → ℕ
letter i = get_or alphabet i 0

-- `while (bits >= 5)`: a byte adds 8 bits to at most 4, so that the loop makes at most two rounds;
-- the fuel of the first argument is the number of bits.
unfoldable pub emit : ℕ → ℕ → ℕ → Text × ℕ
emit zero bits value = ([], bits)
emit (suc fuel) bits value =
    let rest = emit fuel (bits - 5) value in
    if leb 5 bits
    then (letter (bit_and (shr value (bits - 5)) 0x1f) ∷ rest.0, rest.1)
    else ([], bits)

unfoldable pub encode_loop : ℕ → ℕ → Bytes → Text
unfolding emit
encode_loop bits value [] =
    if ltb 0 bits then letter (bit_and (shl value (5 - bits)) 0x1f) ∷ [] else []
encode_loop bits value (byte ∷ bs) =
    let value' = bit_or (shl value 8) byte in
    let (out, bits') = emit (bits + 8) (bits + 8) value' in out ++ encode_loop bits' value' bs

unfoldable pub base32_encode : Bytes → Text
unfolding encode_loop
base32_encode data_bytes = encode_loop 0 0 data_bytes

-- The character that is in no alphabet.
pub data DecodeError : Type 0 where
  invalid_character : ℕ → DecodeError

unfoldable pub decode_loop : ℕ → ℕ → Text → Result DecodeError Bytes
decode_loop bits value [] = ok []
decode_loop bits value (c ∷ s) =
    let skipped = decode_loop bits value s in
    if c == b'=' then skipped else elim (index_of c alphabet) [
      | none ↦ err (invalid_character c)
      | some index ↦
          let value' = bit_or (shl value 5) index in
          let short = decode_loop (bits + 5) value' s in
          let full = decode_loop (bits + 5 - 8) value' s >>= λ rest.
          ok (bit_and (shr value' (bits + 5 - 8)) 0xff ∷ rest) in
          if leb 8 (bits + 5) then full else short
    ]

unfoldable pub base32_decode : Text → Result DecodeError Bytes
unfolding decode_loop
base32_decode str = decode_loop 0 0 (map to_upper (keep (λ c. not (is_space c)) str))
