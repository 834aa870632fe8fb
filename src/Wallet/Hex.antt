-- ===== src/Wallet/Hex.antt =====
-- `bytesToHex` and `hexToBytes` of wallet-extension/src/core/wallet.ts.
pub mod RoundTrip
mod Tests
use xv.Prelude.{
  ◌+◌, ◌*◌, ◌%◌, ◌-◌, ◌==◌, ◌||◌, if◌then◌else◌, ◌/◌, ◌∷◌, [], some, none, suc, zero, ℕ, get_or,
  length, take, drop,
}
use xv.Prelude.Text.{Text, Bytes, is_space}
use xv.Wallet.Amount.{digit_of}

-- parseInt(s, 16) of at most two characters, stored into a byte: what is not a number becomes 0, and a
-- negative number wraps around.
abbrev first_digit : ℕ → ℕ
first_digit c = elim (digit_of c) [ none ↦ 0 | some d ↦ d ]

unfoldable pub parse_hex_byte : Text → ℕ
parse_hex_byte [] = 0
parse_hex_byte (a ∷ []) = first_digit a
parse_hex_byte (a ∷ b ∷ s) =
    if is_space a || (a == b'+')
    then first_digit b
    else if a == b'-'
    then (256 - first_digit b) % 256
    else elim (digit_of a) [
      | none ↦ 0
      | some d ↦ elim (digit_of b) [ none ↦ d | some e ↦ d * 16 + e ]
    ]

-- The loop over `bytes.length`, with the number of bytes left.
unfoldable pub hex_bytes_loop : ℕ → Text → Bytes
unfolding parse_hex_byte
hex_bytes_loop zero hex = []
hex_bytes_loop (suc left) hex = parse_hex_byte (take 2 hex) ∷ hex_bytes_loop left (drop 2 hex)

-- The length of an odd text is cut down to a whole number of bytes.
unfoldable pub hex_to_bytes : Text → Bytes
unfolding hex_bytes_loop
hex_to_bytes hex = hex_bytes_loop (length hex / 2) hex
