-- ===== src/Wallet/Keys.antt =====
-- `hmacSha512` and `deriveEd25519Key` of wallet-extension/src/core/wallet.ts. SHA-512 is a package's
-- function, and a parameter; `none` is the RangeError of an array that does not fit.
pub mod Hmac
pub mod Path
mod Tests
use Prim.Native.Nat.{bit_xor}
use xv.Prelude.{
  ◌%◌, ◌-◌, ◌==◌, ◌+◌, ltb, ◌^◌, map, Option, Bool, ◌++◌, ◌/◌, if◌then◌else◌, ◌*◌, List, ◌∷◌, [],
  some, none, false, ℕ, length, take, drop, replicate,
}
use xv.Prelude.Text.{Text, Bytes, codes, is_digit, strip_prefix}
use xv.Prelude.Decimal.{to_string, value_from}
use xv.Prelude.Optional.{◌>>=◌}
use xv.Security.Wipe.{set_bytes}

abbrev pub block_size : ℕ
block_size = 128

-- The loop `pad[i] = paddedKey[i] ^ value`
abbrev pub xor_pad : ℕ → Bytes → Bytes
xor_pad value = map (λ b. bit_xor b value)

-- An array of the two lengths, set to the one array and behind it to the other.
unfoldable pub join_arrays : Bytes → Bytes → Option Bytes
unfolding set_bytes
join_arrays first second = do
  whole ← set_bytes (replicate (length first + length second) 0) 0 first
  set_bytes whole (length first) second

-- setUint32(0, index, false) of a buffer of four bytes
abbrev pub uint32_bytes : ℕ → Bytes
uint32_bytes n = (n / 2 ^ 24 % 256) ∷ (n / 2 ^ 16 % 256) ∷ (n / 2 ^ 8 % 256) ∷ (n % 256) ∷ []

-- path.split('/')
abbrev pub split_slash : Text → List Text
split_slash [] = [] ∷ []
split_slash (c ∷ s) =
    let rest = split_slash s in
    if c == b'/'
    then [] ∷ rest
    else elim rest [ [] ↦ (c ∷ []) ∷ [] | segment ∷ more ↦ (c ∷ segment) ∷ more ]

-- segment.endsWith("'")
abbrev pub ends_with_quote : Text → Bool
ends_with_quote [] = false
ends_with_quote (c ∷ s) = elim s [ [] ↦ c == 39 | d ∷ t ↦ ends_with_quote s ]

-- segment.replace("'", ''): the first one only
abbrev pub without_quote : Text → Text
without_quote [] = []
without_quote (c ∷ s) = let rest = without_quote s in if c == 39 then s else c ∷ rest

-- parseInt of a segment, which is digits in every path that the wallet builds: the number that the
-- digits at its front spell.
abbrev pub parse_digits : ℕ → Text → ℕ
parse_digits v [] = v
parse_digits v (c ∷ s) =
    let rest = parse_digits (v * 10 + (c - b'0')) s in if is_digit c then rest else v

-- A segment's index; the hardened ones are above 2 to the 31.
unfoldable pub segment_index : Text → ℕ
segment_index segment =
    let index = parse_digits 0 (without_quote segment) in
    if ends_with_quote segment then index + 0x80000000 else index

-- The private key and the chain code are the two halves of a digest.
abbrev pub halves : Bytes → Bytes × Bytes
halves key = (take 32 key, drop 32 key)

module _ (sha512 : Bytes → Bytes) where
  unfoldable pub hmac_sha512 : Bytes → Bytes → Option Bytes
  hmac_sha512 key bytes = do
    let short_key = if ltb block_size (length key) then sha512 key else key
    padded_key ← set_bytes (replicate block_size 0) 0 short_key
    let ipad = xor_pad 0x36 padded_key
    let opad = xor_pad 0x5c padded_key
    inner ← join_arrays ipad bytes
    outer ← join_arrays opad (sha512 inner)
    some (sha512 outer)

  -- One round of the loop over the segments.
  unfoldable pub derive_segment : ℕ → Bytes × Bytes → Option (Bytes × Bytes)
  derive_segment index (private_key, chain_code) = do
    with_key ← set_bytes (replicate 37 0) 1 private_key
    input ← set_bytes with_key 33 (uint32_bytes index)
    key ← hmac_sha512 chain_code input
    some (halves key)

  unfoldable pub derive_segments : List Text → Bytes × Bytes → Option (Bytes × Bytes)
  derive_segments [] keys = some keys
  derive_segments (segment ∷ segments) keys =
      derive_segment (segment_index segment) keys >>= derive_segments segments

  unfoldable pub derive_ed25519_key : Bytes → Text → Option Bytes
  derive_ed25519_key seed path = do
    key ← hmac_sha512 (codes "ed25519 seed") seed
    keys ← derive_segments (drop 1 (split_slash path)) (halves key)
    some keys.0

-- `m/44'/${SULTAN_COIN_TYPE}'/0'/0'/${index}`
unfoldable pub account_path : ℕ → Text
account_path index = codes "m/44'/1984'/0'/0'/" ++ to_string index
