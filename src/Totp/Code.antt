-- ===== src/Totp/Code.antt =====
-- The one-time codes of wallet-extension/src/core/totp.ts: the counter as bytes, the truncation of
-- the digest, and the check of a code against the windows around the current time. HMAC-SHA1 is the
-- browser's, and a parameter.
pub mod Digits
pub mod Windows
mod Tests
use xv.Prelude.{
  get_or, ℕ, zero, suc, ◌+◌, ◌-◌, ◌*◌, ◌/◌, ◌%◌, ◌^◌, ◌≤◌, ◌<◌, ◌≡◌, refl, ap, ◌≢◌, ◌↔◌, ◌⊎◌, inl,
  inr, Bool, true, false, not, ◌&&◌, ◌||◌, Option, none, some, List, [], ◌∷◌, ◌++◌, map, arith,
  length, ltb, leb, ◌==◌, if◌then◌else◌,
}
use Prim.Native.Nat.{bit_and, bit_or}
use xv.Prelude.Text.{Text, Bytes, pad_start}
use xv.Prelude.Result.{Result, ok, err, ◌>>=◌}
use xv.Security.ConstantTime.{diff_bits}
use xv.Totp.Base32.{shl, base32_decode, DecodeError}
use xv.Prelude.Decimal.{to_string}
use xv.Prelude.Int.{negsuc, ℤ, pos}

-- The bit pattern of the int32 that a bitwise operator sees.
abbrev pub to_uint32 : ℤ → ℕ
to_uint32 (pos n) = n % 2 ^ 32
to_uint32 (negsuc n) = 2 ^ 32 - 1 - n % 2 ^ 32

-- Math.floor(num / 256)
abbrev pub floor_256 : ℤ → ℤ
floor_256 (pos n) = pos (n / 256)
floor_256 (negsuc n) = negsuc (n / 256)

-- The loop from the last index down; the bytes written so far are `out`.
unfoldable pub fill_bytes : ℕ → ℤ → Bytes → Bytes
fill_bytes zero num out = out
fill_bytes (suc k) num out = fill_bytes k (floor_256 num) (bit_and (to_uint32 num) 0xff ∷ out)

unfoldable pub number_to_bytes : ℤ → Bytes
unfolding fill_bytes
number_to_bytes num = fill_bytes 8 num []

-- A byte past the end reads as `undefined`, which the masks take for 0.
unfoldable pub truncated_binary : Bytes → ℕ
truncated_binary hmac =
    let offset = bit_and (get_or hmac (length hmac - 1) 0) 0x0f in
    bit_or
      (bit_or
        (bit_or (shl (bit_and (get_or hmac offset 0) 0x7f) 24)
          (shl (bit_and (get_or hmac (offset + 1) 0) 0xff) 16))
        (shl (bit_and (get_or hmac (offset + 2) 0) 0xff) 8))
      (bit_and (get_or hmac (offset + 3) 0) 0xff)

unfoldable pub dynamic_truncate : Bytes → ℕ → Text
unfolding truncated_binary to_string
dynamic_truncate hmac digits =
    let otp = truncated_binary hmac % 10 ^ digits in pad_start digits b'0' (to_string otp)

-- `constantTimeEqual` on texts
unfoldable pub text_constant_time_equal : Text → Text → Bool
unfolding diff_bits
text_constant_time_equal a b = if not (length a == length b) then false else diff_bits 0 a b == 0

-- The counter of the window `k` of `2 * window + 1`, which is now - window + k.
abbrev pub window_counter : ℕ → ℕ → ℕ → ℤ
window_counter now window k =
    if leb window (now + k) then pos (now + k - window) else negsuc (window - (now + k) - 1)

module _ (hmac_sha1 : Bytes → Bytes → Bytes) where
  unfoldable pub generate_hotp : Bytes → ℤ → ℕ → Text
  unfolding number_to_bytes dynamic_truncate
  generate_hotp secret counter digits =
      dynamic_truncate (hmac_sha1 secret (number_to_bytes counter)) digits

  -- The secret is base32 text, as everywhere in the wallet.
  unfoldable pub generate_totp : Text → ℕ → ℕ → ℕ → Result DecodeError Text
  unfolding base32_decode
  generate_totp secret now_ms time_step digits = base32_decode secret >>= λ secret_bytes.
      ok (generate_hotp secret_bytes (pos (now_ms / 1000 / time_step)) digits)

  -- The loop over the windows, from the window `k` on, with the number of rounds left.
  unfoldable pub try_windows : Bytes → Text → ℕ → ℕ → ℕ → ℕ → ℕ → Bool
  try_windows secret code now digits window zero k = false
  try_windows secret code now digits window (suc rounds) k =
      let later = try_windows secret code now digits window rounds (k + 1) in
      if text_constant_time_equal code (generate_hotp secret (window_counter now window k) digits)
      then true
      else later

  unfoldable pub verify_totp : Text → Text → ℕ → ℕ → ℕ → ℕ → Result DecodeError Bool
  verify_totp secret code now_ms time_step digits window = base32_decode secret >>= λ secret_bytes.
      ok
        (try_windows secret_bytes code (now_ms / 1000 / time_step) digits window (2 * window + 1) 0)
