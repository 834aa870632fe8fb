-- ===== src/Prelude/Hex.antt =====
-- `b.toString(16).padStart(2, '0')` for each byte, joined, and the check of a fact about bytes by
-- evaluation.
pub mod Injective
use xv.Prelude.Tests.{ltb, ◌==◌, if◌then◌else◌}
use xv.Prelude.Lists.{length, All, length-append}
use xv.Prelude.Text.{Text, Bytes, pad_start}
use Prim.Native.Nat.{ℕ, zero, suc, ◌+◌, ◌-◌, ◌*◌, ◌/◌, ◌%◌, ◌<◌}
use mathlib.Core.Path.{◌≡◌, refl}
use mathlib.Core.Bool.{Bool, true, ◌&&◌}
use mathlib.Core.List.{[], ◌∷◌, ◌++◌}
use native.Mathlib.Omega.{arith}

-- `test` at every number below `n`.
unfoldable pub all_below : (ℕ → Bool) → ℕ → Bool
all_below test zero = true
all_below test (suc n) = test n && all_below test n

pub of_all_below : (test : ℕ → Bool) (n x : ℕ) → all_below test n ≡ true → x < n → test x ≡ true
unfolding all_below
of_all_below test zero x h lt = absurd (omega arith)
of_all_below test (suc n) x h lt = ground (arith, of_all_below test n x)

abbrev hex_digit : ℕ → ℕ
hex_digit d = if ltb d 10 then b'0' + d else b'a' + (d - 10)

hex_loop : ℕ → ℕ → Text → Text
hex_loop zero n out = out
hex_loop (suc f) n out =
    let rest = hex_loop f (n / 16) (hex_digit (n % 16) ∷ out) in if n == 0 then out else rest

-- n.toString(16)
unfoldable pub to_hex : ℕ → Text
unfolding hex_loop
to_hex n = if n == 0 then b'0' ∷ [] else hex_loop n n []

unfoldable pub bytes_to_hex : Bytes → Text
unfolding to_hex
bytes_to_hex [] = []
bytes_to_hex (b ∷ bs) = pad_start 2 b'0' (to_hex b) ++ bytes_to_hex bs

abbrev two_long : ℕ → Bool
two_long b = length (pad_start 2 b'0' (to_hex b)) == 2

two_long_table : all_below two_long 256 ≡ true
unfolding all_below to_hex
two_long_table = refl

abbrev pub IsByte : ℕ → Type 0
IsByte b = b < 256

pub length-byte_hex : (b : ℕ) → b < 256 → length (pad_start 2 b'0' (to_hex b)) ≡ 2
length-byte_hex b h = ground (arith, of_all_below two_long 256 b two_long_table h)

-- Two characters for each byte.
pub length-bytes_to_hex : (bs : Bytes) → All IsByte bs → length (bytes_to_hex bs) ≡ 2 * length bs
unfolding bytes_to_hex
length-bytes_to_hex [] h = refl
length-bytes_to_hex (b ∷ bs) (hb, hs) = omega (
  arith,
  length-append {0} (pad_start 2 b'0' (to_hex b)) (bytes_to_hex bs),
  length-byte_hex b hb,
  length-bytes_to_hex bs hs,
)
