-- ===== src/Prelude/Hex/Injective.antt =====
-- Different bytes have different prints in hexadecimal.
use xv.Prelude.Tests.{◌==◌, ==_iff}
use xv.Prelude.Lists.{length, take, drop, get_or, All}
use xv.Prelude.Text.{Text, Bytes, pad_start}
use xv.Prelude.Tests.{ltb, if◌then◌else◌}
use xv.Prelude.Hex.{
  IsByte, all_below, of_all_below, to_hex, bytes_to_hex, length-byte_hex, length-bytes_to_hex,
}
use Prim.Native.Nat.{ℕ, ◌+◌, ◌-◌, ◌*◌, ◌<◌}
use mathlib.Core.Logic.{◌≢◌}
use mathlib.Core.Path.{◌≡◌, refl, sym, ◌∙◌, ap, ap₂}
use mathlib.Core.Bool.{true}
use mathlib.Core.List.{[], ◌∷◌, ◌++◌}
use native.Mathlib.Omega.{arith}

abbrev digit_value : ℕ → ℕ
digit_value c = if ltb c b'a' then c - b'0' else c - b'a' + 10

abbrev value_of : Text → ℕ
value_of s = digit_value (get_or s 0 0) * 16 + digit_value (get_or s 1 0)

abbrev byte_hex : ℕ → Text
byte_hex b = pad_start 2 b'0' (to_hex b)

value_table : all_below (λ b. value_of (byte_hex b) == b) 256 ≡ true
unfolding all_below to_hex
value_table = refl

value_of-byte_hex : (b : ℕ) → b < 256 → value_of (byte_hex b) ≡ b
value_of-byte_hex b h =
    (==_iff _ b).0 (of_all_below (λ c. value_of (byte_hex c) == c) 256 b value_table h)

pub take_two : (p r : Text) → length p ≡ 2 → take 2 (p ++ r) ≡ p
take_two (a ∷ b ∷ []) r h = refl
take_two [] r h = absurd (omega (arith, h))
take_two (a ∷ []) r h = absurd (omega (arith, h))
take_two (a ∷ b ∷ c ∷ p) r h = absurd (omega (arith, h))

pub drop_two : (p r : Text) → length p ≡ 2 → drop 2 (p ++ r) ≡ r
drop_two (a ∷ b ∷ []) r h = refl
drop_two [] r h = absurd (omega (arith, h))
drop_two (a ∷ []) r h = absurd (omega (arith, h))
drop_two (a ∷ b ∷ c ∷ p) r h = absurd (omega (arith, h))

zero_length : (t : Text) → t ≡ [] → length t ≡ 0
zero_length t e = ap length e

not_hex_empty : (x : ℕ) (a : Bytes) → IsByte x → All IsByte a → bytes_to_hex (x ∷ a) ≢ []
not_hex_empty x a hx ha e =
    omega (arith, zero_length (bytes_to_hex (x ∷ a)) e, length-bytes_to_hex (x ∷ a) (hx, ha))

pub bytes_to_hex_injective :
    (a b : Bytes) → All IsByte a → All IsByte b → bytes_to_hex a ≡ bytes_to_hex b → a ≡ b
unfolding bytes_to_hex
bytes_to_hex_injective [] [] ha hb e = refl
bytes_to_hex_injective [] (y ∷ b) ha (hy, hb) e = absurd (not_hex_empty y b hy hb (sym e))
bytes_to_hex_injective (x ∷ a) [] (hx, ha) hb e = absurd (not_hex_empty x a hx ha e)
bytes_to_hex_injective (x ∷ a) (y ∷ b) (hx, ha) (hy, hb) e =
    let p = length-byte_hex x hx in
    let q = length-byte_hex y hy in
    let heads =
      sym (take_two (byte_hex x) (bytes_to_hex a) p)
      ∙ ap (take 2) e
      ∙ take_two (byte_hex y) (bytes_to_hex b) q in
    let tails =
      sym (drop_two (byte_hex x) (bytes_to_hex a) p)
      ∙ ap (drop 2) e
      ∙ drop_two (byte_hex y) (bytes_to_hex b) q in
    ap₂ (λ (n : ℕ) (l : Bytes). n ∷ l)
      (sym (value_of-byte_hex x hx) ∙ ap value_of heads ∙ value_of-byte_hex y hy)
      (bytes_to_hex_injective a b ha hb tails)
