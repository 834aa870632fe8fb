-- ===== src/Prelude/Bits.antt =====
-- JavaScript's bitwise operators on non-negative numbers, at variables: one equation for the
-- lowest digit of each, and the laws that the byte code of the wallet relies on.
use Prim.Native.Nat.{
  ℕ, zero, suc, ◌+◌, ◌-◌, ◌*◌, ◌/◌, ◌%◌, ◌^◌, ◌≤◌, ◌<◌, min, max, differ, digits, bitwise,
  bit_and-bitwise, bit_or-bitwise, bit_xor-bitwise,
}
use Prim.Native.Nat.{bit_and as and, bit_or as or, bit_xor as xor}
use mathlib.Core.Path.{sym, ◌∙◌, ◌≡◌, refl, ap}
use mathlib.Core.Logic.{◌↔◌}
use native.Mathlib.Nat.{pow-suc, one-le-pow}
use native.Mathlib.Omega.{arith}
use native.Mathlib.Decide.{dec_le}

-- The native operations recur with the first number as the count of rounds. A number needs no more
-- rounds than it is itself, so that the count can be forgotten.
module _ (last : ℕ → ℕ) (op : ℕ → ℕ → ℕ) where
  rounds_of_zero : (n y : ℕ) → digits last op n zero y ≡ last y
  rounds_of_zero zero y = refl
  rounds_of_zero (suc n) y = refl

  one_round_more : (n x y : ℕ) → x ≤ n → digits last op (suc n) x y ≡ digits last op n x y
  one_round_more n zero y h = sym (rounds_of_zero n y)
  one_round_more zero (suc x) y h = absurd (omega arith)
  one_round_more (suc n) (suc x) y h =
      ap (λ (t : ℕ). t * 2 + op (suc x % 2) (y % 2))
        (one_round_more n (suc x / 2) (y / 2) (omega arith))

  enough_rounds : (n x y : ℕ) → x ≤ n → digits last op n x y ≡ bitwise last op x y
  enough_rounds zero zero y h = refl
  enough_rounds zero (suc x) y h = absurd (omega arith)
  enough_rounds (suc n) x y h = elim (dec_le x n) [
    | yes fits ↦ one_round_more n x y fits ∙ enough_rounds n x y fits
    | no tight ↦ ap (λ (t : ℕ). digits last op t x y) {x = suc n} {y = x} (omega arith)
  ]

  halving :
      (x y : ℕ)
      → bitwise last op (suc x) y ≡ bitwise last op (suc x / 2) (y / 2) * 2 + op (suc x % 2) (y % 2)
  halving x y =
      ap (λ (t : ℕ). t * 2 + op (suc x % 2) (y % 2))
        (enough_rounds x (suc x / 2) (y / 2) (omega arith))

-- The lowest digit of `x | y` and of `x & y`, and the rest.
pub bit_or_step : (x y : ℕ) → or x y ≡ max (x % 2) (y % 2) + 2 * or (x / 2) (y / 2)
bit_or_step zero y = omega (arith, bit_or-bitwise 0 y, bit_or-bitwise 0 (y / 2))
bit_or_step (suc x) y =
    omega (
      arith,
      halving (λ t. t) max x y,
      bit_or-bitwise (suc x) y,
      bit_or-bitwise (suc x / 2) (y / 2),
    )

pub bit_and_step : (x y : ℕ) → and x y ≡ min (x % 2) (y % 2) + 2 * and (x / 2) (y / 2)
bit_and_step zero y = omega (arith, bit_and-bitwise 0 y, bit_and-bitwise 0 (y / 2))
bit_and_step (suc x) y = omega (
  arith,
  halving (λ t. 0) min x y,
  bit_and-bitwise (suc x) y,
  bit_and-bitwise (suc x / 2) (y / 2),
)

differ_lem : (a b : ℕ) → differ a b ≡ max a b - min a b
differ_lem zero b = omega arith
differ_lem (suc a) zero = omega arith
differ_lem (suc a) (suc b) = omega (arith, differ_lem a b)

pub bit_xor_step : (a b : ℕ) → xor a b ≡ xor (a / 2) (b / 2) * 2 + (a % 2 + b % 2) % 2
bit_xor_step zero b = simp bit_xor-bitwise (omega arith)
bit_xor_step (suc a) b = omega (
  arith,
  differ_lem (suc a % 2) (b % 2),
  bit_xor-bitwise (suc a) b,
  bit_xor-bitwise (suc a / 2) (b / 2),
  halving (λ y. y) differ a b,
)

xor_half : (a b : ℕ) → xor a b / 2 ≡ xor (a / 2) (b / 2)
xor_half a b = omega (arith, bit_xor_step a b)

-- The laws below go from the halves to the whole, with fuel above both numbers.
xor_twice_fuel : (n a b : ℕ) → a ≤ n → b ≤ n → xor (xor a b) b ≡ a
xor_twice_fuel zero zero zero p q = refl
xor_twice_fuel zero (suc a) b p q = absurd (omega arith)
xor_twice_fuel zero zero (suc b) p q = absurd (omega arith)
xor_twice_fuel (suc n) a b p q = omega (
  arith,
  bit_xor_step a b,
  bit_xor_step (xor a b) b,
  xor_half a b,
  ap (λ (t : ℕ). xor t (b / 2)) (xor_half a b),
  xor_twice_fuel n (a / 2) (b / 2) (omega arith) (omega arith),
)

-- Masking twice with the same key gives the number back.
pub bit_xor_twice : (a b : ℕ) → xor (xor a b) b ≡ a
bit_xor_twice a b = xor_twice_fuel (a + b) a b (omega arith) (omega arith)

xor_self_fuel : (n a : ℕ) → a ≤ n → xor a a ≡ 0
xor_self_fuel n zero p = refl
xor_self_fuel zero (suc a) p = absurd (omega arith)
xor_self_fuel (suc n) (suc a) p =
    omega (arith, bit_xor_step (suc a) (suc a), xor_self_fuel n (suc a / 2) (omega arith))

xor_zero_fuel : (n a b : ℕ) → a ≤ n → b ≤ n → xor a b ≡ 0 → a ≡ b
xor_zero_fuel zero a b p q h = omega arith
xor_zero_fuel (suc n) a b p q h = omega (
  arith,
  bit_xor_step a b,
  xor_zero_fuel n (a / 2) (b / 2) (omega arith) (omega arith) (omega (arith, bit_xor_step a b)),
)

-- `a ^ b` is zero exactly when the two are the same.
pub bit_xor-eq-zero : (a b : ℕ) → (xor a b ≡ 0) ↔ (a ≡ b)
bit_xor-eq-zero a b = (
  xor_zero_fuel (a + b) a b (omega arith) (omega arith),
  λ e. rw e (xor_self_fuel b b (omega arith)),
)

or_zero_fuel : (n a b : ℕ) → a ≤ n → b ≤ n → or a b ≡ 0 → (a ≡ 0) × (b ≡ 0)
or_zero_fuel zero a b p q h = omega arith
or_zero_fuel (suc n) a b p q h =
    let ih =
      or_zero_fuel n (a / 2) (b / 2) (omega arith) (omega arith) (omega (arith, bit_or_step a b)) in
    omega (arith, bit_or_step a b, ih)

-- `a | b` is zero exactly when both are.
pub bit_or-eq-zero : (a b : ℕ) → (or a b ≡ 0) ↔ ((a ≡ 0) × (b ≡ 0))
bit_or-eq-zero a b = (or_zero_fuel (a + b) a b (omega arith) (omega arith), λ e. rw (e.0, e.1))

or_zero_right : (n a : ℕ) → a ≤ n → or a 0 ≡ a
or_zero_right n zero p = refl
or_zero_right zero (suc a) p = absurd (omega arith)
or_zero_right (suc n) (suc a) p =
    omega (arith, bit_or_step (suc a) 0, or_zero_right n (suc a / 2) (omega arith))

and_zero_right : (n a : ℕ) → a ≤ n → and a 0 ≡ 0
and_zero_right n zero p = refl
and_zero_right zero (suc a) p = absurd (omega arith)
and_zero_right (suc n) (suc a) p =
    omega (arith, bit_and_step (suc a) 0, and_zero_right n (suc a / 2) (omega arith))

twice_scaled : (q k : ℕ) → q * 2 ^ suc k ≡ 2 * (q * 2 ^ k)
twice_scaled q k = omega (arith, ap (λ (t : ℕ). q * t) (pow-suc 2 k))

-- `(q << k) | r` is a sum where `r` fits in `k` bits.
pub bit_or_fields : (k q r : ℕ) → r < 2 ^ k → or (q * 2 ^ k) r ≡ q * 2 ^ k + r
bit_or_fields zero q r h = ground (arith, or_zero_right q q)
bit_or_fields (suc k) q r h =
    ground (
      arith,
      pow-suc 2 k,
      twice_scaled q k,
      bit_or_step (q * 2 ^ suc k) r,
      bit_or_fields k q (r / 2),
    )

and_fields : (k high low : ℕ) → low < 2 ^ k → and (high * 2 ^ k + low) (2 ^ k - 1) ≡ low
and_fields zero high low h = ground (arith, and_zero_right (high * 1 + low) (high * 1 + low))
and_fields (suc k) high low h =
    let doubled = twice_scaled high k in
    let mask = pow-suc 2 k in
    let halves = and_fields k high (low / 2) (omega (arith, mask)) in
    ground (
      arith,
      halves,
      doubled,
      mask,
      one-le-pow k 2,
      bit_and_step (high * 2 ^ suc k + low) (2 ^ suc k - 1),
    )

-- `a & (2 ** k - 1)` is the remainder.
pub bit_and_mask : (k a : ℕ) → and a (2 ^ k - 1) ≡ a % 2 ^ k
bit_and_mask k a = ground (arith, one-le-pow k 2, and_fields k (a / 2 ^ k) (a % 2 ^ k))
