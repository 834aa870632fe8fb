-- ===== src/Prelude/Decimal.antt =====
-- `toString(radix)` of a non-negative integer, and the number that a run of digits spells.
use Prim.Native.Nat.{ℕ, zero, suc, ◌+◌, ◌-◌, ◌*◌, ◌/◌, ◌%◌, ◌^◌, ◌≤◌, ◌<◌}
use mathlib.Core.Path.{◌≡◌, refl, ap}
use mathlib.Core.Bool.{true}
use mathlib.Core.Logic.{◌≢◌}
use mathlib.Core.List.{[], ◌∷◌, ◌++◌}
use native.Mathlib.Nat.{pow-suc}
use native.Mathlib.Omega.{arith}
use xv.Prelude.Tests.{◌==◌, if◌then◌else◌}
use xv.Prelude.Lists.{length, replicate, all}
use xv.Prelude.Text.{Text, is_digit, pad_start}

-- The digits of `n` in front of `out`, the last one first. The number of rounds is bounded by `n`
-- itself, since each round divides it.
spell_loop : ℕ → ℕ → Text → Text
spell_loop zero n out = out
spell_loop (suc f) n out =
    let rest = spell_loop f (n / 10) ((b'0' + n % 10) ∷ out) in if n == 0 then out else rest

-- n.toString()
unfoldable pub to_string : ℕ → Text
unfolding spell_loop
to_string n = if n == 0 then b'0' ∷ [] else spell_loop n n []

-- The number that the digits of `s` spell behind the number `v`.
abbrev pub value_from : ℕ → Text → ℕ
value_from v [] = v
value_from v (c ∷ s) = value_from (v * 10 + (c - b'0')) s

pub value_from-append : (v : ℕ) (s t : Text) → value_from v (s ++ t) ≡ value_from (value_from v s) t
value_from-append v [] t = refl
value_from-append v (c ∷ s) t = value_from-append (v * 10 + (c - b'0')) s t

value_from-spell_loop :
    (f n : ℕ) (out : Text) → n ≤ f → value_from 0 (spell_loop f n out) ≡ value_from n out
unfolding spell_loop
value_from-spell_loop zero zero out h = refl
value_from-spell_loop zero (suc n) out h = absurd (omega arith)
value_from-spell_loop (suc f) n out h =
    ground (arith, last_digit, value_from-spell_loop f (n / 10) ((b'0' + n % 10) ∷ out))
  where
    last_digit : value_from (n / 10) ((b'0' + n % 10) ∷ out) ≡ value_from n out
    last_digit = ap (λ (t : ℕ). value_from t out) (omega arith)

-- The print of a number spells the number.
pub value_from-to_string : (n : ℕ) → value_from 0 (to_string n) ≡ n
unfolding to_string
value_from-to_string n = ground (arith, value_from-spell_loop n n [])

all_digits_spell_loop :
    (f n : ℕ) (out : Text) → all is_digit out ≡ true → all is_digit (spell_loop f n out) ≡ true
unfolding spell_loop
all_digits_spell_loop zero n out h = h
all_digits_spell_loop (suc f) n out h =
    ground (arith, all_digits_spell_loop f (n / 10) ((b'0' + n % 10) ∷ out))

-- The print of a number is made of digits only.
pub all_digits-to_string : (n : ℕ) → all is_digit (to_string n) ≡ true
unfolding to_string
all_digits-to_string n = ground (arith, all_digits_spell_loop n n [])

length-spell_loop :
    (f n k : ℕ) (out : Text) → n < 10 ^ k → length (spell_loop f n out) ≤ k + length out
unfolding spell_loop
length-spell_loop zero n k out h = omega arith
length-spell_loop (suc f) n zero out h = ground arith
length-spell_loop (suc f) n (suc k) out h =
    ground (arith, pow-suc 10 k, length-spell_loop f (n / 10) k ((b'0' + n % 10) ∷ out))

-- A number below 10 to the k prints in at most k digits.
pub length-to_string : (n k : ℕ) → n < 10 ^ suc k → length (to_string n) ≤ suc k
unfolding to_string
length-to_string n k h = ground (arith, length-spell_loop n n (suc k) [])

spell_loop-ne-nil : (f n : ℕ) (out : Text) → out ≢ [] → spell_loop f n out ≢ []
unfolding spell_loop
spell_loop-ne-nil zero n out h = h
spell_loop-ne-nil (suc f) n out h =
    ground (arith, spell_loop-ne-nil f (n / 10) ((b'0' + n % 10) ∷ out))

pub to_string-ne-nil : (n : ℕ) → to_string n ≢ []
unfolding to_string spell_loop
to_string-ne-nil zero = ground arith
to_string-ne-nil (suc n) =
    ground (arith, spell_loop-ne-nil n (suc n / 10) ((b'0' + suc n % 10) ∷ []))

value_from-zeros : (k : ℕ) (s : Text) → value_from 0 (replicate k b'0' ++ s) ≡ value_from 0 s
value_from-zeros zero s = refl
value_from-zeros (suc k) s = value_from-zeros k s

-- Zeros in front change nothing.
pub value_from-pad_start : (k : ℕ) (s : Text) → value_from 0 (pad_start k b'0' s) ≡ value_from 0 s
value_from-pad_start k s = value_from-zeros (k - length s) s

all_digits_zeros :
    (k : ℕ) (s : Text) → all is_digit s ≡ true → all is_digit (replicate k b'0' ++ s) ≡ true
all_digits_zeros zero s h = h
all_digits_zeros (suc k) s h = all_digits_zeros k s h

pub all_digits-pad_start :
    (k : ℕ) (s : Text) → all is_digit s ≡ true → all is_digit (pad_start k b'0' s) ≡ true
all_digits-pad_start k s h = all_digits_zeros (k - length s) s h

-- The digits in front of a text, and what stands behind them.
abbrev pub leading_digits : Text → Text
leading_digits [] = []
leading_digits (c ∷ s) = let rest = leading_digits s in if is_digit c then c ∷ rest else []

abbrev pub after_digits : Text → Text
after_digits [] = []
after_digits (c ∷ s) = let rest = after_digits s in if is_digit c then rest else c ∷ s

pub leading_after : (s : Text) → s ≡ leading_digits s ++ after_digits s
leading_after [] = refl
leading_after (c ∷ s) = ground (arith, leading_after s)

pub all_digits-leading_digits : (s : Text) → all is_digit (leading_digits s) ≡ true
all_digits-leading_digits [] = refl
all_digits-leading_digits (c ∷ s) = ground (arith, all_digits-leading_digits s)

pub leading_digits-append :
    (s t : Text) → all is_digit s ≡ true → leading_digits (s ++ t) ≡ s ++ leading_digits t
leading_digits-append [] t h = refl
leading_digits-append (c ∷ s) t h = ground (arith, h, leading_digits-append s t)
