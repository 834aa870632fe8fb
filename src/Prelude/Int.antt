-- ===== src/Prelude/Int.antt =====
-- Integers over the native numbers, under the library's names, for JavaScript's BigInt and for
-- numbers that may be negative. `negsuc n` is -(n + 1).
use xv.Prelude.Tests.{leb, if◌then◌else◌}
use Prim.Native.Nat.{ℕ, zero, suc, ◌+◌, ◌-◌, ◌*◌}

pub data ℤ : Type 0 where
  pos : ℕ → ℤ
  negsuc : ℕ → ℤ

-- a - b, as an integer
abbrev pub sub_ℕ : ℕ → ℕ → ℤ
sub_ℕ a b = if leb b a then pos (a - b) else negsuc (b - a - 1)

-- -n
abbrev pub neg : ℕ → ℤ
neg zero = pos zero
neg (suc n) = negsuc n

-- z * n, for a number n
abbrev pub scale : ℤ → ℕ → ℤ
scale (pos m) n = pos (m * n)
scale (negsuc m) n = neg (suc m * n)

infixl 65 ◌+ℤ◌
abbrev pub ◌+ℤ◌ : ℤ → ℤ → ℤ
pos a +ℤ pos b = pos (a + b)
pos a +ℤ negsuc b = sub_ℕ a (suc b)
negsuc a +ℤ pos b = sub_ℕ b (suc a)
negsuc a +ℤ negsuc b = negsuc (a + b + 1)
