-- ===== src/Security/ConstantTime.antt =====
-- `constantTimeEqual` and `constantTimeStringEqual` of wallet-extension/src/core/security.ts.
use Prim.Native.Nat.{bit_or, bit_xor}
use xv.Prelude.{
  ◌≤◌, ℕ, max, ◌≡◌, ◌↔◌, refl, ap, Bool, true, false, not, ◌&&◌, Option, some, [], ◌∷◌, arith,
  length, replicate, ◌==◌, ==_iff, length-replicate, if◌then◌else◌, Bool-cases, inl, inr,
}
use xv.Prelude.Bits.{bit_or-eq-zero, bit_xor-eq-zero}
use xv.Prelude.Text.{Text, Bytes, text_eq, text_eq_iff}
use xv.Prelude.Optional.{◌>>=◌}
use xv.Platform.{TextCodec}
use xv.Security.Wipe.{set_bytes, set_bytes_whole, set_bytes_fits}

-- The loop `result |= a[i] ^ b[i]`, over two arrays of one length.
unfoldable pub diff_bits : ℕ → Bytes → Bytes → ℕ
diff_bits result [] b = result
diff_bits result (x ∷ a) [] = diff_bits (bit_or result (bit_xor x 0)) a []
diff_bits result (x ∷ a) (y ∷ b) = diff_bits (bit_or result (bit_xor x y)) a b

unfoldable pub constant_time_equal : Bytes → Bytes → Bool
constant_time_equal a b = if not (length a == length b) then false else diff_bits 0 a b == 0

-- The padded copies are local arrays, which are wiped and dropped.
unfoldable pub constant_time_string_equal : TextCodec → Text → Text → Option Bool
constant_time_string_equal codec a b = do
  let a_bytes = codec.encode a
  let b_bytes = codec.encode b
  let max_len = max (length a_bytes) (length b_bytes)
  a_padded ← set_bytes (replicate max_len 0) 0 a_bytes
  b_padded ← set_bytes (replicate max_len 0) 0 b_bytes
  some (constant_time_equal a_padded b_padded && (length a_bytes == length b_bytes))

diff_bits-eq-zero :
    (r : ℕ) (a b : Bytes) → length a ≡ length b → (diff_bits r a b ≡ 0) ↔ ((r ≡ 0) × (a ≡ b))
unfolding diff_bits
diff_bits-eq-zero r [] [] h = ground arith
diff_bits-eq-zero r [] (y ∷ b) h = absurd (omega arith)
diff_bits-eq-zero r (x ∷ a) [] h = absurd (omega arith)
diff_bits-eq-zero r (x ∷ a) (y ∷ b) h = ground (
  arith,
  diff_bits-eq-zero (bit_or r (bit_xor x y)) a b (omega arith),
  bit_or-eq-zero r (bit_xor x y),
  bit_xor-eq-zero x y,
)

-- The comparison answers true exactly for equal arrays.
pub constant_time_equal_iff : (a b : Bytes) → (constant_time_equal a b ≡ true) ↔ (a ≡ b)
unfolding constant_time_equal
constant_time_equal_iff a b = elim (Bool-cases (length a == length b)) [
  | inl same ↦ ground (arith, diff_bits-eq-zero 0 a b ((==_iff _ _).0 same))
  | inr other ↦
      ground (arith, ==_iff (length a) (length b), ap {A = Bytes} {B = ℕ} length {x = a} {y = b})
]

text_eq-length : (a b : Bytes) → text_eq a b ≡ true → length a ≡ length b
text_eq-length a b h = ap {A = Bytes} length ((text_eq_iff a b).0 h)

padded : ℕ → Bytes → Option Bytes
padded n xs = set_bytes (replicate n 0) 0 xs

padded_same : (n : ℕ) (xs : Bytes) → length xs ≡ n → padded n xs ≡ some xs
unfolding padded
padded_same n xs h =
    set_bytes_whole (replicate n 0) xs (omega (arith, length-replicate {0} {A = ℕ} n 0))

padded_fits : (n : ℕ) (xs : Bytes) → length xs ≤ n → (p : Bytes) × (padded n xs ≡ some p)
unfolding padded
padded_fits n xs h =
    (_, set_bytes_fits (replicate n 0) xs 0 (omega (arith, length-replicate {0} {A = ℕ} n 0)))

equal_after_padding :
    (n : ℕ) (a b : Bytes)
    → n ≡ max (length a) (length b)
    → (padded n a >>= λ p.
        padded n b >>= λ q. some (constant_time_equal p q && (length a == length b)))
      ≡ some (text_eq a b)
equal_after_padding n a b h = elim (Bool-cases (length a == length b)) [
  | inl same ↦ ground (
    arith,
    padded_same n a (ground arith),
    padded_same n b (ground arith),
    constant_time_equal_iff a b,
    text_eq_iff a b,
  )
  | inr other ↦
      let (p, hp) = padded_fits n a (omega arith) in
      let (q, hq) = padded_fits n b (omega arith) in ground (arith, hp, hq, text_eq-length a b)
]

-- Comparing two texts never fails, and tells whether their encodings are the same bytes: the
-- padding hides no difference.
pub constant_time_string_equal_lem :
    (codec : TextCodec) (a b : Text)
    → constant_time_string_equal codec a b ≡ some (text_eq (codec.encode a) (codec.encode b))
unfolding constant_time_string_equal padded
constant_time_string_equal_lem codec a b =
    equal_after_padding _ (codec.encode a) (codec.encode b) refl
