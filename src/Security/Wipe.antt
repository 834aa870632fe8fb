-- ===== src/Security/Wipe.antt =====
-- `secureWipe` of wallet-extension/src/core/security.ts. A typed array is a list of bytes, and an
-- operation returns what the array holds afterwards.
use xv.Prelude.{
  zero, suc, ◌≤◌, ℕ, ◌+◌, ◌≡◌, refl, ap, Option, none, some, List, [], ◌∷◌, ◌++◌, map, arith,
  length, take, drop, replicate, ltb, ◌==◌, if◌then◌else◌, append-nil,
}
use xv.Prelude.Optional.{◌>>=◌}
use xv.Prelude.Text.{Bytes}

-- target.set(source, offset); `none` is the RangeError of a source that does not fit.
unfoldable pub set_bytes : Bytes → ℕ → Bytes → Option Bytes
set_bytes target offset source =
    if ltb (length target) (offset + length source)
    then none
    else some (take offset target ++ source ++ drop (offset + length source) target)

-- data.fill(value)
abbrev pub fill : ℕ → Bytes → Bytes
fill value = map (λ _. value)

-- `random` is what `randomBytes(data.length)` returned.
unfoldable pub secure_wipe : Bytes → Bytes → Option Bytes
secure_wipe random data_bytes =
    if length data_bytes == 0
    then some data_bytes
    else do first ← set_bytes data_bytes 0 random; some (fill 0 (fill 0xff (fill 0 first)))

pub drop_all {ℓ} : {A : Type ℓ} (n : ℕ) (xs : List A) → length xs ≤ n → drop n xs ≡ []
drop_all zero [] h = refl
drop_all zero (x ∷ xs) h = absurd (omega arith)
drop_all (suc n) [] h = refl
drop_all (suc n) (x ∷ xs) h = drop_all n xs (omega arith)

-- A source that fits is written without an error.
pub set_bytes_fits :
    (target source : Bytes) (offset : ℕ)
    → offset + length source ≤ length target
    → set_bytes target offset source
      ≡ some (take offset target ++ source ++ drop (offset + length source) target)
unfolding set_bytes
set_bytes_fits target source offset h = ground arith

fill-replicate : (v : ℕ) (xs : Bytes) → fill v xs ≡ replicate (length xs) v
fill-replicate v [] = refl
fill-replicate v (x ∷ xs) = ap (λ (t : Bytes). v ∷ t) (fill-replicate v xs)

fill-fill : (v w : ℕ) (xs : Bytes) → fill v (fill w xs) ≡ fill v xs
fill-fill v w [] = refl
fill-fill v w (x ∷ xs) = ap (λ (t : Bytes). v ∷ t) (fill-fill v w xs)

-- Writing a source of the target's own length from the start replaces the target.
pub set_bytes_whole :
    (target source : Bytes)
    → length source ≡ length target
    → set_bytes target 0 source ≡ some source
unfolding set_bytes
set_bytes_whole target source same =
    ground (arith, drop_all (0 + length source) target, append-nil source)

-- Wiping with as many random bytes as the array has leaves zeros, in the same number.
pub secure_wipe-eq-zeros :
    (random data_bytes : Bytes)
    → length random ≡ length data_bytes
    → secure_wipe random data_bytes ≡ some (replicate (length data_bytes) 0)
unfolding secure_wipe
secure_wipe-eq-zeros random [] same = refl
secure_wipe-eq-zeros random (x ∷ xs) same = ground (
  arith,
  set_bytes_whole (x ∷ xs) random same,
  fill-fill 0 0xff (fill 0 random),
  fill-fill 0 0 random,
  fill-replicate 0 random,
  ap (λ (n : ℕ). replicate {A = ℕ} n 0) same,
)
