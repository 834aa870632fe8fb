-- ===== src/Wallet/Keys/Hmac.antt =====
-- The construction of RFC 2104, and that `hmacSha512` is it.

use xv.Prelude.{
  Bool-cases, ltb, if◌then◌else◌, append-nil, inr, inl, ◌∙◌, refl, arith, ap, ◌+◌, ◌-◌, ◌++◌, ◌≡◌,
  ◌≤◌, some, suc, zero, ℕ, length, drop, replicate, length-replicate, length-append, take_front,
}
use xv.Prelude.Text.{Bytes}
use xv.Prelude.Optional.{◌>>=◌}
use xv.Security.Wipe.{set_bytes, set_bytes_fits, drop_all}
use xv.Wallet.Keys.{block_size, xor_pad, join_arrays, hmac_sha512}

zeros_again : (m n : ℕ) → m ≡ n → ◌≡◌ {A = Bytes} (replicate m 0) (replicate n 0)
zeros_again m n h = ap (λ (k : ℕ). replicate {A = ℕ} k 0) h

drop-replicate : (k n : ℕ) → ◌≡◌ {A = Bytes} (drop k (replicate n 0)) (replicate (n - k) 0)
drop-replicate zero n = zeros_again n (n - 0) (omega arith)
drop-replicate (suc k) zero = zeros_again 0 (0 - suc k) (omega arith)
drop-replicate (suc k) (suc n) =
    drop-replicate k n ∙ zeros_again (n - k) (suc n - suc k) (omega arith)

-- Writing into zeros from the start pads with zeros.
pub set_bytes-zeros :
    (n : ℕ) (bs : Bytes)
    → length bs ≤ n
    → set_bytes (replicate n 0) 0 bs ≡ some (bs ++ replicate (n - length bs) 0)
set_bytes-zeros n bs h =
    set_bytes_fits (replicate n 0) bs 0 (omega (arith, length-replicate {0} {A = ℕ} n 0))
    ∙ ap (λ (t : Bytes). some (bs ++ t))
        (drop-replicate (0 + length bs) n
          ∙ zeros_again (n - (0 + length bs)) (n - length bs) (omega arith))

pub join_arrays_lem : (first second : Bytes) → join_arrays first second ≡ some (first ++ second)
unfolding join_arrays
join_arrays_lem first second =
    let k = length first in
    let m = length second in
    let whole = first ++ replicate (k + m - k) 0 in
    let l = length-append {0} first (replicate (k + m - k) 0) in
    let r = length-replicate {0} {A = ℕ} (k + m - k) 0 in
    rw
      (
        set_bytes-zeros (k + m) first (omega arith),
        set_bytes_fits whole second k (omega (arith, l, r)),
        take_front first (replicate (k + m - k) 0),
        drop_all (k + m) whole (omega (arith, l, r)),
        append-nil (first ++ second),
      )
      refl

-- HMAC of RFC 2104, for a key that was shortened to at most a block.
abbrev pub rfc_2104 : (Bytes → Bytes) → Bytes → Bytes → Bytes
rfc_2104 hash key bytes =
    let padded = key ++ replicate (block_size - length key) 0 in
    hash (xor_pad 0x5c padded ++ hash (xor_pad 0x36 padded ++ bytes))

hmac_short :
    (sha512 : Bytes → Bytes) (key bytes : Bytes)
    → length key ≤ block_size
    → (do
      padded_key ← set_bytes (replicate block_size 0) 0 key
      inner ← join_arrays (xor_pad 0x36 padded_key) bytes
      outer ← join_arrays (xor_pad 0x5c padded_key) (sha512 inner)
      some (sha512 outer))
      ≡ some (rfc_2104 sha512 key bytes)
hmac_short sha512 key bytes h =
    let padded = key ++ replicate (block_size - length key) 0 in
    let ipad = xor_pad 0x36 padded in
    rw
      (
        set_bytes-zeros block_size key h,
        join_arrays_lem ipad bytes,
        join_arrays_lem (xor_pad 0x5c padded) (sha512 (ipad ++ bytes)),
      )
      refl

pub hmac_sha512_lem :
    (sha512 : Bytes → Bytes) (key bytes : Bytes)
    → ((bs : Bytes) → length (sha512 bs) ≤ block_size)
    → hmac_sha512 sha512 key bytes
      ≡ some (rfc_2104 sha512 (if ltb block_size (length key) then sha512 key else key) bytes)
unfolding hmac_sha512
hmac_sha512_lem sha512 key bytes short = elim (Bool-cases (ltb block_size (length key))) [
  | inl long ↦ rw long (hmac_short sha512 (sha512 key) bytes (short key))
  | inr fits ↦ rw fits (hmac_short sha512 key bytes (ground (arith, fits)))
]
