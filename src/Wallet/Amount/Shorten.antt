-- ===== src/Wallet/Amount/Shorten.antt =====
-- The length of a shortened address.
use xv.Prelude.{
  min, leb, if◌then◌else◌, ◌++◌, ◌+◌, ◌*◌, ◌-◌, arith, ◌≡◌, ◌≤◌, suc, ℕ, length, take,
  length-append, length-take, length-drop,
}
use xv.Prelude.Text.{Text, codes}
use xv.Wallet.Amount.{truncate_address, slice_last}

length-slice_last : (n : ℕ) (s : Text) → suc n ≤ length s → length (slice_last (suc n) s) ≡ suc n
length-slice_last n s h = ground (arith, length-drop {0} (length s - suc n) s)

-- With `suc chars` characters to keep, an address of up to twice as many and three more keeps its length,
-- and any other gets the length of `suc chars` and six characters at the front, at most the whole address,
-- three dots, and `suc chars` characters at the end.
pub length-truncate_address :
    (address : Text) (chars : ℕ)
    → length (truncate_address address (suc chars)) ≡ (
        if leb (length address) (suc chars * 2 + 3)
        then length address
        else min (suc chars + 6) (length address) + 3 + suc chars)
unfolding truncate_address
length-truncate_address address chars = ground (
  arith,
  length-append {0} (take (suc chars + 6) address) (codes "..." ++ slice_last (suc chars) address),
  length-take {0} (suc chars + 6) address,
  length-slice_last chars address,
)
