-- ===== src/Screens/Governance/Deposit.antt =====
-- Which deposits the screen refuses.
use xv.Prelude.{
  ◌∙◌, arith, ◌||◌, ap, ◌≢◌, ◌≤◌, ◌^◌, if◌then◌else◌, ◌*◌, ℕ, Bool, some, none, false, true, ◌≡◌,
}
use xv.Platform.Floats.{Floats, CommaIsNaN}
use xv.Security.Amount.Commas.{format_sltn-HasComma}
use xv.Screens.Governance.{min_deposit, balance_low, deposit_low, deposit_error}
use xv.Prelude.Text.{Text}
use xv.Wallet.Amount.{format_sltn}
use xv.Prelude.Int.{pos}

module _ {F : Type 0} (floats : Floats F) (laws : CommaIsNaN floats) where
  above_no_print :
      (x : F) (b : ℕ)
      → 1000 * 10 ^ 9 ≤ b
      → floats.gt x (floats.number (format_sltn (pos b))) ≡ false
  above_no_print x b large =
      let c = format_sltn-HasComma b large in
      laws.nan-gt x (floats.number (format_sltn (pos b))) (
        ap (λ (t : Text). floats.is_nan (floats.number t)) c.split
        ∙ laws.number-comma c.front c.rest)

  not_balance_low :
      (low above : Bool)
      → above ≡ false
      → (if low then some deposit_low else if above then some balance_low else none)
        ≢ some balance_low
  not_balance_low true above h e = ground (arith, e)
  not_balance_low false above h e = ground (arith, h, e)

  -- When Number of a text with a comma is NaN: with a balance of one thousand SLTN or more, no deposit is
  -- refused as above the balance, however large it is.
  pub large_deposit_is_not_refused :
      (b : ℕ) (amount : Text)
      → 1000 * 10 ^ 9 ≤ b
      → deposit_error floats (pos b) amount ≢ some balance_low
  unfolding deposit_error
  large_deposit_is_not_refused b amount large =
      let deposit = floats.number amount in
      not_balance_low (floats.is_nan deposit || floats.gt (floats.of_ℕ min_deposit) deposit)
        (floats.gt deposit (floats.number (format_sltn (pos b)))) (above_no_print deposit b large)
