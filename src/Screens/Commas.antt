-- ===== src/Screens/Commas.antt =====
-- The commas that the balances are printed with, where the screens read them back.
mod Tests
use xv.Prelude.{arith, ◌∙◌, ap, ◌≤◌, ◌^◌, ◌*◌, ℕ, some, false, ◌≡◌}
use xv.Platform.Floats.{Floats, CommaIsNaN}
use xv.Security.Amount.Commas.{format_sltn-HasComma}
use xv.Security.Amount.{bad_format}
use xv.Screens.Send.{Sending, after_send, max_clicked, continue_clicked}
use xv.Screens.Stake.{
  claim_clicked, action_clicked, tab_clicked, Tab, StakeForm, Staking, shows_claim, is_offered,
}
use xv.Prelude.Int.{pos}
use xv.Screens.Signer.{bad_amount}
use xv.Wallet.Amount.{format_sltn}
use xv.Prelude.Text.{Text}
use xv.Screens.Stake.Actions.{handle_event}
use xv.Platform.{TextCodec}
use xv.Wallet.Accounts.{Packages}
use xv.Api.Readers.{Readers}
use xv.Api.Request.{Network}
use xv.Screens.Send
use xv.Screens.Stake

module _ {F : Type 0} (floats : Floats F) where
  -- The form on a tab, with the amount that is filled in, refused.
  abbrev pub refused_on : Tab → ℕ → StakeForm → StakeForm
  refused_on tab b f = record f {
    tab = tab;
    amount = format_sltn (pos b);
    error = some (bad_amount bad_format);
  }

  module _ {J : Type 0} (codec : TextCodec) (packages : Packages) (readers : Readers J)
      (network : Network J) where
    -- MAX and the button that goes on, on the Send screen.
    abbrev pub max_and_continue : Sending → Sending
    max_and_continue s =
        let after = after_send codec packages readers network floats in
        after continue_clicked (after max_clicked s)

    -- A tab, MAX and the action's button, on the Stake screen.
    abbrev pub max_and_act : Tab → Staking → Staking
    max_and_act tab s =
        let handle = handle_event codec packages readers network floats in
        handle action_clicked (handle xv.Screens.Stake.max_clicked (handle (tab_clicked tab) s))

  shows_claim-large :
      CommaIsNaN floats → (b : ℕ) → 1000 * 10 ^ 9 ≤ b → shows_claim floats (pos b) ≡ false
  unfolding shows_claim
  shows_claim-large laws b large =
      let c = format_sltn-HasComma b large in
      laws.gt-nan (floats.number (format_sltn (pos b))) (floats.of_ℕ 0) (
        ap (λ (t : Text). floats.is_nan (floats.number t)) c.split
        ∙ laws.number-comma c.front c.rest)

  -- When Number of a text with a comma is NaN: rewards of one thousand SLTN or more cannot be claimed on
  -- the Stake screen, since the button for it does not show.
  pub large_rewards_cannot_be_claimed :
      CommaIsNaN floats
      → (b : ℕ) (s : Staking) → 1000 * 10 ^ 9 ≤ b
      → s.loaded.pending_rewards ≡ pos b
      → is_offered floats s claim_clicked ≡ false
  unfolding is_offered
  large_rewards_cannot_be_claimed laws b s large shown =
      let hidden : shows_claim floats s.loaded.pending_rewards ≡ false =
        ap (shows_claim floats) shown ∙ shows_claim-large laws b large in
      ground (arith, hidden)
