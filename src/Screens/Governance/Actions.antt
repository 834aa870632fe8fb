-- ===== src/Screens/Governance/Actions.antt =====
-- The handlers of wallet-extension/src/screens/Governance.tsx that use the network. They do not ask for
-- the session's PIN. After a vote and a proposal the clock was read once, for what is signed.
use xv.Prelude.{Bool, if◌then◌else◌, false, true, ℕ, none, some}
use xv.Screens.Signer.{ScreenError, not_a_number, sign_and_post}
use xv.Prelude.Result.{Result, err, ok}
use xv.Api.Readers.{Readers}
use xv.Api.Request.{Trace, Network}
use xv.Api.Governance.{Proposal, submit_proposal, vote, get_proposals}
use xv.Platform.{TextCodec}
use xv.Screens.Governance.{
  vote_arguments, proposal_arguments, vote_data, proposal_data, no_voting_power, GovernanceForm,
  reset_proposal, proposal_error, voted, action_failed, Governing,
}
use xv.Wallet.Accounts.{SultanAccount, SultanWallet, Packages}
use xv.Platform.Floats.{Floats}
use xv.Wallet.Amount.{format_sltn, parse_sltn}
use xv.Api.Governance.Names.{VoteOption}
use xv.Prelude.Text.{Text}
use xv.Prelude.Int.{ℤ}

module _ {J : Type 0} (readers : Readers J) (network : Network J) where
  unfoldable pub load_proposals : Governing → Governing
  unfolding get_proposals
  load_proposals s =
      let (t, l) = get_proposals readers network s.signer.trace in
      record s {
        form = record s.form { proposals = l; is_loading = false };
        signer = record s.signer { trace = t };
      }

  module _ (codec : TextCodec) (packages : Packages) where
    -- The try block of a vote.
    unfoldable pub try_vote :
        ℕ
        → SultanWallet
        → SultanAccount
        → Proposal
        → VoteOption
        → ℤ
        → Trace
        → Trace × Result ScreenError Bool
    unfolding sign_and_post vote
    try_vote now w a p choice staked t =
        sign_and_post codec packages w a (vote_data p a choice now)
          (λ signature. vote readers network (vote_arguments p a choice staked)) t

    unfoldable pub try_proposal :
        ℕ
        → SultanWallet
        → SultanAccount
        → Text
        → GovernanceForm
        → Trace
        → Trace × Result ScreenError ℕ
    unfolding parse_sltn sign_and_post submit_proposal
    try_proposal now w a deposit f t = elim (parse_sltn deposit) [
      | err e ↦ (t, err not_a_number)
      | ok atomic ↦
          sign_and_post codec packages w a (proposal_data f a atomic now)
            (λ signature. submit_proposal readers network (proposal_arguments f a atomic)) t
    ]

    -- The ends of the blocks of a proposal: after a success the form is reset and the list loaded.
    unfoldable pub submitted : Result ScreenError ℕ → Governing → Governing
    unfolding load_proposals
    submitted (err e) s = record s {
      form = record s.form { error = some (action_failed e); is_submitting = false };
    }
    submitted (ok id) s =
        let s' =
          load_proposals
            (record s { form = reset_proposal (record s.form { submit_success = some id }) }) in
        record s' { form = record s'.form { is_submitting = false } }

    module _ {F : Type 0} (floats : Floats F) where
      -- handleVote with a wallet, an account and a proposal.
      unfoldable pub vote_with :
          ℕ → SultanWallet → SultanAccount → Proposal → VoteOption → Governing → Governing
      unfolding try_vote voted format_sltn
      vote_with now w a p choice s =
          if floats.eq (floats.number (format_sltn s.staked)) (floats.of_ℕ 0)
          then record s { form = record s.form { error = some no_voting_power } }
          else let (t, r) = try_vote now w a p choice s.staked s.signer.trace in
            record s {
              form =
                  voted choice r
                    (record s.form { is_voting = true; error = none; vote_success = none });
              signer = record s.signer { trace = t };
            }

      unfoldable pub handle_vote : ℕ → VoteOption → Governing → Governing
      unfolding vote_with
      handle_vote now choice s = elim s.signer.wallet [
        | none ↦ s
        | some w ↦ elim s.signer.current_account [
          | none ↦ s
          | some a ↦ elim s.form.selected_proposal [
            | none ↦ s
            | some p ↦ vote_with now w a p choice s
          ]
        ]
      ]

      -- handleSubmitProposal with a wallet and an account.
      unfoldable pub submit_with : ℕ → SultanWallet → SultanAccount → Governing → Governing
      unfolding proposal_error try_proposal submitted
      submit_with now w a s = elim (proposal_error floats s.available s.form) [
        | some e ↦ record s { form = record s.form { error = some e } }
        | none ↦
            let deposit = floats.to_text (floats.number s.form.deposit_amount) in
            let (t, r) = try_proposal now w a deposit s.form s.signer.trace in
            submitted r (record s {
              form = record s.form { is_submitting = true; error = none; submit_success = none };
              signer = record s.signer { trace = t };
            })
      ]

      unfoldable pub handle_submit_proposal : ℕ → Governing → Governing
      unfolding submit_with
      handle_submit_proposal now s = elim s.signer.wallet [
        | none ↦ s
        | some w ↦ elim s.signer.current_account [ none ↦ s | some a ↦ submit_with now w a s ]
      ]
