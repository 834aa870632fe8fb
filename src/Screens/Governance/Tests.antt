-- ===== src/Screens/Governance/Tests.antt =====
-- A vote and a deposit over toy packages and a toy node.
use xv.Prelude.{arith, ◌≢◌, ◌∷◌, [], some, none, false, refl, ◌≡◌}
use xv.Wallet.Accounts.Signing.{created}
use xv.Wallet.Accounts.Samples.{toy_packages, toy_laws, toy_created, first_account}
use xv.Security.Amount.Samples.{billionths, billionths-CommaIsNaN}
use xv.Api.Governance.Names.{text_proposal, voting_period, vote_no}
use xv.Screens.Governance.{
  balance_low, deposit_error, filtered_proposals, GovernanceForm, Governing, active_tab,
  detail_view,
}
use xv.Screens.Governance.Deposit.{large_deposit_is_not_refused}
use xv.Screens.Governance.Votes.{vote_request, chosen_vote_is_posted}
use xv.Wallet.Amount.{format_sltn}
use xv.Api.Governance.{Proposal}
use xv.Prelude.Text.{codes}
use xv.Prelude.Int.{pos}
use xv.Api.Ledger.Nonces.{PostsAfter}
use xv.Security.Lockout.{absent}
use xv.Screens.Governance.Actions.{handle_vote}
use xv.Api.Samples.{node, number_readers}
use xv.Platform.Samples.{one_byte}

abbrev a_proposal : Proposal
a_proposal = record {
  id = 4;
  proposer = codes "sultan1a";
  title = codes "t";
  description = codes "d";
  proposal_type = text_proposal;
  status = voting_period;
  submit_height = 1;
  submit_time = 2;
  voting_end_height = 3;
  total_deposit = codes "5";
  final_tally = none;
}

abbrev an_open_form : GovernanceForm
an_open_form = record {
  tab = active_tab;
  view = detail_view;
  proposals = a_proposal ∷ [];
  selected_proposal = some a_proposal;
  is_loading = false;
  is_voting = false;
  is_submitting = false;
  vote_success = none;
  error = none;
  submit_success = none;
  proposal_title = [];
  proposal_description = [];
  proposal_type = text_proposal;
  deposit_amount = codes "1000";
  discord_url = [];
  telegram_url = [];
}

abbrev a_voter : Governing
a_voter = record {
  form = an_open_form;
  staked = pos 5000000000;
  available = pos 0;
  signer = record {
    wallet = some toy_created.0;
    current_account = some first_account;
    session_pin_hash = none;
    lockout = absent;
    trace = [];
  };
}

chosen_vote_is_posted_example :
    PostsAfter [] (vote_request a_proposal first_account vote_no 5000000000) (
      (handle_vote number_readers node one_byte toy_packages billionths 10 vote_no
          a_voter).signer.trace,
      tt,
    )
unfolding format_sltn
chosen_vote_is_posted_example =
    chosen_vote_is_posted number_readers node one_byte toy_packages billionths toy_laws
      toy_created.0 (created (1 ∷ 2 ∷ 3 ∷ []) [] (codes "zoo") none toy_created.0 toy_created.1)
      first_account toy_created.2 10 5000000000 vote_no a_voter a_proposal refl refl refl refl refl

large_deposit_is_not_refused_example :
    deposit_error billionths (pos 1000000000000) (codes "999999") ≢ some balance_low
large_deposit_is_not_refused_example =
    large_deposit_is_not_refused billionths billionths-CommaIsNaN 1000000000000 (codes "999999")
      (omega arith)

open_proposals : filtered_proposals active_tab (a_proposal ∷ []) ≡ a_proposal ∷ []
unfolding filtered_proposals
open_proposals = refl
