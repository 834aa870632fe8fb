-- ===== src/Screens/Governance.antt =====
-- wallet-extension/src/screens/Governance.tsx: voting on a proposal and submitting one. The listeners
-- that only change the view or a field are the markup's.
pub mod Actions
pub mod Deposit
pub mod Votes
mod Tests
use xv.Prelude.{
  not, ◌++◌, ◌&&◌, ◌||◌, ◌==◌, ltb, if◌then◌else◌, length, keep, Option, Bool, List, ◌∷◌, [], some,
  none, false, true, ℕ,
}
use xv.Prelude.Text.{strip_prefix, codes, Text, trim}
use xv.Wallet.Accounts.{str, num}
use xv.Api.Governance.Names.{
  voting_period, proposal_passed, proposal_executed, parameter_change, software_upgrade,
  community_pool, text_proposal,
}
use xv.Screens.Signer.{bigint_text, Signer, ScreenError, not_a_number}
use xv.Prelude.Result.{Result, err, ok}
use xv.Platform.Floats.{Floats}
use xv.Prelude.Int.{ℤ}
use xv.Wallet.Accounts.{JsonValue, SultanAccount}
use xv.Api.Governance.Names.{option_text, ProposalType, text_proposal, VoteOption, ProposalStatus}
use xv.Api.Governance.{ProposalRequest, VoteRequest, Proposal}
use xv.Wallet.Amount.{format_sltn}

pub data Tab : Type 0 where
  active_tab passed_tab all_tab : Tab

pub data View : Type 0 where
  list_view detail_view submit_view : View

pub data GovernanceError : Type 0 where
  no_voting_power title_required title_long description_required description_long : GovernanceError
  link_required discord_prefix telegram_prefix deposit_low balance_low : GovernanceError
  action_failed : ScreenError → GovernanceError

-- The component's state.
pub record GovernanceForm : Type 0 where
  pub tab : Tab
  pub view : View
  pub proposals : List Proposal
  pub selected_proposal : Option Proposal
  pub is_loading : Bool
  pub is_voting : Bool
  pub is_submitting : Bool
  pub vote_success : Option VoteOption
  pub error : Option GovernanceError
  pub submit_success : Option ℕ
  pub proposal_title : Text
  pub proposal_description : Text
  pub proposal_type : ProposalType
  pub deposit_amount : Text
  pub discord_url : Text
  pub telegram_url : Text

pub record Governing : Type 0 where
  pub form : GovernanceForm
  pub staked : ℤ
  pub available : ℤ
  pub signer : Signer

abbrev pub min_deposit : ℕ
min_deposit = 1000

abbrev pub default_discord_url : Text
default_discord_url = codes "https://discord.com/channels/1375878827460395142/1453111965428875537"

-- The form of a new proposal, as at the start.
abbrev pub reset_proposal : GovernanceForm → GovernanceForm
reset_proposal f = record f {
  proposal_title = [];
  proposal_description = [];
  proposal_type = text_proposal;
  deposit_amount = codes "1000";
  discord_url = default_discord_url;
  telegram_url = [];
}

abbrev pub in_voting_period : ProposalStatus → Bool
in_voting_period voting_period = true
in_voting_period _ = false

abbrev pub has_passed : ProposalStatus → Bool
has_passed proposal_passed = true
has_passed proposal_executed = true
has_passed _ = false

unfoldable pub filtered_proposals : Tab → List Proposal → List Proposal
filtered_proposals active_tab = keep (λ p. in_voting_period p.status)
filtered_proposals passed_tab = keep (λ p. has_passed p.status)
filtered_proposals all_tab = keep (λ p. true)

unfoldable pub open_proposal : Proposal → GovernanceForm → GovernanceForm
open_proposal p f = record f {
  selected_proposal = some p;
  view = detail_view;
  error = none;
  vote_success = none;
}

-- s.startsWith(prefix)
abbrev pub starts_with : Text → Text → Bool
starts_with prefix s = elim (strip_prefix prefix s) [ none ↦ false | some rest ↦ true ]

abbrev pub is_blank : Text → Bool
is_blank s = length (trim s) == 0

-- url.trim() || undefined
abbrev pub optional_text : Text → Option Text
optional_text url = if is_blank url then none else some (trim url)

-- txData of a vote
abbrev pub vote_data : Proposal → SultanAccount → VoteOption → ℕ → List (Text × JsonValue)
vote_data p a choice now =
    (codes "type", str (codes "vote"))
    ∷ (codes "proposalId", num p.id)
    ∷ (codes "voter", str a.address)
    ∷ (codes "option", str (option_text choice))
    ∷ (codes "timestamp", num now)
    ∷ []

abbrev pub vote_arguments : Proposal → SultanAccount → VoteOption → ℤ → VoteRequest
vote_arguments p a choice staked = record {
  voted_proposal = p.id;
  voting = a.address;
  choice = choice;
  power = bigint_text staked;
}

-- The name of a type.
abbrev pub proposal_type_text : ProposalType → Text
proposal_type_text parameter_change = codes "ParameterChange"
proposal_type_text software_upgrade = codes "SoftwareUpgrade"
proposal_type_text community_pool = codes "CommunityPool"
proposal_type_text text_proposal = codes "TextProposal"

-- A field that is left out of the signed text when it is `undefined`.
abbrev pub optional_data : Text → Option Text → List (Text × JsonValue)
optional_data name value = elim value [ none ↦ [] | some s ↦ (name, str s) ∷ [] ]

-- txData of a proposal
abbrev pub proposal_data : GovernanceForm → SultanAccount → ℤ → ℕ → List (Text × JsonValue)
proposal_data f a deposit now =
    (codes "type", str (codes "submit_proposal"))
    ∷ (codes "proposer", str a.address)
    ∷ (codes "title", str f.proposal_title)
    ∷ (codes "description", str f.proposal_description)
    ∷ (codes "proposalType", str (proposal_type_text f.proposal_type))
    ∷ (codes "deposit", str (bigint_text deposit))
    ∷ (optional_data (codes "telegramUrl") (optional_text f.telegram_url)
        ++ (optional_data (codes "discordUrl") (optional_text f.discord_url)
            ++ ((codes "timestamp", num now) ∷ [])))

abbrev pub proposal_arguments : GovernanceForm → SultanAccount → ℤ → ProposalRequest
proposal_arguments f a deposit = record {
  submitted_by = a.address;
  submitted_title = f.proposal_title;
  submitted_description = f.proposal_description;
  submitted_type = f.proposal_type;
  deposit = bigint_text deposit;
  telegram_discussion_url = optional_text f.telegram_url;
  discord_discussion_url = optional_text f.discord_url;
}

-- The ends of the blocks of a vote; what the node answered is not read.
unfoldable pub voted : VoteOption → Result ScreenError Bool → GovernanceForm → GovernanceForm
voted choice (err e) f = record f { error = some (action_failed e); is_voting = false }
voted choice (ok counts) f = record f {
  vote_success = some choice;
  selected_proposal = none;
  view = list_view;
  is_voting = false;
}

-- The checks of the texts.
unfoldable pub text_error : GovernanceForm → Option GovernanceError
unfolding trim
text_error f =
    if is_blank f.proposal_title
    then some title_required
    else if ltb 140 (length f.proposal_title)
    then some title_long
    else if is_blank f.proposal_description
    then some description_required
    else if ltb 10000 (length f.proposal_description)
    then some description_long
    else if is_blank f.discord_url && is_blank f.telegram_url
    then some link_required
    else if not (is_blank f.discord_url)
        && not (starts_with (codes "https://discord") f.discord_url)
    then some discord_prefix
    else if not (is_blank f.telegram_url)
        && not (starts_with (codes "https://t.me/") f.telegram_url)
    then some telegram_prefix
    else none

module _ {F : Type 0} (floats : Floats F) where
  -- The checks of the deposit, the second one against the number that the balance's print is.
  unfoldable pub deposit_error : ℤ → Text → Option GovernanceError
  unfolding format_sltn
  deposit_error available amount =
      let deposit = floats.number amount in
      if floats.is_nan deposit || floats.gt (floats.of_ℕ min_deposit) deposit
      then some deposit_low
      else if floats.gt deposit (floats.number (format_sltn available))
      then some balance_low
      else none

  unfoldable pub proposal_error : ℤ → GovernanceForm → Option GovernanceError
  unfolding text_error deposit_error
  proposal_error available f = elim (text_error f) [
    | some e ↦ some e
    | none ↦ deposit_error available f.deposit_amount
  ]
