-- ===== src/Api/Governance.antt =====
-- Proposals and votes of wallet-extension/src/api/sultanAPI.ts.
pub mod Names
pub mod Numbers
pub mod Votes
mod Tests
use xv.Prelude.{
  ◌&&◌, ◌==◌, leb, length, ◌+◌, Option, none, some, List, [], ◌∷◌, ◌++◌, map, ℕ, Bool,
  if◌then◌else◌,
}
use xv.Prelude.Text.{text_eq, trim_start, strip_prefix, is_digit, Text, codes}
use xv.Prelude.Decimal.{leading_digits, value_from, to_string}
use xv.Prelude.Int.{neg, ℤ, pos}
use xv.Prelude.Result.{Result, ok, err}
use xv.Api.Readers.{RawTally, RawProposal, RawVote, Readers}
use xv.Api.Governance.Names.{
  ProposalType, ProposalStatus, VoteOption, map_proposal_type, map_proposal_status, map_vote_option,
  vote_name, type_name,
}
use xv.Api.Request.{Network, Trace, ApiError, Body, Plain, str, num, null, plain, rest_api}
use xv.Api.Ledger.{get_request, post_request}

pub record TallyResult : Type 0 where
  pub yes : Text
  pub no : Text
  pub abstain : Text
  pub no_with_veto : Text
  pub total_voting_power : Text
  pub quorum_reached : Bool
  pub passed : Bool
  pub vetoed : Bool

pub record Proposal : Type 0 where
  pub id : ℕ
  pub proposer : Text
  pub title : Text
  pub description : Text
  pub proposal_type : ProposalType
  pub status : ProposalStatus
  pub submit_height : ℕ
  pub submit_time : ℕ
  pub voting_end_height : ℕ
  pub total_deposit : Text
  pub final_tally : Option TallyResult

pub record UserVote : Type 0 where
  pub proposal_id : ℕ
  pub voter : Text
  pub option : VoteOption
  pub voting_power : Text

unfoldable pub tally_of : RawTally → TallyResult
tally_of r = record {
  yes = to_string r.raw_yes;
  no = to_string r.raw_no;
  abstain = to_string r.raw_abstain;
  no_with_veto = to_string r.raw_no_with_veto;
  total_voting_power = to_string r.raw_total_voting_power;
  quorum_reached = r.raw_quorum_reached;
  passed = r.raw_passed;
  vetoed = r.raw_vetoed;
}

unfoldable pub proposal_of : RawProposal → Proposal
unfolding tally_of map_proposal_type map_proposal_status
proposal_of p = record {
  id = p.raw_id;
  proposer = p.raw_proposer;
  title = p.raw_title;
  description = p.raw_description;
  proposal_type = map_proposal_type p.raw_proposal_type;
  status = map_proposal_status p.raw_status;
  submit_height = p.raw_submit_height;
  submit_time = p.raw_submit_time;
  voting_end_height = p.raw_voting_end_height;
  total_deposit = to_string p.raw_total_deposit;
  final_tally = elim p.raw_final_tally [ none ↦ none | some r ↦ some (tally_of r) ];
}

unfoldable pub vote_of : ℕ → RawVote → UserVote
unfolding map_vote_option
vote_of proposal_id r = record {
  proposal_id = proposal_id;
  voter = r.raw_voter;
  option = map_vote_option r.raw_option;
  voting_power = to_string r.raw_voting_power;
}

-- parseInt(s, 10): white space, a sign, and the digits in front. `none` is NaN.
abbrev pub digits_value : (ℕ → ℤ) → Text → Option ℤ
digits_value sign s =
    let digits = leading_digits s in
    if length digits == 0 then none else some (sign (value_from 0 digits))

unfoldable pub parse_int : Text → Option ℤ
parse_int text =
    let s = trim_start text in
    elim (strip_prefix (codes "-") s) [
      | some behind ↦ digits_value neg behind
      | none ↦ elim (strip_prefix (codes "+") s) [
        | some behind ↦ digits_value pos behind
        | none ↦ digits_value pos s
      ]
    ]

-- What JSON.stringify prints of a number: null of NaN.
abbrev pub number_field : Option ℤ → Plain
number_field none = null
number_field (some n) = num n

-- A field that is left out when it is `undefined`.
abbrev pub optional_field : Text → Option Text → Body
optional_field name value = elim value [ none ↦ [] | some s ↦ (name, plain (str s)) ∷ [] ]

-- The arguments of `vote` that it uses.
pub record VoteRequest : Type 0 where
  pub voted_proposal : ℕ
  pub voting : Text
  pub choice : VoteOption
  pub power : Text

unfoldable pub vote_body : VoteRequest → Body
vote_body req =
    (codes "proposal_id", plain (num (pos req.voted_proposal)))
    ∷ (codes "voter", plain (str req.voting))
    ∷ (codes "option", plain (str (vote_name req.choice)))
    ∷ (codes "voting_power", plain (number_field (parse_int req.power)))
    ∷ []

-- The arguments of `submitProposal` that it uses.
pub record ProposalRequest : Type 0 where
  pub submitted_by : Text
  pub submitted_title : Text
  pub submitted_description : Text
  pub submitted_type : ProposalType
  pub deposit : Text
  pub telegram_discussion_url : Option Text
  pub discord_discussion_url : Option Text

unfoldable pub proposal_body : ProposalRequest → Body
proposal_body req =
    (codes "proposer", plain (str req.submitted_by))
    ∷ (codes "title", plain (str req.submitted_title))
    ∷ (codes "description", plain (str req.submitted_description))
    ∷ (codes "proposal_type", plain (str (type_name req.submitted_type)))
    ∷ (codes "initial_deposit", plain (number_field (parse_int req.deposit)))
    ∷ (optional_field (codes "telegram_discussion_url") req.telegram_discussion_url
        ++ optional_field (codes "discord_discussion_url") req.discord_discussion_url)

-- A call's result, changed, and an error replaced by a value.
abbrev pub or_else : {A : Type 0} {B : Type 0} → (A → B) → B → Trace × Result ApiError A → Trace × B
or_else f otherwise (t, ok a) = (t, f a)
or_else f otherwise (t, err e) = (t, otherwise)

abbrev pub map_ok :
    {A : Type 0} {B : Type 0} → (A → B) → Trace × Result ApiError A → Trace × Result ApiError B
map_ok f (t, ok a) = (t, ok (f a))
map_ok f (t, err e) = (t, err e)

abbrev pub vote_path : ℕ → Text → Text
vote_path proposal_id voter =
    codes "/governance/proposal/" ++ (to_string proposal_id ++ (codes "/vote/" ++ voter))

module _ {J : Type 0} (readers : Readers J) (network : Network J) where
  unfoldable pub get_proposals : Trace → Trace × List Proposal
  unfolding proposal_of
  get_proposals t = or_else (map proposal_of) [] (
      rest_api (λ j. ok (readers.as_proposals j)) network
        (get_request (codes "/governance/proposals")) t)

  unfoldable pub get_proposal : ℕ → Trace → Trace × Option Proposal
  unfolding proposal_of
  get_proposal id t =
      or_else (λ p. some (proposal_of p)) none
        (rest_api (λ j. ok (readers.as_proposal j)) network
          (get_request (codes "/governance/proposal/" ++ to_string id)) t)

  unfoldable pub get_user_vote : ℕ → Text → Trace → Trace × Option UserVote
  unfolding vote_of
  get_user_vote proposal_id voter t =
      or_else (λ r. elim r [ none ↦ none | some v ↦ some (vote_of proposal_id v) ]) none
        (rest_api (λ j. ok (readers.as_vote j)) network (get_request (vote_path proposal_id voter))
          t)

  -- Whether the node says that the vote counts.
  unfoldable pub vote : VoteRequest → Trace → Trace × Result ApiError Bool
  unfolding vote_body
  vote req t =
      map_ok (λ status. text_eq status (codes "voted"))
        (rest_api (λ j. ok (readers.as_vote_status j)) network
          (post_request (codes "/governance/vote") (vote_body req)) t)

  unfoldable pub submit_proposal : ProposalRequest → Trace → Trace × Result ApiError ℕ
  unfolding proposal_body
  submit_proposal req =
      rest_api (λ j. ok (readers.as_proposal_id j)) network
        (post_request (codes "/governance/propose") (proposal_body req))
