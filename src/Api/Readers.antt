-- ===== src/Api/Readers.antt =====
-- How wallet-extension/src/api/sultanAPI.ts reads what the node sends: the responses' types, and for each
-- the function from JSON, a parameter. A Zod schema refuses a response with a message; where the source
-- asserts the type, a response of another shape is not modelled.
use xv.Prelude.{Bool, Option, List, ℕ}
use xv.Prelude.Text.{Text}
use xv.Prelude.Result.{Result}

-- BalanceResponseSchema
pub record BalanceResponse : Type 0 where
  pub balance_address : Text
  pub balance_amount : ℕ
  pub balance_nonce : ℕ

-- DelegationSchema
pub record Delegation : Type 0 where
  pub delegator_address : Text
  pub validator_address : Text
  pub amount : ℕ
  pub rewards_accumulated : ℕ

pub record RawTally : Type 0 where
  pub raw_yes : ℕ
  pub raw_no : ℕ
  pub raw_abstain : ℕ
  pub raw_no_with_veto : ℕ
  pub raw_total_voting_power : ℕ
  pub raw_quorum_reached : Bool
  pub raw_passed : Bool
  pub raw_vetoed : Bool

pub record RawProposal : Type 0 where
  pub raw_id : ℕ
  pub raw_proposer : Text
  pub raw_title : Text
  pub raw_description : Text
  pub raw_proposal_type : Text
  pub raw_status : Text
  pub raw_submit_height : ℕ
  pub raw_submit_time : ℕ
  pub raw_voting_end_height : ℕ
  pub raw_total_deposit : ℕ
  pub raw_final_tally : Option RawTally

pub record RawVote : Type 0 where
  pub raw_voter : Text
  pub raw_option : Text
  pub raw_voting_power : ℕ

pub record Readers (J : Type 0) : Type 0 where
  pub read_balance : J → Result Text BalanceResponse
  pub read_delegations : J → Result Text (List Delegation)
  pub read_hash : J → Result Text Text
  pub as_proposals : J → List RawProposal
  pub as_proposal : J → RawProposal
  pub as_vote : J → Option RawVote
  pub as_vote_status : J → Text
  pub as_proposal_id : J → ℕ
