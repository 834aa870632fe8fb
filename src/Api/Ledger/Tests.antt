-- ===== src/Api/Ledger/Tests.antt =====
-- Examples for balances and signed transactions.
use xv.Prelude.{refl, [], ◌≡◌}
use xv.Prelude.Text.{codes}
use xv.Prelude.Decimal.{to_string}
use xv.Api.Request.{rest_api}
use xv.Api.Ledger.{
  StakeRequest, UnstakeRequest, ClaimRewardsRequest, zero_balance, get_balance, get_staking_info,
}
use xv.Api.Samples.{number_readers, node, no_node}

no_node_no_balance :
    (get_balance number_readers no_node (codes "sultan1b") []).1 ≡ zero_balance (codes "sultan1b")
unfolding get_balance rest_api
no_node_no_balance = refl

delegations_add_up :
    (get_staking_info number_readers node (codes "sultan1a") []).1.staked ≡ codes "17"
unfolding get_staking_info rest_api to_string
delegations_add_up = refl

abbrev staking : StakeRequest
staking = record {
  delegator = codes "sultan1a";
  stake_validator = codes "sultanval1";
  stake_amount = codes "5";
  stake_signature = codes "ab";
  stake_public_key = codes "cd";
}

abbrev unstaking : UnstakeRequest
unstaking = record {
  delegator = codes "sultan1a";
  stake_amount = codes "5";
  stake_signature = codes "ab";
  stake_public_key = codes "cd";
}

abbrev claiming : ClaimRewardsRequest
claiming = record {
  delegator = codes "sultan1a";
  stake_signature = codes "ab";
  stake_public_key = codes "cd";
}
