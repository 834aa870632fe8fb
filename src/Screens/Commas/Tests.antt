-- ===== src/Screens/Commas/Tests.antt =====
-- Balances and rewards of a thousand SLTN.
use xv.Prelude.{arith, [], some, none, false, ◌≡◌, refl}
use xv.Security.Amount.Samples.{billionths, billionths-CommaIsNaN}
use xv.Screens.Send.{SendForm, initial_form}
use xv.Screens.Stake.{
  is_offered, Validator, is_active, StakeData, Staking, initial_stake_form, claim_clicked,
}
use xv.Screens.Send.{Sending}
use xv.Screens.Signer.{Signer}
use xv.Wallet.Accounts.Samples.{toy_created, first_account}
use xv.Screens.Commas.{large_rewards_cannot_be_claimed}
use xv.Security.Lockout.{absent}
use xv.Prelude.Text.{codes}
use xv.Prelude.Int.{pos}

abbrev rich : StakeData
rich = record {
  available = pos 1000000000000;
  staked = pos 1000000000000;
  pending_rewards = pos 2500000000000;
  validators = none;
}

abbrev a_validator : Validator
a_validator = record {
  validator_address = codes "sultanval1";
  validator_name = codes "One";
  validator_status = is_active;
}

abbrev addressed : SendForm
addressed = record initial_form {
  recipient = codes "sultan1qpzry9x8gf2tvdw0s3jn54khce6mua7lqpzry9x8gf";
}

abbrev a_signer : Signer
a_signer = record {
  wallet = some toy_created.0;
  current_account = some first_account;
  session_pin_hash = none;
  lockout = absent;
  trace = [];
}

abbrev a_sending : Sending
a_sending = record { form = addressed; available = pos 1000000000000; signer = a_signer }

abbrev a_staking : Staking
a_staking = record {
  form = record initial_stake_form { selected_validator = some a_validator };
  loaded = rich;
  signer = a_signer;
}

large_rewards_cannot_be_claimed_example : is_offered billionths a_staking claim_clicked ≡ false
large_rewards_cannot_be_claimed_example =
    large_rewards_cannot_be_claimed billionths billionths-CommaIsNaN 2500000000000 a_staking
      (omega arith) refl
