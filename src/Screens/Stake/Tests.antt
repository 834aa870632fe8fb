-- ===== src/Screens/Stake/Tests.antt =====
-- Staking over toy packages and a toy node.
use xv.Prelude.{◌⊎◌, ◌↔◌, ◌∷◌, [], some, none, refl, ◌≡◌}
use xv.Wallet.Accounts.Signing.{created}
use xv.Screens.Stake.Guard.{StakeConfirmed, trace_of, pin_guards_staking}
use xv.Screens.Stake.Listed.{Listed, stake_asks_for_pin_iff}
use xv.Screens.Stake.Posted.{request_of, data_of, ActionPosted, confirmed_action_is_posted}
use xv.Wallet.Accounts.Samples.{toy_packages, toy_laws, toy_created, first_account}
use xv.Screens.Stake.{
  validators_tab, pin_submitted, search_typed, initial_stake_form, Staking, Validator, is_active,
  is_jailed, StakeForm, StakeData, handle_stake, at_pin, stake_action,
}
use xv.Screens.Stake.Actions.{handle_pin_submit, after_stake}
use xv.Screens.Signer.{Readings, Signer}
use xv.Wallet.Amount.{format_sltn, parse_sltn}
use xv.Security.SessionPin.{hash_pin_for_verification, verify_session_pin}
use xv.Prelude.Int.{pos}
use xv.Platform.Samples.{one_byte}
use xv.Security.Lockout.{absent, is_locked_out}
use xv.Prelude.Text.{codes}
use xv.Screens.Guarded.{OpenedIn, run_events}
use xv.Security.Amount.Samples.{billionths}
use xv.Api.Samples.{node, number_readers}
use xv.Security.Amount.{validate_amount}
use xv.Security.ConstantTime.{diff_bits, constant_time_equal}
use xv.Prelude.Hex.{to_hex, bytes_to_hex}
use xv.Api.Ledger.Nonces.{nonce_at}
use xv.Screens.Signer.Checked.{PinVerified}

abbrev one_validator : Validator
one_validator = record {
  validator_address = codes "sultanval1";
  validator_name = codes "One";
  validator_status = is_active;
}

abbrev two_validator : Validator
two_validator = record {
  validator_address = codes "sultanval2";
  validator_name = codes "Two";
  validator_status = is_jailed;
}

abbrev a_signer : Signer
a_signer = record {
  wallet = some toy_created.0;
  current_account = some first_account;
  session_pin_hash = some (codes "3c");
  lockout = absent;
  trace = [];
}

abbrev some_data : StakeData
some_data = record {
  available = pos 7000000000;
  staked = pos 0;
  pending_rewards = pos 0;
  validators = some (one_validator ∷ two_validator ∷ []);
}

abbrev chosen : StakeForm
chosen = record initial_stake_form { amount = codes "2.5"; selected_validator = some two_validator }

abbrev filled : Staking
filled = record { form = chosen; loaded = some_data; signer = a_signer }

abbrev asked : Staking
asked = record filled {
  form = record chosen {
    step = at_pin;
    pending_action = some stake_action;
    pin = codes "2" ∷ codes "7" ∷ codes "1" ∷ codes "8" ∷ codes "2" ∷ codes "8" ∷ [];
  };
}

abbrev some_readings : Readings
some_readings = record {
  locked_at = 5;
  remaining_at = 6;
  failed_at = (7, 8, 9);
  signed_at = 10;
  posted_at = 11;
}

a_pin_is_verified : PinVerified one_byte toy_packages.sha256 some_readings asked.form.pin a_signer
unfolding verify_session_pin is_locked_out hash_pin_for_verification constant_time_equal
    bytes_to_hex diff_bits to_hex
a_pin_is_verified = refl

confirmed_action_is_posted_example :
    ActionPosted one_byte toy_packages number_readers node first_account
      (data_of stake_action first_account two_validator 2500000000 10)
      (request_of stake_action first_account two_validator 2500000000
        (nonce_at number_readers node first_account.address [])
        11)
      []
      (handle_pin_submit one_byte toy_packages number_readers node some_readings asked).signer.trace
unfolding parse_sltn
confirmed_action_is_posted_example =
    confirmed_action_is_posted one_byte toy_packages number_readers node toy_laws toy_created.0
      (created (1 ∷ 2 ∷ 3 ∷ []) [] (codes "zoo") none toy_created.0 toy_created.1) first_account
      toy_created.2 stake_action some_readings asked two_validator 2500000000 refl refl refl refl
      refl refl a_pin_is_verified

pin_guards_staking_example :
    (trace_of (
        run_events
          (after_stake one_byte toy_packages number_readers node billionths)
          (pin_submitted some_readings ∷ [])
          asked)
      ≡ [])
    ⊎ OpenedIn
        (after_stake one_byte toy_packages number_readers node billionths)
        (StakeConfirmed one_byte toy_packages number_readers node billionths)
        (pin_submitted some_readings ∷ [])
        asked
pin_guards_staking_example =
    pin_guards_staking one_byte toy_packages number_readers node billionths
      (pin_submitted some_readings ∷ []) asked

stake_asks_for_pin_iff_example : ((handle_stake billionths filled).step ≡ at_pin) ↔ (
    (validate_amount billionths (codes "2.5") (format_sltn (pos 7000000000)) 9 ≡ none)
    × Listed (some (one_validator ∷ two_validator ∷ [])) two_validator)
stake_asks_for_pin_iff_example =
    stake_asks_for_pin_iff billionths filled toy_created.0 first_account two_validator refl refl
      refl refl

-- A search that is deleted again selects the first validator.
deleted_search_selects :
    (after_stake one_byte toy_packages number_readers node billionths
      (search_typed [])
      (record filled { form = record chosen { tab = validators_tab } })).form.selected_validator
    ≡ some one_validator
unfolding after_stake
deleted_search_selects = refl
