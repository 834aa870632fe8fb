-- ===== src/Screens/Validator/Tests.antt =====
-- The guide with a balance of twelve thousand SLTN.
use xv.Prelude.{◌≢◌, List, ◌∷◌, [], some, none, false, refl, ◌≡◌}
use xv.Screens.Validator.{
  pin_step, has_minimum_stake, initial_validator_form, ValidatorEvent, is_offered, Funding,
  handle_fund_validator, start_clicked, installed_clicked, continue_clicked, fund_clicked,
  address_typed,
}
use xv.Screens.Validator.Funded.{after_validator}
use xv.Screens.Validator.Blocked.{no_validator_is_funded}
use xv.Screens.Guarded.{run_events}
use xv.Platform.Samples.{one_byte}
use xv.Security.Address.{unknown_format, validate_address}
use xv.Prelude.Text.{codes}
use xv.Wallet.Accounts.Samples.{toy_packages}
use xv.Security.Amount.Samples.{billionths}
use xv.Wallet.Amount.{format_sltn}
use xv.Prelude.Int.{pos}
use xv.Security.Lockout.{absent}
use xv.Screens.Signer.{bad_recipient}
use xv.Prelude.Decimal.{to_string}
use xv.Api.Samples.{node, number_readers}

abbrev a_funding : Funding
a_funding = record {
  form = initial_validator_form;
  available = pos 12000000000000;
  signer = record {
    wallet = none;
    current_account = none;
    session_pin_hash = none;
    lockout = absent;
    trace = [];
  };
}

abbrev whole_guide : List ValidatorEvent
whole_guide =
    start_clicked
    ∷ installed_clicked
    ∷ address_typed (codes "sltn1abc")
    ∷ continue_clicked
    ∷ fund_clicked
    ∷ []

no_validator_is_funded_example :
    ((run_events
        (after_validator one_byte toy_packages number_readers node billionths)
        whole_guide
        a_funding).form.step
      ≢ pin_step)
    × ((run_events
          (after_validator one_byte toy_packages number_readers node billionths)
          whole_guide
          a_funding).signer.trace
        ≡ [])
no_validator_is_funded_example =
    no_validator_is_funded one_byte toy_packages number_readers node billionths whole_guide
      a_funding refl

twelve_thousand_do_not_start : is_offered billionths a_funding start_clicked ≡ false
unfolding is_offered has_minimum_stake format_sltn to_string
twelve_thousand_do_not_start = refl

node_address_is_refused :
    (handle_fund_validator billionths
      (pos 12000000000000)
      (record initial_validator_form { validator_address = codes "sltn1abc" })).error
    ≡ some (bad_recipient unknown_format)
unfolding handle_fund_validator validate_address
node_address_is_refused = refl
