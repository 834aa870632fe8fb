-- ===== src/Screens/Validator.antt =====
-- wallet-extension/src/screens/BecomeValidator.tsx: the guide, the form and the payment that funds a
-- validator. Copying the command of the guide and the navigation after a success are the browser's.
pub mod Funded
pub mod Blocked
mod Tests
use xv.Prelude.{
  if◌then◌else◌, ◌||◌, ◌++◌, ◌&&◌, List, not, Option, Bool, ◌∷◌, [], some, none, false, true, ℕ,
}
use xv.Screens.Signer.{
  handle_pin_change, bigint_text, empty_pin, Signer, Readings, ScreenError, bad_amount, bad_moniker,
  bad_recipient, pin_needed, pin_incorrect, pin_refused, not_a_number, PinCheck, incomplete,
  incorrect, verified, refused, sign_and_post, check_pin,
}
use xv.Wallet.Accounts.{
  SultanWallet, Packages, SignedTransaction, SultanAccount, JsonValue, str, num,
}
use xv.Prelude.Result.{Result, err, ok}
use xv.Prelude.Text.{codes, strip_prefix, Text, trim}
use xv.Security.Moniker.{validate_moniker}
use xv.Prelude.Int.{ℤ}
use xv.Platform.Floats.{Floats}
use xv.Security.Address.{invalid, valid, validate_address}
use xv.Platform.{TextCodec}
use xv.Wallet.Amount.{parse_sltn, format_sltn}
use xv.Security.Amount.{validate_amount}
use xv.Api.Readers.{Readers}
use xv.Security.Lockout.{Entry}
use xv.Api.Request.{Trace, Network}
use xv.Screens.Send.{has_empty_field}
use xv.Api.Ledger.{broadcast_transaction, get_nonce}

pub data ValidatorStep : Type 0 where
  overview_step server_step address_step fund_step pin_step : ValidatorStep

-- The component's state; there is one message of success.
pub record ValidatorForm : Type 0 where
  pub step : ValidatorStep
  pub validator_address : Text
  pub moniker : Text
  pub is_loading : Bool
  pub error : Option ScreenError
  pub has_succeeded : Bool
  pub pin : List Text

pub record Funding : Type 0 where
  pub form : ValidatorForm
  pub available : ℤ
  pub signer : Signer

pub data ValidatorEvent : Type 0 where
  header_back_clicked start_clicked installed_clicked continue_clicked : ValidatorEvent
  fund_clicked pin_back_clicked : ValidatorEvent
  address_typed moniker_typed : Text → ValidatorEvent
  pin_typed : ℕ → Text → ValidatorEvent
  pin_submitted : Readings → ValidatorEvent
  balance_loaded : ℤ → ValidatorEvent
  wallet_changed : Option SultanWallet → Option SultanAccount → Option Text → Entry → ValidatorEvent

abbrev pub initial_validator_form : ValidatorForm
initial_validator_form = record {
  step = overview_step;
  validator_address = [];
  moniker = [];
  is_loading = false;
  error = none;
  has_succeeded = false;
  pin = empty_pin;
}

abbrev pub is_at : ValidatorStep → ValidatorStep → Bool
is_at overview_step overview_step = true
is_at server_step server_step = true
is_at address_step address_step = true
is_at fund_step fund_step = true
is_at pin_step pin_step = true
is_at _ _ = false

-- validatorAddress.startsWith('sltn1')
abbrev pub starts_with_sltn : Text → Bool
starts_with_sltn s = elim (strip_prefix (codes "sltn1") s) [ none ↦ false | some rest ↦ true ]

-- moniker.trim() || 'Sultan Validator'
unfoldable pub moniker_or_default : Text → Text
unfolding trim
moniker_or_default moniker = elim (trim moniker) [ [] ↦ codes "Sultan Validator" | c ∷ s ↦ c ∷ s ]

abbrev pub minimum_stake : Text
minimum_stake = codes "10000"

unfoldable pub address_error : Text → Option ScreenError
unfolding validate_address
address_error address = elim (validate_address address) [
  | invalid e ↦ some (bad_recipient e)
  | valid chain name token ↦ none
]

unfoldable pub moniker_error : Text → Option ScreenError
unfolding validate_moniker moniker_or_default
moniker_error moniker = elim (validate_moniker (moniker_or_default moniker)) [
  | err e ↦ some (bad_moniker e)
  | ok sanitized ↦ none
]

-- txData
abbrev pub funding_data : ValidatorForm → SultanAccount → ℤ → ℕ → ℕ → List (Text × JsonValue)
funding_data f a atomic nonce now =
    (codes "type", str (codes "fund_validator"))
    ∷ (codes "from", str a.address)
    ∷ (codes "to", str f.validator_address)
    ∷ (codes "amount", str (bigint_text atomic))
    ∷ (codes "moniker", str (moniker_or_default f.moniker))
    ∷ (codes "nonce", num nonce)
    ∷ (codes "timestamp", num now)
    ∷ []

-- The transaction that is posted, with the clock's later reading.
abbrev pub funding_transaction :
    ValidatorForm → SultanAccount → ℤ → ℕ → ℕ → Text → SignedTransaction
funding_transaction f a atomic nonce now signature = record {
  transaction = record {
    from_address = a.address;
    to_address = f.validator_address;
    amount = bigint_text atomic;
    memo = some (codes "validator:" ++ moniker_or_default f.moniker);
    nonce = nonce;
    timestamp = now;
  };
  signature = signature;
  public_key = a.public_key;
}

-- The end of the try block, or the catch block; then the finally block.
unfoldable pub funded : Result ScreenError Text → ValidatorForm → ValidatorForm
funded (err e) f = record f { error = some e; is_loading = false }
funded (ok hash) f = record f { has_succeeded = true; is_loading = false }

module _ {F : Type 0} (floats : Floats F) where
  -- parseFloat(availableBalance) >= 10000
  unfoldable pub has_minimum_stake : ℤ → Bool
  unfolding format_sltn
  has_minimum_stake available =
      floats.le (floats.of_ℕ 10000) (floats.parse_float (format_sltn available))

  unfoldable pub handle_fund_validator : ℤ → ValidatorForm → ValidatorForm
  unfolding address_error moniker_error validate_amount
  handle_fund_validator available f = elim (address_error f.validator_address) [
    | some e ↦ record f { error = some e }
    | none ↦ elim (moniker_error f.moniker) [
      | some e ↦ record f { error = some e }
      | none ↦ elim (validate_amount floats minimum_stake (format_sltn available) 9) [
        | some e ↦ record f { error = some (bad_amount e) }
        | none ↦ record f { error = none; pin = empty_pin; step = pin_step }
      ]
    ]
  ]

  -- The controls of each step, those that are not disabled.
  unfoldable pub is_offered : Funding → ValidatorEvent → Bool
  unfolding has_minimum_stake
  is_offered s header_back_clicked = not (is_at s.form.step overview_step)
  is_offered s start_clicked = is_at s.form.step overview_step && has_minimum_stake s.available
  is_offered s installed_clicked = is_at s.form.step server_step
  is_offered s (address_typed t) = is_at s.form.step address_step
  is_offered s (moniker_typed t) = is_at s.form.step address_step
  is_offered s continue_clicked =
      is_at s.form.step address_step && starts_with_sltn s.form.validator_address
  is_offered s fund_clicked = is_at s.form.step fund_step && not s.form.is_loading
  is_offered s (pin_typed i value) = is_at s.form.step pin_step
  is_offered s pin_back_clicked = is_at s.form.step pin_step && not s.form.is_loading
  is_offered s (pin_submitted r) =
      is_at s.form.step pin_step && not (s.form.is_loading || has_empty_field s.form.pin)
  is_offered s (balance_loaded b) = true
  is_offered s (wallet_changed w a h e) = true
