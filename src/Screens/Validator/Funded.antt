-- ===== src/Screens/Validator/Funded.antt =====
-- The payment of wallet-extension/src/screens/BecomeValidator.tsx behind the PIN, and the screen's events.
use xv.Prelude.{if◌then◌else◌, some, none, false, true}
use xv.Screens.Signer.{
  handle_pin_change, empty_pin, Signer, Readings, ScreenError, pin_needed, pin_incorrect,
  pin_refused, not_a_number, PinCheck, incomplete, incorrect, verified, refused, sign_and_post,
  check_pin,
}
use xv.Wallet.Accounts.{SultanWallet, Packages, SultanAccount}
use xv.Prelude.Result.{Result, err, ok}
use xv.Prelude.Text.{Text}
use xv.Platform.Floats.{Floats}
use xv.Platform.{TextCodec}
use xv.Wallet.Amount.{parse_sltn}
use xv.Api.Readers.{Readers}
use xv.Api.Request.{Trace, Network}
use xv.Api.Ledger.{broadcast_transaction, get_nonce}
use xv.Screens.Validator.{
  funding_transaction, funding_data, minimum_stake, ValidatorForm, ValidatorEvent, Funding,
  is_offered, moniker_or_default, funded, handle_fund_validator, header_back_clicked, start_clicked,
  installed_clicked, continue_clicked, fund_clicked, pin_back_clicked, address_typed, moniker_typed,
  pin_typed, pin_submitted, balance_loaded, wallet_changed, overview_step, server_step,
  address_step, fund_step,
}

module _ {J : Type 0} (codec : TextCodec) (packages : Packages) (readers : Readers J)
    (network : Network J) where
  -- The try block.
  unfoldable pub fund_validator :
      Readings
      → SultanWallet
      → SultanAccount
      → ValidatorForm
      → Trace
      → Trace × Result ScreenError Text
  unfolding parse_sltn get_nonce sign_and_post broadcast_transaction moniker_or_default
  fund_validator r w a f t = elim (parse_sltn minimum_stake) [
    | err e ↦ (t, err not_a_number)
    | ok atomic ↦
        let (t', nonce) = get_nonce readers network a.address t in
        sign_and_post codec packages w a (funding_data f a atomic nonce r.signed_at)
          (λ signature.
            broadcast_transaction readers network
              (funding_transaction f a atomic nonce r.posted_at signature))
          t'
  ]

  -- Without a wallet or an account nothing happens, and the screen goes on loading.
  unfoldable pub execute_fund_validator : Readings → Funding → Funding
  unfolding fund_validator funded
  execute_fund_validator r s = elim s.signer.wallet [
    | none ↦ s
    | some w ↦ elim s.signer.current_account [
      | none ↦ s
      | some a ↦
          let (t, result) = fund_validator r w a s.form s.signer.trace in
          record s { form = funded result s.form; signer = record s.signer { trace = t } }
    ]
  ]

  -- What the handler does after the PIN's check.
  unfoldable pub after_pin_check : Readings → Funding → Signer → PinCheck → Funding
  unfolding execute_fund_validator
  after_pin_check r s signer incomplete = record s {
    form = record s.form { error = some pin_needed };
  }
  after_pin_check r s signer incorrect = record s {
    form = record s.form { error = some pin_incorrect; pin = empty_pin; is_loading = false };
    signer = signer;
  }
  after_pin_check r s signer (refused e) = record s {
    form = record s.form { error = some (pin_refused e); is_loading = false };
    signer = signer;
  }
  after_pin_check r s signer verified =
      execute_fund_validator r
        (record s { form = record s.form { error = none; is_loading = true }; signer = signer })

  unfoldable pub handle_pin_submit : Readings → Funding → Funding
  unfolding check_pin after_pin_check
  handle_pin_submit r s =
      let (signer, check) = check_pin codec packages.sha256 r s.form.pin s.signer in
      after_pin_check r s signer check

  module _ {F : Type 0} (floats : Floats F) where
    unfoldable pub handle_event : ValidatorEvent → Funding → Funding
    unfolding handle_fund_validator handle_pin_change handle_pin_submit
    handle_event header_back_clicked s = record s { form = record s.form { step = overview_step } }
    handle_event start_clicked s = record s { form = record s.form { step = server_step } }
    handle_event installed_clicked s = record s { form = record s.form { step = address_step } }
    handle_event continue_clicked s = record s { form = record s.form { step = fund_step } }
    handle_event fund_clicked s = record s {
      form = handle_fund_validator floats s.available s.form;
    }
    handle_event pin_back_clicked s = record s {
      form = record s.form { step = fund_step; pin = empty_pin; error = none };
    }
    handle_event (address_typed t) s = record s { form = record s.form { validator_address = t } }
    handle_event (moniker_typed t) s = record s { form = record s.form { moniker = t } }
    handle_event (pin_typed i value) s = record s {
      form = record s.form { pin = handle_pin_change i value s.form.pin };
    }
    handle_event (pin_submitted r) s = handle_pin_submit r s
    handle_event (balance_loaded b) s = record s { available = b }
    handle_event (wallet_changed w a h e) s = record s {
      signer = record s.signer {
        wallet = w;
        current_account = a;
        session_pin_hash = h;
        lockout = e;
      };
    }

    unfoldable pub after_validator : ValidatorEvent → Funding → Funding
    unfolding is_offered handle_event
    after_validator e s = if is_offered floats s e then handle_event e s else s
