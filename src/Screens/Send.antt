-- ===== src/Screens/Send.antt =====
-- wallet-extension/src/screens/Send.tsx: the form, the confirmation, the PIN and the transaction.
pub mod Guard
pub mod Posted
mod Tests
use xv.Prelude.{
  ◌==◌, if◌then◌else◌, length, all, ◌||◌, ◌&&◌, not, ℕ, Option, List, Bool, ◌∷◌, [], some, none,
  false, true, suc,
}
use xv.Prelude.Int.{ℤ, pos, negsuc}
use xv.Prelude.Decimal.{to_string}
use xv.Screens.Signer.{
  or_failed, bigint_text, ScreenError, bad_recipient, bad_amount, pin_needed, pin_incorrect,
  not_a_number, pin_refused, wallet_failed, api_failed, PinCheck, incomplete, incorrect, refused,
  verified, handle_pin_change, check_pin, Readings, empty_pin, Signer,
}
use xv.Prelude.Result.{Result, err, ok}
use xv.Wallet.Accounts.{
  str, num, sign_transaction, memo_or_empty, SultanWallet, WalletError, JsonValue, Packages,
  SultanAccount, SultanTransaction,
}
use xv.Platform.{TextCodec}
use xv.Security.Address.{validate_sultan_only_address, AddressError}
use xv.Platform.Floats.{Floats}
use xv.Prelude.Text.{codes, Text}
use xv.Security.Amount.{validate_amount, is_high_value_transaction, AmountError}
use xv.Api.Request.{Trace, Network, ApiError}
use xv.Api.Readers.{Readers}
use xv.Security.SessionPin.{SessionPinError}
use xv.Wallet.Amount.{parse_sltn, format_sltn}
use xv.Security.Lockout.{Entry}
use xv.Api.Ledger.{broadcast_transaction, get_nonce}

pub data Step : Type 0 where
  on_form on_confirm on_pin on_success : Step

-- The component's state.
pub record SendForm : Type 0 where
  pub step : Step
  pub recipient : Text
  pub amount : Text
  pub memo : Text
  pub error : Option ScreenError
  pub is_loading : Bool
  pub tx_hash : Text
  pub high_value_warning : Bool
  pub pin : List Text

-- The form with what the hooks give it: the balance, the wallet and the rest.
pub record Sending : Type 0 where
  pub form : SendForm
  pub available : ℤ
  pub signer : Signer

-- What the user does on the screen, and what the hooks change meanwhile.
pub data SendEvent : Type 0 where
  recipient_typed amount_typed memo_typed : Text → SendEvent
  max_clicked continue_clicked back_clicked confirm_clicked pin_back_clicked : SendEvent
  pin_typed : ℕ → Text → SendEvent
  pin_submitted : Readings → SendEvent
  balance_loaded : ℤ → SendEvent
  wallet_changed : Option SultanWallet → Option SultanAccount → Option Text → Entry → SendEvent

abbrev pub initial_form : SendForm
initial_form = record {
  step = on_form;
  recipient = [];
  amount = [];
  memo = [];
  error = none;
  is_loading = false;
  tx_hash = [];
  high_value_warning = false;
  pin = empty_pin;
}

abbrev pub is_step : Step → Step → Bool
is_step on_form on_form = true
is_step on_confirm on_confirm = true
is_step on_pin on_pin = true
is_step on_success on_success = true
is_step _ _ = false

-- pin.some(d => !d)
abbrev pub has_empty_field : List Text → Bool
has_empty_field pin = not (all (λ d. not (length d == 0)) pin)

-- The controls of each step, those that are not disabled.
unfoldable pub is_offered : SendForm → SendEvent → Bool
is_offered f (recipient_typed t) = is_step f.step on_form
is_offered f (amount_typed t) = is_step f.step on_form
is_offered f (memo_typed t) = is_step f.step on_form
is_offered f max_clicked = is_step f.step on_form
is_offered f continue_clicked = is_step f.step on_form
is_offered f back_clicked = is_step f.step on_confirm && not f.is_loading
is_offered f confirm_clicked = is_step f.step on_confirm && not f.is_loading
is_offered f (pin_typed i value) = is_step f.step on_pin
is_offered f pin_back_clicked = is_step f.step on_pin && not f.is_loading
is_offered f (pin_submitted r) =
    is_step f.step on_pin && not (f.is_loading || has_empty_field f.pin)
is_offered f (balance_loaded b) = true
is_offered f (wallet_changed w a h e) = true

-- txData
abbrev pub transaction_data : SultanTransaction → List (Text × JsonValue)
transaction_data tx =
    (codes "from", str tx.from_address)
    ∷ (codes "to", str tx.to_address)
    ∷ (codes "amount", str tx.amount)
    ∷ (codes "memo", str (memo_or_empty tx.memo))
    ∷ (codes "nonce", num tx.nonce)
    ∷ (codes "timestamp", num tx.timestamp)
    ∷ []

abbrev pub sent_transaction : SendForm → SultanAccount → ℤ → ℕ → ℕ → SultanTransaction
sent_transaction f a atomic nonce now = record {
  from_address = a.address;
  to_address = f.recipient;
  amount = bigint_text atomic;
  memo = some f.memo;
  nonce = nonce;
  timestamp = now;
}

-- The end of the try block, or the catch block; then the finally block.
unfoldable pub executed : Result ScreenError Text → SendForm → SendForm
executed (err e) f = record f { error = some e; is_loading = false }
executed (ok hash) f = record f { tx_hash = hash; step = on_success; is_loading = false }

module _ {F : Type 0} (floats : Floats F) where
  -- The balance is printed for the comparison.
  unfoldable pub validate_form : ℤ → SendForm → Option ScreenError
  unfolding validate_sultan_only_address validate_amount
  validate_form available f = elim (validate_sultan_only_address f.recipient) [
    | some e ↦ some (bad_recipient e)
    | none ↦ elim (validate_amount floats f.amount (format_sltn available) 9) [
      | some e ↦ some (bad_amount e)
      | none ↦ none
    ]
  ]

  unfoldable pub handle_continue : ℤ → SendForm → SendForm
  unfolding validate_form
  handle_continue available f = elim (validate_form available f) [
    | some e ↦ record f { error = some e }
    | none ↦ record f { error = none; step = on_confirm }
  ]

  unfoldable pub handle_confirm_to_pin : SendForm → SendForm
  unfolding is_high_value_transaction
  handle_confirm_to_pin f = record f {
    high_value_warning = is_high_value_transaction floats f.amount;
    error = none;
    pin = empty_pin;
    step = on_pin;
  }

module _ {J : Type 0} (codec : TextCodec) (packages : Packages) (readers : Readers J)
    (network : Network J) where
  -- The try block.
  unfoldable pub send_transaction :
      ℕ → SultanWallet → SultanAccount → SendForm → Trace → Trace × Result ScreenError Text
  unfolding parse_sltn get_nonce sign_transaction broadcast_transaction
  send_transaction now w a f t = elim (parse_sltn f.amount) [
    | err e ↦ (t, err not_a_number)
    | ok atomic ↦
        let (t', nonce) = get_nonce readers network a.address t in
        let tx = sent_transaction f a atomic nonce now in
        elim (sign_transaction codec packages (transaction_data tx) a.index w) [
          | err e ↦ (t', err (wallet_failed e))
          | ok signature ↦
              let (t'', r) =
                broadcast_transaction readers network
                  (record { transaction = tx; signature = signature; public_key = a.public_key })
                  t' in
              (t'', or_failed r)
        ]
  ]

  -- Without a wallet or an account nothing happens, and the screen goes on loading.
  unfoldable pub execute_transaction : ℕ → Sending → Sending
  unfolding send_transaction executed
  execute_transaction now s = elim s.signer.wallet [
    | none ↦ s
    | some w ↦ elim s.signer.current_account [
      | none ↦ s
      | some a ↦
          let (t, r) = send_transaction now w a s.form s.signer.trace in
          record s { form = executed r s.form; signer = record s.signer { trace = t } }
    ]
  ]

  -- What the handler does after the PIN's check.
  unfoldable pub after_pin_check : Readings → Sending → Signer → PinCheck → Sending
  unfolding execute_transaction
  after_pin_check r s signer incomplete = record s {
    form = record s.form { error = some pin_needed };
  }
  after_pin_check r s signer incorrect = record s {
    form = record s.form { error = some pin_incorrect; pin = empty_pin; is_loading = false };
    signer = signer;
  }
  after_pin_check r s signer (refused e) = record s {
    form = record s.form { error = some (pin_refused e); is_loading = false };
    signer = signer;
  }
  after_pin_check r s signer verified =
      execute_transaction r.signed_at
        (record s { form = record s.form { error = none; is_loading = true }; signer = signer })

  unfoldable pub handle_pin_submit : Readings → Sending → Sending
  unfolding check_pin after_pin_check
  handle_pin_submit r s =
      let (signer, check) = check_pin codec packages.sha256 r s.form.pin s.signer in
      after_pin_check r s signer check

  module _ {F : Type 0} (floats : Floats F) where
    -- The handler of each control.
    unfoldable pub handle_send : SendEvent → Sending → Sending
    unfolding handle_continue handle_confirm_to_pin handle_pin_change handle_pin_submit
    handle_send (recipient_typed t) s = record s { form = record s.form { recipient = t } }
    handle_send (amount_typed t) s = record s { form = record s.form { amount = t } }
    handle_send (memo_typed t) s = record s { form = record s.form { memo = t } }
    handle_send max_clicked s = record s {
      form = record s.form { amount = format_sltn s.available };
    }
    handle_send continue_clicked s = record s { form = handle_continue floats s.available s.form }
    handle_send back_clicked s = record s { form = record s.form { step = on_form } }
    handle_send confirm_clicked s = record s { form = handle_confirm_to_pin floats s.form }
    handle_send (pin_typed i value) s = record s {
      form = record s.form { pin = handle_pin_change i value s.form.pin };
    }
    handle_send pin_back_clicked s = record s {
      form = record s.form { step = on_confirm; pin = empty_pin; error = none };
    }
    handle_send (pin_submitted r) s = handle_pin_submit r s
    handle_send (balance_loaded b) s = record s { available = b }
    handle_send (wallet_changed w a h e) s = record s {
      signer = record s.signer {
        wallet = w;
        current_account = a;
        session_pin_hash = h;
        lockout = e;
      };
    }

    unfoldable pub after_send : SendEvent → Sending → Sending
    unfolding is_offered handle_send
    after_send e s = if is_offered s.form e then handle_send e s else s
