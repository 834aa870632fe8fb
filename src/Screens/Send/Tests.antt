-- ===== src/Screens/Send/Tests.antt =====
-- A payment over toy packages and a toy node.
use xv.Wallet.Accounts.Signing.{created}
use xv.Prelude.Hex.{bytes_to_hex, to_hex}
use xv.Security.ConstantTime.{constant_time_equal, diff_bits}
use xv.Prelude.{◌⊎◌, false, ◌≡◌, ◌∷◌, [], some, none, refl}
use xv.Screens.Send.Guard.{SendConfirmed, trace_of, pin_guards_sending}
use xv.Screens.Send.Posted.{PaymentPosted, confirmed_payment_is_posted}
use xv.Wallet.Accounts.Samples.{toy_packages, toy_laws, toy_created, first_account}
use xv.Screens.Signer.{Signer, Readings}
use xv.Screens.Send.{
  handle_pin_submit, pin_submitted, pin_typed, on_pin, after_send, initial_form, SendForm, Sending,
}
use xv.Platform.Samples.{one_byte}
use xv.Security.SessionPin.{hash_pin_for_verification, verify_session_pin}
use xv.Screens.Guarded.{OpenedIn, run_events}
use xv.Api.Samples.{node, number_readers}
use xv.Prelude.Text.{codes}
use xv.Prelude.Int.{pos}
use xv.Security.Lockout.{record_failed_attempt, absent, is_locked_out}
use xv.Screens.Signer.Checked.{PinVerified}
use xv.Security.Amount.Samples.{billionths}
use xv.Wallet.Amount.{parse_sltn}
use xv.Api.Ledger.Nonces.{nonce_at}

abbrev a_form : SendForm
a_form = record initial_form {
  step = on_pin;
  recipient = codes "sultan1x";
  amount = codes "2.5";
  pin = codes "2" ∷ codes "7" ∷ codes "1" ∷ codes "8" ∷ codes "2" ∷ codes "8" ∷ [];
}

abbrev a_signer : Signer
a_signer = record {
  wallet = some toy_created.0;
  current_account = some first_account;
  session_pin_hash = some (codes "3c");
  lockout = absent;
  trace = [];
}

abbrev a_payment : Sending
a_payment = record { form = a_form; available = pos 7000000000; signer = a_signer }

abbrev some_readings : Readings
some_readings = record {
  locked_at = 5;
  remaining_at = 6;
  failed_at = (7, 8, 9);
  signed_at = 10;
  posted_at = 11;
}

a_pin_is_verified : PinVerified one_byte toy_packages.sha256 some_readings a_form.pin a_signer
unfolding verify_session_pin is_locked_out hash_pin_for_verification constant_time_equal
    bytes_to_hex diff_bits to_hex
a_pin_is_verified = refl

confirmed_payment_is_posted_example :
    PaymentPosted one_byte toy_packages number_readers node a_form first_account 2500000000
      (nonce_at number_readers node first_account.address [])
      10
      []
      (
        (handle_pin_submit one_byte toy_packages number_readers node some_readings
            a_payment).signer.trace,
        tt,
      )
    × ((handle_pin_submit one_byte toy_packages number_readers node some_readings
          a_payment).form.is_loading
        ≡ false)
unfolding parse_sltn
confirmed_payment_is_posted_example =
    confirmed_payment_is_posted one_byte toy_packages number_readers node toy_laws toy_created.0
      (created (1 ∷ 2 ∷ 3 ∷ []) [] (codes "zoo") none toy_created.0 toy_created.1) first_account
      toy_created.2 some_readings a_payment 2500000000 refl refl refl refl a_pin_is_verified

wrong_pin_sends_nothing :
    trace_of (
      run_events
        (after_send one_byte toy_packages number_readers node billionths)
        (pin_typed 0 (codes "3") ∷ pin_submitted some_readings ∷ [])
        a_payment)
    ≡ []
unfolding run_events after_send verify_session_pin is_locked_out hash_pin_for_verification
    record_failed_attempt constant_time_equal bytes_to_hex diff_bits to_hex
wrong_pin_sends_nothing = refl

pin_guards_sending_example :
    (trace_of (
        run_events
          (after_send one_byte toy_packages number_readers node billionths)
          (pin_submitted some_readings ∷ [])
          a_payment)
      ≡ [])
    ⊎ OpenedIn
        (after_send one_byte toy_packages number_readers node billionths)
        (SendConfirmed one_byte toy_packages number_readers node billionths)
        (pin_submitted some_readings ∷ [])
        a_payment
pin_guards_sending_example =
    pin_guards_sending one_byte toy_packages number_readers node billionths
      (pin_submitted some_readings ∷ []) a_payment
