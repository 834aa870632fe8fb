-- ===== src/Screens/Send/Guard.antt =====
-- Nothing of the screen reaches the network without the session's PIN.
use xv.Prelude.{◌⊎◌, List, if◌then◌else◌, Bool, inr, inl, false, true, ◌≡◌, refl}
use xv.Screens.Guarded.{run_events, OpenedIn, quiet_or_opened}
use xv.Screens.Signer.Checked.{PinVerified, check_pin-verified, trace-check_pin}
use xv.Platform.{TextCodec}
use xv.Screens.Send.{
  after_pin_check, recipient_typed, amount_typed, memo_typed, max_clicked, continue_clicked,
  back_clicked, confirm_clicked, pin_back_clicked, pin_typed, balance_loaded, wallet_changed,
  is_offered, pin_submitted, handle_pin_submit, SendEvent, after_send, Sending,
}
use xv.Wallet.Accounts.{Packages}
use xv.Api.Request.{Network, Trace}
use xv.Api.Readers.{Readers}
use xv.Platform.Floats.{Floats}
use xv.Screens.Signer.{
  Signer, refused, verified, incomplete, incorrect, check_pin, PinCheck, Readings,
}

abbrev pub trace_of : Sending → Trace
trace_of s = s.signer.trace

trace-if :
    (b : Bool) (x s : Sending)
    → trace_of x ≡ trace_of s
    → trace_of (if b then x else s) ≡ trace_of s
trace-if true x s h = h
trace-if false x s h = refl

module _ {F J : Type 0} (codec : TextCodec) (packages : Packages) (readers : Readers J)
    (network : Network J) (floats : Floats F) where
  -- The event submits a PIN that the session's check accepts.
  abbrev pub SendConfirmed : SendEvent → Sending → Type 0
  SendConfirmed e s =
      (r : Readings) × (e ≡ pin_submitted r)
      × PinVerified codec packages.sha256 r s.form.pin s.signer

  submit-guarded :
      (r : Readings) (s : Sending)
      → (trace_of (handle_pin_submit codec packages readers network r s) ≡ trace_of s)
        ⊎ PinVerified codec packages.sha256 r s.form.pin s.signer
  unfolding handle_pin_submit after_pin_check
  submit-guarded r s = by_check (check_pin codec packages.sha256 r s.form.pin s.signer).1 refl
    where
      signer : Signer
      signer = (check_pin codec packages.sha256 r s.form.pin s.signer).0

      by_check :
          (c : PinCheck)
          → (check_pin codec packages.sha256 r s.form.pin s.signer).1 ≡ c
          → (trace_of (after_pin_check codec packages readers network r s signer c) ≡ trace_of s)
            ⊎ PinVerified codec packages.sha256 r s.form.pin s.signer
      by_check verified h = inr (check_pin-verified codec packages.sha256 r s.form.pin s.signer h)
      by_check incomplete h = inl refl
      by_check incorrect h = inl (trace-check_pin codec packages.sha256 r s.form.pin s.signer)
      by_check (refused e) h = inl (trace-check_pin codec packages.sha256 r s.form.pin s.signer)

  event-guarded :
      (e : SendEvent) (s : Sending)
      → (trace_of (after_send codec packages readers network floats e s) ≡ trace_of s)
        ⊎ SendConfirmed e s
  unfolding after_send
  event-guarded (pin_submitted r) s = elim (submit-guarded r s) [
    | inl same ↦ inl (trace-if (is_offered s.form (pin_submitted r)) _ s same)
    | inr ok_pin ↦ inr (r, refl, ok_pin)
  ]
  event-guarded (recipient_typed t) s =
      inl (trace-if (is_offered s.form (recipient_typed t)) _ s refl)
  event-guarded (amount_typed t) s = inl (trace-if (is_offered s.form (amount_typed t)) _ s refl)
  event-guarded (memo_typed t) s = inl (trace-if (is_offered s.form (memo_typed t)) _ s refl)
  event-guarded max_clicked s = inl (trace-if (is_offered s.form max_clicked) _ s refl)
  event-guarded continue_clicked s = inl (trace-if (is_offered s.form continue_clicked) _ s refl)
  event-guarded back_clicked s = inl (trace-if (is_offered s.form back_clicked) _ s refl)
  event-guarded confirm_clicked s = inl (trace-if (is_offered s.form confirm_clicked) _ s refl)
  event-guarded pin_back_clicked s = inl (trace-if (is_offered s.form pin_back_clicked) _ s refl)
  event-guarded (pin_typed i v) s = inl (trace-if (is_offered s.form (pin_typed i v)) _ s refl)
  event-guarded (balance_loaded b) s = inl refl
  event-guarded (wallet_changed w a h e) s = inl refl

  -- Over any events of the Send screen, either nothing was requested of the network, or one of them
  -- submitted a PIN that the session's check accepted in the state that it met.
  pub pin_guards_sending :
      (es : List SendEvent) (s : Sending)
      → (trace_of (run_events (after_send codec packages readers network floats) es s) ≡ trace_of s)
        ⊎ OpenedIn (after_send codec packages readers network floats) SendConfirmed es s
  pin_guards_sending =
      quiet_or_opened (after_send codec packages readers network floats) SendConfirmed trace_of
        event-guarded
