-- ===== src/Screens/Stake/Guard.antt =====
-- Nothing of the screen reaches the network without the session's PIN.
use xv.Prelude.{◌⊎◌, List, if◌then◌else◌, Bool, inr, inl, false, true, ◌≡◌, refl}
use xv.Screens.Guarded.{run_events, OpenedIn, quiet_or_opened}
use xv.Screens.Signer.Checked.{PinVerified, check_pin-verified, trace-check_pin}
use xv.Screens.Signer.{
  PinCheck, check_pin, Signer, Readings, refused, verified, incomplete, incorrect,
}
use xv.Screens.Stake.{
  is_offered, StakeEvent, Staking, tab_clicked, amount_typed, search_typed, max_clicked,
  action_clicked, claim_clicked, cancel_clicked, validator_clicked, pin_typed, pin_submitted,
  data_loaded, wallet_changed,
}
use xv.Platform.{TextCodec}
use xv.Wallet.Accounts.{Packages}
use xv.Api.Request.{Network, Trace}
use xv.Api.Readers.{Readers}
use xv.Platform.Floats.{Floats}
use xv.Screens.Stake.Actions.{after_pin_check, handle_pin_submit, after_stake, handle_event}

abbrev pub trace_of : Staking → Trace
trace_of s = s.signer.trace

trace-if :
    (b : Bool) (x s : Staking)
    → trace_of x ≡ trace_of s
    → trace_of (if b then x else s) ≡ trace_of s
trace-if true x s h = h
trace-if false x s h = refl

module _ {F J : Type 0} (codec : TextCodec) (packages : Packages) (readers : Readers J)
    (network : Network J) (floats : Floats F) where
  -- The event submits a PIN that the session's check accepts.
  abbrev pub StakeConfirmed : StakeEvent → Staking → Type 0
  StakeConfirmed e s =
      (r : Readings) × (e ≡ pin_submitted r)
      × PinVerified codec packages.sha256 r s.form.pin s.signer

  submit-guarded :
      (r : Readings) (s : Staking)
      → (trace_of (handle_pin_submit codec packages readers network r s) ≡ trace_of s)
        ⊎ PinVerified codec packages.sha256 r s.form.pin s.signer
  unfolding handle_pin_submit after_pin_check
  submit-guarded r s = by_check (check_pin codec packages.sha256 r s.form.pin s.signer).1 refl
    where
      signer : Signer
      signer = (check_pin codec packages.sha256 r s.form.pin s.signer).0

      by_check :
          (c : PinCheck)
          → (check_pin codec packages.sha256 r s.form.pin s.signer).1 ≡ c
          → (trace_of (after_pin_check codec packages readers network r s signer c) ≡ trace_of s)
            ⊎ PinVerified codec packages.sha256 r s.form.pin s.signer
      by_check verified h = inr (check_pin-verified codec packages.sha256 r s.form.pin s.signer h)
      by_check incomplete h = inl refl
      by_check incorrect h = inl (trace-check_pin codec packages.sha256 r s.form.pin s.signer)
      by_check (refused e) h = inl (trace-check_pin codec packages.sha256 r s.form.pin s.signer)

  handled-guarded :
      (e : StakeEvent) (s : Staking)
      → (trace_of (handle_event codec packages readers network floats e s) ≡ trace_of s)
        ⊎ StakeConfirmed e s
  unfolding handle_event
  handled-guarded (pin_submitted r) s = elim (submit-guarded r s) [
    | inl same ↦ inl same
    | inr ok_pin ↦ inr (r, refl, ok_pin)
  ]
  handled-guarded (tab_clicked t) s = inl refl
  handled-guarded (amount_typed t) s = inl refl
  handled-guarded (search_typed t) s = inl refl
  handled-guarded max_clicked s = inl refl
  handled-guarded action_clicked s = inl refl
  handled-guarded claim_clicked s = inl refl
  handled-guarded cancel_clicked s = inl refl
  handled-guarded (validator_clicked v) s = inl refl
  handled-guarded (pin_typed i v) s = inl refl
  handled-guarded (data_loaded d) s = inl refl
  handled-guarded (wallet_changed w a h e) s = inl refl

  event-guarded :
      (e : StakeEvent) (s : Staking)
      → (trace_of (after_stake codec packages readers network floats e s) ≡ trace_of s)
        ⊎ StakeConfirmed e s
  unfolding after_stake
  event-guarded e s = elim (handled-guarded e s) [
    | inl same ↦ inl (
        trace-if (is_offered floats s e) (handle_event codec packages readers network floats e s) s
          same)
    | inr confirmed ↦ inr confirmed
  ]

  -- Over any events of the Stake screen, either nothing was requested of the network, or one of them
  -- submitted a PIN that the session's check accepted in the state that it met.
  pub pin_guards_staking :
      (es : List StakeEvent) (s : Staking)
      → (trace_of (run_events (after_stake codec packages readers network floats) es s)
          ≡ trace_of s)
        ⊎ OpenedIn (after_stake codec packages readers network floats) StakeConfirmed es s
  pin_guards_staking =
      quiet_or_opened (after_stake codec packages readers network floats) StakeConfirmed trace_of
        event-guarded
