-- ===== src/Screens/Validator/Blocked.antt =====
-- The screen's continue button and its validation do not agree on an address.
use xv.Prelude.{
  not, subst, ◌≢◌, List, ◌&&◌, ◌==◌, if◌then◌else◌, length, Bool, Option, false, true, arith, some,
  none, ◌≡◌, refl, ◌++◌, ◌∷◌, [], sym, ap, ◌∙◌,
}
use xv.Prelude.Text.{codes, strip_prefix, Text, trim}
use xv.Prelude.Trim.{trim_end, trim_end-cons, trim-cons}
use xv.Screens.Validator.{
  ValidatorEvent, is_offered, Funding, is_at, handle_fund_validator, header_back_clicked,
  start_clicked, installed_clicked, continue_clicked, fund_clicked, pin_back_clicked, address_typed,
  moniker_typed, pin_typed, pin_submitted, balance_loaded, wallet_changed, overview_step,
  server_step, address_step, fund_step, pin_step,
}
use xv.Screens.Guarded.{run_events}
use xv.Screens.Validator.Funded.{handle_event, after_validator}
use xv.Security.Address.{
  valid, AddressValidationResult, unknown_format, invalid, detect_chain_from_address,
  validate_address, detect_trimmed,
}
use xv.Screens.Validator.{starts_with_sltn, ValidatorStep, ValidatorForm, address_error}
use xv.Screens.Signer.{ScreenError, bad_recipient}
use xv.Api.Request.{Network, Trace}
use xv.Platform.{TextCodec}
use xv.Platform.Floats.{Floats}
use xv.Wallet.Accounts.{Packages}
use xv.Api.Readers.{Readers}
use xv.Prelude.Int.{ℤ}

strip_prefix-same : (p s t : Text) → strip_prefix p s ≡ some t → s ≡ p ++ t
strip_prefix-same [] s t h = ground (arith, h)
strip_prefix-same (c ∷ p) [] t h = absurd (ground (arith, h))
strip_prefix-same (c ∷ p) (d ∷ s) t h = ground (arith, h, strip_prefix-same p s t)

-- A text that begins with sltn1 does so when it is trimmed.
trim-sltn : (t : Text) → trim (codes "sltn1" ++ t) ≡ codes "sltn1" ++ trim_end t
trim-sltn t =
    trim-cons b's' (codes "ltn1" ++ t) refl
    ∙ ap (λ (r : Text). b's' ∷ r)
        (trim_end-cons b'l' (codes "tn1" ++ t) refl
          ∙ ap (λ (r : Text). b'l' ∷ r)
              (trim_end-cons b't' (codes "n1" ++ t) refl
                ∙ ap (λ (r : Text). b't' ∷ r)
                    (trim_end-cons b'n' (codes "1" ++ t) refl
                      ∙ ap (λ (r : Text). b'n' ∷ r) (trim_end-cons b'1' t refl))))

-- No chain has such addresses.
detect_trimmed-sltn : (t : Text) → detect_trimmed (codes "sltn1" ++ t) ≡ none
unfolding detect_trimmed
detect_trimmed-sltn t = refl

not_empty-sltn : (t : Text) → (length (codes "sltn1" ++ t) == 0) ≡ false
not_empty-sltn t = ground arith

detect-sltn : (t : Text) → detect_chain_from_address (codes "sltn1" ++ t) ≡ none
unfolding detect_chain_from_address
detect-sltn t =
    ap (λ (b : Bool). if b then none else detect_trimmed (trim (codes "sltn1" ++ t)))
      (not_empty-sltn t)
    ∙ ap detect_trimmed (trim-sltn t)
    ∙ detect_trimmed-sltn (trim_end t)

validate_address-sltn : (t : Text) → validate_address (codes "sltn1" ++ t) ≡ invalid unknown_format
unfolding validate_address
validate_address-sltn t =
    rw
      (
        ap detect_chain_from_address (trim-sltn t) ∙ detect-sltn (trim_end t),
        not_empty-sltn t,
        validate_address,
      )
      refl

address_error-sltn :
    (s : Text) → starts_with_sltn s ≡ true → address_error s ≡ some (bad_recipient unknown_format)
unfolding address_error
address_error-sltn s h = by_prefix (strip_prefix (codes "sltn1") s) refl h
  where
    by_prefix :
        (o : Option Text)
        → strip_prefix (codes "sltn1") s ≡ o
        → elim o as (λ _. Bool) [ none ↦ false | some rest ↦ true ] ≡ true
        → address_error s ≡ some (bad_recipient unknown_format)
    by_prefix none e k = absurd (ground (arith, k))
    by_prefix (some t) e k =
        ap address_error (strip_prefix-same (codes "sltn1") s t e)
        ∙ ap of_answer (validate_address-sltn t)
      where
        of_answer : AddressValidationResult → Option ScreenError
        of_answer (invalid e) = some (bad_recipient e)
        of_answer (valid c n k) = none

-- Once the address step is left for the next one, the address begins with sltn1, and the PIN is never
-- asked for.
HasBlockedStep : ValidatorStep → Text → Type 0
HasBlockedStep overview_step address = Unit
HasBlockedStep server_step address = Unit
HasBlockedStep address_step address = Unit
HasBlockedStep fund_step address = starts_with_sltn address ≡ true
HasBlockedStep pin_step address = ⊥

at_fund :
    (step : ValidatorStep) (address : Text) (b : Bool)
    → HasBlockedStep step address
    → (is_at step fund_step && b) ≡ true
    → starts_with_sltn address ≡ true
unfolding HasBlockedStep
at_fund fund_step address b h k = h
at_fund overview_step address b h k = absurd (ground (arith, k))
at_fund server_step address b h k = absurd (ground (arith, k))
at_fund address_step address b h k = absurd (ground (arith, k))
at_fund pin_step address b h k = absurd h

never_at_pin :
    (step : ValidatorStep) (address : Text) (b : Bool)
    → HasBlockedStep step address
    → (is_at step pin_step && b) ≡ true
    → ⊥
unfolding HasBlockedStep
never_at_pin pin_step address b h k = h
never_at_pin overview_step address b h k = ground (arith, k)
never_at_pin server_step address b h k = ground (arith, k)
never_at_pin address_step address b h k = ground (arith, k)
never_at_pin fund_step address b h k = ground (arith, k)

any_address :
    (step : ValidatorStep) (address : Text)
    → is_at step address_step ≡ true
    → HasBlockedStep step address
unfolding HasBlockedStep
any_address address_step address k = tt
any_address overview_step address k = tt
any_address server_step address k = tt
any_address fund_step address k = absurd (ground (arith, k))
any_address pin_step address k = absurd (ground (arith, k))

-- Such a step, with the requests that there were at the start.
IsBlocked : Trace → Funding → Type 0
IsBlocked t s = HasBlockedStep s.form.step s.form.validator_address × (s.signer.trace ≡ t)

if-IsBlocked :
    (t : Trace) (b : Bool) (x s : Funding)
    → (b ≡ true → IsBlocked t x)
    → IsBlocked t s
    → IsBlocked t (if b then x else s)
if-IsBlocked t true x s hx hs = hx refl
if-IsBlocked t false x s hx hs = hs

handle_fund_validator-blocked :
    {F : Type 0} (floats : Floats F) (available : ℤ) (f : ValidatorForm)
    → starts_with_sltn f.validator_address ≡ true
    → handle_fund_validator floats available f
      ≡ record f { error = some (bad_recipient unknown_format) }
unfolding handle_fund_validator
handle_fund_validator-blocked floats available f h =
    rw (address_error-sltn f.validator_address h, handle_fund_validator) refl

module _ {F J : Type 0} (codec : TextCodec) (packages : Packages) (readers : Readers J)
    (network : Network J) (floats : Floats F) where
  handle_event-IsBlocked :
      (t : Trace) (e : ValidatorEvent) (s : Funding)
      → IsBlocked t s
      → is_offered floats s e ≡ true
      → IsBlocked t (handle_event codec packages readers network floats e s)
  unfolding handle_event is_offered IsBlocked HasBlockedStep
  handle_event-IsBlocked t header_back_clicked s (h, same) k = (tt, same)
  handle_event-IsBlocked t start_clicked s (h, same) k = (tt, same)
  handle_event-IsBlocked t installed_clicked s (h, same) k = (tt, same)
  handle_event-IsBlocked t continue_clicked s (h, same) k = (ground (arith, k), same)
  handle_event-IsBlocked t fund_clicked s (h, same) k =
      let start = at_fund s.form.step s.form.validator_address (not s.form.is_loading) h k in
      (
        subst (λ (f : ValidatorForm). HasBlockedStep f.step f.validator_address)
            (sym (handle_fund_validator-blocked floats s.available s.form start)) h,
        same,
      )
  handle_event-IsBlocked t pin_back_clicked s (h, same) k =
      absurd (never_at_pin s.form.step s.form.validator_address (not s.form.is_loading) h k)
  handle_event-IsBlocked t (address_typed a) s (h, same) k = (any_address s.form.step a k, same)
  handle_event-IsBlocked t (moniker_typed m) s (h, same) k = (h, same)
  handle_event-IsBlocked t (pin_typed i v) s (h, same) k = (h, same)
  handle_event-IsBlocked t (pin_submitted r) s (h, same) k =
      absurd (never_at_pin s.form.step s.form.validator_address _ h k)
  handle_event-IsBlocked t (balance_loaded b) s (h, same) k = (h, same)
  handle_event-IsBlocked t (wallet_changed w a d e) s (h, same) k = (h, same)

  run_events-IsBlocked :
      (t : Trace) (es : List ValidatorEvent) (s : Funding)
      → IsBlocked t s
      → IsBlocked t (run_events (after_validator codec packages readers network floats) es s)
  unfolding run_events after_validator
  run_events-IsBlocked t [] s h = h
  run_events-IsBlocked t (e ∷ es) s h =
      run_events-IsBlocked t es (after_validator codec packages readers network floats e s) (
        if-IsBlocked t (is_offered floats s e)
          (handle_event codec packages readers network floats e s) s
          (handle_event-IsBlocked t e s h) h)

  -- Over any events from the first step on, whatever the wallet, the balance and the texts typed are:
  -- the screen never comes to the step of the PIN, and requests nothing of the network. No validator can
  -- be funded with it, since the button that leads on wants an address that begins with sltn1, and the
  -- validation knows no chain with such addresses.
  pub no_validator_is_funded :
      (es : List ValidatorEvent) (s : Funding)
      → s.form.step ≡ overview_step
      → let s' = run_events (after_validator codec packages readers network floats) es s in
        (s'.form.step ≢ pin_step) × (s'.signer.trace ≡ s.signer.trace)
  unfolding IsBlocked HasBlockedStep
  no_validator_is_funded es s start =
      let s' = run_events (after_validator codec packages readers network floats) es s in
      let (h, same) =
        run_events-IsBlocked s.signer.trace es s
          (subst (λ x. HasBlockedStep x s.form.validator_address) (sym start) tt, refl) in
      ((λ e. subst (λ x. HasBlockedStep x s'.form.validator_address) e h), same)
