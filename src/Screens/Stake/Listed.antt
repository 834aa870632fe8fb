-- ===== src/Screens/Stake/Listed.antt =====
-- When the Stake screen asks for the PIN of a stake.
use xv.Prelude.{◌⊎◌, ◌∙◌, sym, ap, arith, List, Option, ◌∷◌, [], some, none, true, ◌≡◌, refl, ◌↔◌}
use xv.Platform.Floats.{Floats}
use xv.Screens.Stake.{
  stake_action, to_pin_step, StakeForm, some_validator, Validator, StakeData, at_pin, Staking,
  handle_stake, at_form, stake_with, validator_error, StakeStep,
}
use xv.Wallet.Accounts.{SultanAccount, SultanWallet}
use xv.Security.Amount.{is_high_value_transaction, AmountError, validate_amount}
use xv.Wallet.Amount.{format_sltn}
use xv.Screens.Signer.{bad_amount, ScreenError}
use xv.Prelude.Text.{text_eq_iff, Text}

-- A validator of the list, of any status, has the address.
abbrev pub HasAddress : Text → List Validator → Type 0
HasAddress address [] = ⊥
HasAddress address (v ∷ l) = (v.validator_address ≡ address) ⊎ HasAddress address l

abbrev pub Listed : Option (List Validator) → Validator → Type 0
Listed validators v =
    (l : List Validator) × (validators ≡ some l) × HasAddress v.validator_address l

some_validator_iff :
    (address : Text) (l : List Validator) → (some_validator address l ≡ true) ↔ HasAddress address l
some_validator_iff address [] = ground arith
some_validator_iff address (v ∷ l) =
    ground (arith, text_eq_iff v.validator_address address, some_validator_iff address l)

at_form-at_pin : (s : StakeStep) → s ≡ at_form → ¬ (s ≡ at_pin)
at_form-at_pin at_form h k = absurd (ground (arith, k))
at_form-at_pin at_pin h k = absurd (ground (arith, h))

validator_error-Listed :
    (validators : Option (List Validator)) (v : Validator)
    → validator_error validators v ≡ none
    → Listed validators v
unfolding validator_error
validator_error-Listed none v h = absurd (ground (arith, h))
validator_error-Listed (some []) v h = absurd (ground (arith, h))
validator_error-Listed (some (u ∷ l)) v h =
    (u ∷ l, refl, (some_validator_iff v.validator_address (u ∷ l)).0 (ground (arith, h)))

validator_error-listed :
    (l : List Validator) (v : Validator)
    → some_validator v.validator_address l ≡ true
    → validator_error (some l) v ≡ none
unfolding validator_error
validator_error-listed [] v h = absurd (ground (arith, h))
validator_error-listed (u ∷ l) v h = ground (arith, h)

module _ {F : Type 0} (floats : Floats F) where
  stake_with-at_pin :
      (d : StakeData) (v : Validator) (f : StakeForm)
      → f.step ≡ at_form
      → (stake_with floats d v f).step ≡ at_pin
      → (validate_amount floats f.amount (format_sltn d.available) 9 ≡ none)
        × (validator_error d.validators v ≡ none)
  unfolding stake_with
  stake_with-at_pin d v f start h =
      by_errors (validate_amount floats f.amount (format_sltn d.available) 9)
        (validator_error d.validators v) h
    where
      by_errors :
          (o : Option AmountError) (p : Option ScreenError)
          → (elim o as (λ _. StakeForm) [
            | some e ↦ record f { error = some (bad_amount e) }
            | none ↦ elim p as (λ _. StakeForm) [
              | some e ↦ record f { error = some e }
              | none ↦ to_pin_step stake_action (is_high_value_transaction floats f.amount) f
            ]
          ]).step
            ≡ at_pin
          → (o ≡ none) × (p ≡ none)
      by_errors none none k = (refl, refl)
      by_errors (some e) p k = absurd (at_form-at_pin f.step start k)
      by_errors none (some e) k = absurd (at_form-at_pin f.step start k)

  stake_with-passes :
      (d : StakeData) (v : Validator) (f : StakeForm)
      → validate_amount floats f.amount (format_sltn d.available) 9 ≡ none
      → validator_error d.validators v ≡ none
      → (stake_with floats d v f).step ≡ at_pin
  unfolding stake_with
  stake_with-passes d v f valid listed = rw (valid, listed, stake_with) refl

  pub handle_stake_lem :
      (s : Staking) (w : SultanWallet) (a : SultanAccount) (v : Validator)
      → s.signer.wallet ≡ some w
      → s.signer.current_account ≡ some a
      → s.form.selected_validator ≡ some v
      → handle_stake floats s ≡ stake_with floats s.loaded v s.form
  unfolding handle_stake
  handle_stake_lem s w a v has_wallet has_account has_validator =
      simp (has_wallet, has_account, has_validator, handle_stake)

  -- With a wallet, an account and a selected validator, staking goes on from the form to the PIN
  -- exactly when the amount is valid for the printed balance and the validators are loaded and the
  -- selected one has the address of one of them, whatever the status of that one is.
  pub stake_asks_for_pin_iff :
      (s : Staking) (w : SultanWallet) (a : SultanAccount) (v : Validator)
      → s.signer.wallet ≡ some w
      → s.signer.current_account ≡ some a
      → s.form.selected_validator ≡ some v
      → s.form.step ≡ at_form
      → ((handle_stake floats s).step ≡ at_pin) ↔ (
          (validate_amount floats s.form.amount (format_sltn s.loaded.available) 9 ≡ none)
          × Listed s.loaded.validators v)
  stake_asks_for_pin_iff s w a v has_wallet has_account has_validator start =
      let e =
        ap (λ (f : StakeForm). f.step)
          (handle_stake_lem s w a v has_wallet has_account has_validator) in
      (
        (λ h.
            let (valid, listed) = stake_with-at_pin s.loaded v s.form start (sym e ∙ h) in
            (valid, validator_error-Listed s.loaded.validators v listed)),
        (λ (valid, (l, shown, found)).
            e
            ∙ stake_with-passes s.loaded v s.form valid (
                ap (λ o. validator_error o v) shown
                ∙ validator_error-listed l v ((some_validator_iff v.validator_address l).1 found))),
      )
