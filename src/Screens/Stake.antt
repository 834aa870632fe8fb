-- ===== src/Screens/Stake.antt =====
-- wallet-extension/src/screens/Stake.tsx: staking with a validator, unstaking and claiming rewards. The
-- refetching of the staking data after a success is the query library's.
pub mod Actions
pub mod Guard
pub mod Posted
pub mod Listed
mod Tests
use xv.Prelude.{
  ◌==◌, ◌||◌, take, length, not, ◌&&◌, Bool, List, Option, if◌then◌else◌, ◌∷◌, [], some, none,
  false, true, ℕ,
}
use xv.Prelude.Int.{ℤ}
use xv.Screens.Signer.{
  full_pin, empty_pin, Signer, Readings, ScreenError, bad_amount, validators_unknown,
  validator_unlisted, pin_needed, pin_incorrect, pin_refused, not_a_number,
}
use xv.Platform.Floats.{Floats}
use xv.Prelude.Text.{includes, text_eq, lower_case, Text}
use xv.Wallet.Accounts.{SultanAccount, SultanWallet}
use xv.Security.Amount.{is_high_value_transaction, validate_amount}
use xv.Wallet.Amount.{format_sltn}
use xv.Security.Lockout.{Entry}

pub data Tab : Type 0 where
  stake_tab unstake_tab validators_tab : Tab

pub data StakeStep : Type 0 where
  at_form at_pin : StakeStep

pub data PendingAction : Type 0 where
  stake_action unstake_action claim_action : PendingAction

-- What the screen says after an action, with the amount that it names.
pub data Success : Type 0 where
  staked_amount unstaking_amount : Text → Success
  rewards_claimed : Success

pub data ValidatorStatus : Type 0 where
  is_active is_inactive is_jailed : ValidatorStatus

-- The fields that tell validators apart; the status is shown, and read by no handler.
pub record Validator : Type 0 where
  pub validator_address : Text
  pub validator_name : Text
  pub validator_status : ValidatorStatus

-- The component's state.
pub record StakeForm : Type 0 where
  pub tab : Tab
  pub step : StakeStep
  pub pending_action : Option PendingAction
  pub amount : Text
  pub selected_validator : Option Validator
  pub is_loading : Bool
  pub error : Option ScreenError
  pub success : Option Success
  pub high_value_warning : Bool
  pub pin : List Text

-- What the hooks know of the account, and the validators that the node knows, jailed ones
-- included; `none` while they are not loaded.
pub record StakeData : Type 0 where
  pub available : ℤ
  pub staked : ℤ
  pub pending_rewards : ℤ
  pub validators : Option (List Validator)

pub record Staking : Type 0 where
  pub form : StakeForm
  pub loaded : StakeData
  pub signer : Signer

pub data StakeEvent : Type 0 where
  tab_clicked : Tab → StakeEvent
  amount_typed search_typed : Text → StakeEvent
  max_clicked action_clicked claim_clicked cancel_clicked : StakeEvent
  validator_clicked : Validator → StakeEvent
  pin_typed : ℕ → Text → StakeEvent
  pin_submitted : Readings → StakeEvent
  data_loaded : StakeData → StakeEvent
  wallet_changed : Option SultanWallet → Option SultanAccount → Option Text → Entry → StakeEvent

abbrev pub is_tab : Tab → Tab → Bool
is_tab stake_tab stake_tab = true
is_tab unstake_tab unstake_tab = true
is_tab validators_tab validators_tab = true
is_tab _ _ = false

abbrev pub is_pin_step : StakeStep → Bool
is_pin_step at_form = false
is_pin_step at_pin = true

abbrev pub initial_stake_form : StakeForm
initial_stake_form = record {
  tab = stake_tab;
  step = at_form;
  pending_action = none;
  amount = [];
  selected_validator = none;
  is_loading = false;
  error = none;
  success = none;
  high_value_warning = false;
  pin = empty_pin;
}

-- validators.some(v => v.address === address)
abbrev pub some_validator : Text → List Validator → Bool
some_validator address [] = false
some_validator address (v ∷ l) = text_eq v.validator_address address || some_validator address l

abbrev pub first_listed : List Validator → Option Validator
first_listed [] = none
first_listed (v ∷ l) = some v

-- One of the first ten, which the list shows.
abbrev pub shown_validator : Validator → Option (List Validator) → Bool
shown_validator v validators = elim validators [
  | none ↦ false
  | some l ↦ some_validator v.validator_address (take 10 l)
]

-- v.name.toLowerCase().includes(search) || v.address.toLowerCase().includes(search)
abbrev pub matches : Text → Validator → Bool
matches search v =
    includes (lower_case v.validator_name) search
    || includes (lower_case v.validator_address) search

-- validators.filter(...)[0]
abbrev pub first_match : Text → List Validator → Option Validator
first_match search [] = none
first_match search (v ∷ l) =
    let rest = first_match search l in if matches search v then some v else rest

-- The listener of the search box.
unfoldable pub handle_search : Text → Option (List Validator) → StakeForm → StakeForm
handle_search value validators f = elim validators [
  | none ↦ f
  | some l ↦ elim (first_match (lower_case value) l) [
    | none ↦ f
    | some v ↦ record f { selected_validator = some v }
  ]
]

-- The effect that selects the first validator while none is.
unfoldable pub select_default : Option (List Validator) → StakeForm → StakeForm
select_default validators f = elim f.selected_validator [
  | some v ↦ f
  | none ↦ elim validators [ none ↦ f | some l ↦ record f { selected_validator = first_listed l } ]
]

-- The end of the three handlers that ask for the PIN.
abbrev pub to_pin_step : PendingAction → Bool → StakeForm → StakeForm
to_pin_step action warning f = record f {
  high_value_warning = warning;
  error = none;
  pin = empty_pin;
  pending_action = some action;
  step = at_pin;
}

-- The validators are known, and the selected one is one of them.
unfoldable pub validator_error : Option (List Validator) → Validator → Option ScreenError
validator_error validators selected = elim validators [
  | none ↦ some validators_unknown
  | some l ↦
      if length l == 0
      then some validators_unknown
      else if not (some_validator selected.validator_address l)
      then some validator_unlisted
      else none
]

abbrev pub has_value : {A : Type 0} → Option A → Bool
has_value none = false
has_value (some a) = true

module _ {F : Type 0} (floats : Floats F) where
  -- handleStake, with a wallet, an account and a validator.
  unfoldable pub stake_with : StakeData → Validator → StakeForm → StakeForm
  unfolding validate_amount validator_error is_high_value_transaction
  stake_with d v f = elim (validate_amount floats f.amount (format_sltn d.available) 9) [
    | some e ↦ record f { error = some (bad_amount e) }
    | none ↦ elim (validator_error d.validators v) [
      | some e ↦ record f { error = some e }
      | none ↦ to_pin_step stake_action (is_high_value_transaction floats f.amount) f
    ]
  ]

  unfoldable pub handle_stake : Staking → StakeForm
  unfolding stake_with
  handle_stake s =
      if has_value s.signer.wallet && has_value s.signer.current_account
      then elim s.form.selected_validator [ none ↦ s.form | some v ↦ stake_with s.loaded v s.form ]
      else s.form

  unfoldable pub handle_unstake : Staking → StakeForm
  unfolding validate_amount is_high_value_transaction
  handle_unstake s =
      let f = s.form in
      if has_value s.signer.wallet && has_value s.signer.current_account
      then elim (validate_amount floats f.amount (format_sltn s.loaded.staked) 9) [
        | some e ↦ record f { error = some (bad_amount e) }
        | none ↦ to_pin_step unstake_action (is_high_value_transaction floats f.amount) f
      ]
      else f

  -- The claim button shows while the printed rewards are a number above 0.
  unfoldable pub shows_claim : ℤ → Bool
  unfolding format_sltn
  shows_claim rewards = floats.gt (floats.number (format_sltn rewards)) (floats.of_ℕ 0)

  -- The controls of each step and tab, those that are not disabled.
  unfoldable pub is_offered : Staking → StakeEvent → Bool
  unfolding shows_claim
  is_offered s (tab_clicked t) = not (is_pin_step s.form.step)
  is_offered s (amount_typed t) =
      not (is_pin_step s.form.step) && not (is_tab s.form.tab validators_tab)
  is_offered s (search_typed t) = not (is_pin_step s.form.step) && is_tab s.form.tab validators_tab
  is_offered s max_clicked = not (is_pin_step s.form.step) && not (is_tab s.form.tab validators_tab)
  is_offered s action_clicked =
      not (is_pin_step s.form.step)
      && not (is_tab s.form.tab validators_tab)
      && not (
          s.form.is_loading
          || (length s.form.amount == 0)
          || floats.le (floats.number s.form.amount) (floats.of_ℕ 0))
  is_offered s claim_clicked =
      not (is_pin_step s.form.step) && shows_claim s.loaded.pending_rewards && not s.form.is_loading
  is_offered s cancel_clicked = is_pin_step s.form.step
  is_offered s (validator_clicked v) =
      not (is_pin_step s.form.step)
      && is_tab s.form.tab validators_tab
      && shown_validator v s.loaded.validators
  is_offered s (pin_typed i value) = is_pin_step s.form.step
  is_offered s (pin_submitted r) =
      is_pin_step s.form.step && not (s.form.is_loading || not (length (full_pin s.form.pin) == 6))
  is_offered s (data_loaded d) = true
  is_offered s (wallet_changed w a h e) = true

unfoldable pub handle_claim_rewards : Staking → StakeForm
handle_claim_rewards s =
    if has_value s.signer.wallet && has_value s.signer.current_account
    then to_pin_step claim_action s.form.high_value_warning s.form
    else s.form

unfoldable pub handle_cancel_pin : StakeForm → StakeForm
handle_cancel_pin f = record f {
  step = at_form;
  pending_action = none;
  pin = empty_pin;
  error = none;
}
