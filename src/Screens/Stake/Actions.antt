-- ===== src/Screens/Stake/Actions.antt =====
-- The actions of wallet-extension/src/screens/Stake.tsx behind the PIN, and its events.
use xv.Prelude.{false, true, ℕ, Option, none, some, List, [], ◌∷◌, if◌then◌else◌}
use xv.Prelude.Int.{ℤ}
use xv.Wallet.Accounts.{JsonValue, str, num, SultanWallet, SultanAccount, Packages}
use xv.Api.Request.{Trace, Network}
use xv.Api.Ledger.{StakeRequest, UnstakeRequest, ClaimRewardsRequest, stake, unstake, claim}
use xv.Screens.Signer.{
  handle_pin_change, empty_pin, bigint_text, Signer, Readings, ScreenError, pin_needed,
  pin_incorrect, pin_refused, not_a_number, PinCheck, incomplete, incorrect, verified, refused,
  sign_and_post, check_pin,
}
use xv.Prelude.Result.{Result, err, ok}
use xv.Screens.Stake.{
  stake_tab, is_tab, stake_action, unstake_action, claim_action, tab_clicked, amount_typed,
  search_typed, max_clicked, action_clicked, claim_clicked, cancel_clicked, validator_clicked,
  pin_typed, pin_submitted, data_loaded, wallet_changed, handle_cancel_pin, handle_claim_rewards,
  handle_unstake, StakeEvent, handle_stake, select_default, unstaking_amount, handle_search,
  is_offered, staked_amount, rewards_claimed, at_form, PendingAction, Staking, StakeForm, Validator,
  Success,
}
use xv.Prelude.Text.{codes, Text}
use xv.Platform.{TextCodec}
use xv.Api.Readers.{Readers}
use xv.Wallet.Amount.{format_sltn, parse_sltn}
use xv.Platform.Floats.{Floats}

-- txData of each action
abbrev pub stake_data : SultanAccount → Validator → ℤ → ℕ → List (Text × JsonValue)
stake_data a v atomic now =
    (codes "type", str (codes "stake"))
    ∷ (codes "from", str a.address)
    ∷ (codes "validatorAddress", str v.validator_address)
    ∷ (codes "amount", str (bigint_text atomic))
    ∷ (codes "timestamp", num now)
    ∷ []

abbrev pub unstake_data : SultanAccount → ℤ → ℕ → List (Text × JsonValue)
unstake_data a atomic now =
    (codes "type", str (codes "unstake"))
    ∷ (codes "from", str a.address)
    ∷ (codes "amount", str (bigint_text atomic))
    ∷ (codes "timestamp", num now)
    ∷ []

abbrev pub claim_data : SultanAccount → ℕ → List (Text × JsonValue)
claim_data a now =
    (codes "type", str (codes "claim_rewards"))
    ∷ (codes "from", str a.address)
    ∷ (codes "timestamp", num now)
    ∷ []

-- The arguments of the API's methods.
abbrev pub stake_arguments : SultanAccount → Validator → ℤ → Text → StakeRequest
stake_arguments a v atomic signature = record {
  delegator = a.address;
  stake_validator = v.validator_address;
  stake_amount = bigint_text atomic;
  stake_signature = signature;
  stake_public_key = a.public_key;
}

abbrev pub unstake_arguments : SultanAccount → ℤ → Text → UnstakeRequest
unstake_arguments a atomic signature = record {
  delegator = a.address;
  stake_amount = bigint_text atomic;
  stake_signature = signature;
  stake_public_key = a.public_key;
}

abbrev pub claim_arguments : SultanAccount → Text → ClaimRewardsRequest
claim_arguments a signature = record {
  delegator = a.address;
  stake_signature = signature;
  stake_public_key = a.public_key;
}

-- The end of a try block, with whether it empties the amount.
abbrev pub succeeded : Success → Text → StakeForm → StakeForm
succeeded message amount f = record f {
  success = some message;
  amount = amount;
  step = at_form;
  pending_action = none;
  is_loading = false;
}

-- The end of the try block, or the catch block; then the finally block.
unfoldable pub performed : Success → Text → Result ScreenError Text → StakeForm → StakeForm
performed message amount (err e) f = record f { error = some e; is_loading = false }
performed message amount (ok hash) f = succeeded message amount f

module _ {J : Type 0} (codec : TextCodec) (packages : Packages) (readers : Readers J)
    (network : Network J) where
  -- The try blocks.
  unfoldable pub try_stake :
      Readings
      → SultanWallet
      → SultanAccount
      → Validator
      → Text
      → Trace
      → Trace × Result ScreenError Text
  unfolding parse_sltn sign_and_post stake
  try_stake r w a v amount t = elim (parse_sltn amount) [
    | err e ↦ (t, err not_a_number)
    | ok atomic ↦
        sign_and_post codec packages w a (stake_data a v atomic r.signed_at)
          (λ signature. stake readers network (stake_arguments a v atomic signature) r.posted_at) t
  ]

  unfoldable pub try_unstake :
      Readings → SultanWallet → SultanAccount → Text → Trace → Trace × Result ScreenError Text
  unfolding parse_sltn sign_and_post unstake
  try_unstake r w a amount t = elim (parse_sltn amount) [
    | err e ↦ (t, err not_a_number)
    | ok atomic ↦
        sign_and_post codec packages w a (unstake_data a atomic r.signed_at)
          (λ signature. unstake readers network (unstake_arguments a atomic signature) r.posted_at)
          t
  ]

  unfoldable pub try_claim :
      Readings → SultanWallet → SultanAccount → Trace → Trace × Result ScreenError Text
  unfolding sign_and_post claim
  try_claim r w a t =
      sign_and_post codec packages w a (claim_data a r.signed_at)
        (λ signature. claim readers network (claim_arguments a signature) r.posted_at) t

  -- What an action did, on the screen.
  abbrev pub finish : Success → Text → Staking → Trace × Result ScreenError Text → Staking
  finish message amount s result = record s {
    form = performed message amount result.1 s.form;
    signer = record s.signer { trace = result.0 };
  }

  -- Each returns early without a wallet, an account or, to stake, a validator: the screen goes on
  -- loading then.
  unfoldable pub execute_stake : Readings → Staking → Staking
  unfolding try_stake performed
  execute_stake r s = elim s.signer.wallet [
    | none ↦ s
    | some w ↦ elim s.signer.current_account [
      | none ↦ s
      | some a ↦ elim s.form.selected_validator [
        | none ↦ s
        | some v ↦
            finish (staked_amount s.form.amount) [] s
              (try_stake r w a v s.form.amount s.signer.trace)
      ]
    ]
  ]

  unfoldable pub execute_unstake : Readings → Staking → Staking
  unfolding try_unstake performed
  execute_unstake r s = elim s.signer.wallet [
    | none ↦ s
    | some w ↦ elim s.signer.current_account [
      | none ↦ s
      | some a ↦
          finish (unstaking_amount s.form.amount) [] s
            (try_unstake r w a s.form.amount s.signer.trace)
    ]
  ]

  unfoldable pub execute_claim : Readings → Staking → Staking
  unfolding try_claim performed
  execute_claim r s = elim s.signer.wallet [
    | none ↦ s
    | some w ↦ elim s.signer.current_account [
      | none ↦ s
      | some a ↦ finish rewards_claimed s.form.amount s (try_claim r w a s.signer.trace)
    ]
  ]

  unfoldable pub execute_pending : Option PendingAction → Readings → Staking → Staking
  unfolding execute_stake execute_unstake execute_claim
  execute_pending none r s = s
  execute_pending (some stake_action) r s = execute_stake r s
  execute_pending (some unstake_action) r s = execute_unstake r s
  execute_pending (some claim_action) r s = execute_claim r s

  -- What the handler does after the PIN's check.
  unfoldable pub after_pin_check : Readings → Staking → Signer → PinCheck → Staking
  unfolding execute_pending
  after_pin_check r s signer incomplete = record s {
    form = record s.form { error = some pin_needed };
  }
  after_pin_check r s signer incorrect = record s {
    form = record s.form { error = some pin_incorrect; pin = empty_pin; is_loading = false };
    signer = signer;
  }
  after_pin_check r s signer (refused e) = record s {
    form = record s.form { error = some (pin_refused e); is_loading = false };
    signer = signer;
  }
  after_pin_check r s signer verified =
      execute_pending s.form.pending_action r
        (record s { form = record s.form { error = none; is_loading = true }; signer = signer })

  unfoldable pub handle_pin_submit : Readings → Staking → Staking
  unfolding check_pin after_pin_check
  handle_pin_submit r s =
      let (signer, check) = check_pin codec packages.sha256 r s.form.pin s.signer in
      after_pin_check r s signer check

  module _ {F : Type 0} (floats : Floats F) where
    unfoldable pub handle_event : StakeEvent → Staking → Staking
    unfolding handle_search handle_stake handle_unstake handle_claim_rewards handle_cancel_pin
        handle_pin_change handle_pin_submit
    handle_event (tab_clicked t) s = record s { form = record s.form { tab = t } }
    handle_event (amount_typed t) s = record s { form = record s.form { amount = t } }
    handle_event (search_typed t) s = record s { form = handle_search t s.loaded.validators s.form }
    handle_event max_clicked s = record s {
      form = record s.form {
        amount =
            format_sltn
              (if is_tab s.form.tab stake_tab then s.loaded.available else s.loaded.staked);
      };
    }
    handle_event action_clicked s = record s {
      form = if is_tab s.form.tab stake_tab then handle_stake floats s else handle_unstake floats s;
    }
    handle_event claim_clicked s = record s { form = handle_claim_rewards s }
    handle_event cancel_clicked s = record s { form = handle_cancel_pin s.form }
    handle_event (validator_clicked v) s = record s {
      form = record s.form { selected_validator = some v; tab = stake_tab };
    }
    handle_event (pin_typed i value) s = record s {
      form = record s.form { pin = handle_pin_change i value s.form.pin };
    }
    handle_event (pin_submitted r) s = handle_pin_submit r s
    handle_event (data_loaded d) s = record s { loaded = d }
    handle_event (wallet_changed w a h e) s = record s {
      signer = record s.signer {
        wallet = w;
        current_account = a;
        session_pin_hash = h;
        lockout = e;
      };
    }

    -- The handler of an offered event, and the effect.
    unfoldable pub after_stake : StakeEvent → Staking → Staking
    unfolding is_offered handle_event select_default
    after_stake e s =
        let s' = if is_offered floats s e then handle_event e s else s in
        record s' { form = select_default s'.loaded.validators s'.form }
