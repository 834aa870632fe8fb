-- ===== src/Screens/Stake/Posted.antt =====
-- What a confirmed action of the Stake screen posts.
use xv.Prelude.{[], ◌∷◌, sym, ℕ, subst, ◌∙◌, ap, length, List, some, none, true, ◌≡◌, refl}
use xv.Wallet.Accounts.Signing.{SignatureLaws, Built}
use xv.Screens.Signer.Checked.{PinVerified, after_check, check_pin-passes}
use xv.Screens.Signer.Posted.{sign_and_post-PostedSigned}
use xv.Api.Ledger.Nonces.{
  PostsAfter, nonce_at, after_balance, stake-PostsAfter, unstake-PostsAfter, claim-PostsAfter,
}
use xv.Prelude.Result.{Result, ok}
use xv.Platform.{TextCodec}
use xv.Wallet.Accounts.{
  str, num, verify_signature, JsonValue, get_account, SultanAccount, SultanWallet, Packages,
}
use xv.Api.Readers.{Readers}
use xv.Api.Request.{
  post, nested, plain, str as json_str, num as json_num, ApiError, Request, Trace, Network,
}
use xv.Screens.Stake.{claim_action, unstake_action, stake_action, Validator, Staking, PendingAction}
use xv.Screens.Stake.Actions.{
  claim_arguments, claim_data, stake_arguments, unstake_arguments, stake_data, unstake_data,
  try_claim, execute_unstake, execute_stake, try_unstake, execute_claim, try_stake, execute_pending,
  after_pin_check, handle_pin_submit,
}
use xv.Screens.Signer.{sign_and_post, full_pin, Readings}
use xv.Prelude.Text.{Text, codes}
use xv.Prelude.Int.{ℤ, pos}
use xv.Prelude.Decimal.{to_string}
use xv.Wallet.Amount.{parse_sltn}
use xv.Api.Ledger.{claim, unstake, stake}

-- What each action is to sign, and the request that it is to make with the signature, written out.
abbrev pub data_of : PendingAction → SultanAccount → Validator → ℕ → ℕ → List (Text × JsonValue)
data_of stake_action a v units now =
    (codes "type", str (codes "stake"))
    ∷ (codes "from", str a.address)
    ∷ (codes "validatorAddress", str v.validator_address)
    ∷ (codes "amount", str (to_string units))
    ∷ (codes "timestamp", num now)
    ∷ []
data_of unstake_action a v units now =
    (codes "type", str (codes "unstake"))
    ∷ (codes "from", str a.address)
    ∷ (codes "amount", str (to_string units))
    ∷ (codes "timestamp", num now)
    ∷ []
data_of claim_action a v units now =
    (codes "type", str (codes "claim_rewards"))
    ∷ (codes "from", str a.address)
    ∷ (codes "timestamp", num now)
    ∷ []

abbrev path_of : PendingAction → Text
path_of stake_action = codes "/staking/delegate"
path_of unstake_action = codes "/staking/undelegate"
path_of claim_action = codes "/staking/withdraw_rewards"

abbrev target_of : PendingAction → Validator → Text
target_of stake_action v = v.validator_address
target_of unstake_action v = []
target_of claim_action v = []

abbrev amount_of : PendingAction → ℕ → Text
amount_of stake_action units = to_string units
amount_of unstake_action units = to_string units
amount_of claim_action units = codes "0"

abbrev pub request_of : PendingAction → SultanAccount → Validator → ℕ → ℕ → ℕ → Text → Request
request_of p a v units nonce now signature = record {
  endpoint = path_of p;
  method = post;
  body = some (
      (
        codes "tx",
        nested (
            (codes "from", json_str a.address)
            ∷ (codes "to", json_str (target_of p v))
            ∷ (codes "amount", json_str (amount_of p units))
            ∷ (codes "nonce", json_num (pos nonce))
            ∷ (codes "timestamp", json_num (pos now))
            ∷ []),
      )
      ∷ (codes "signature", plain (json_str signature))
      ∷ (codes "public_key", plain (json_str a.public_key))
      ∷ []);
  timeout_ms = 30000;
}

module _ {J : Type 0} (codec : TextCodec) (packages : Packages) (readers : Readers J)
    (network : Network J) where
  -- The screen while an action is executed.
  abbrev executing : Readings → Staking → Staking
  executing r s = record s {
    form = record s.form { error = none; is_loading = true };
    signer = after_check codec packages.sha256 r s.form.pin s.signer;
  }

  submit_lem :
      (r : Readings) (s : Staking)
      → length (full_pin s.form.pin) ≡ 6
      → PinVerified codec packages.sha256 r s.form.pin s.signer
      → handle_pin_submit codec packages readers network r s
        ≡ execute_pending codec packages readers network s.form.pending_action r (executing r s)
  unfolding handle_pin_submit after_pin_check
  submit_lem r s six right =
      ap (λ c. after_pin_check codec packages readers network r s c.0 c.1)
        (check_pin-passes codec packages.sha256 r s.form.pin s.signer six right)

  module _ (r : Readings) (s : Staking) (w : SultanWallet) (a : SultanAccount)
      (has_wallet : s.signer.wallet ≡ some w)
      (has_account : s.signer.current_account ≡ some a) where
    trace-execute_stake :
        (v : Validator)
        → s.form.selected_validator ≡ some v
        → (execute_stake codec packages readers network r s).signer.trace
          ≡ (try_stake codec packages readers network r w a v s.form.amount s.signer.trace).0
    unfolding execute_stake
    trace-execute_stake v has_validator =
        simp (has_wallet, has_account, has_validator, execute_stake)

    trace-execute_unstake :
        (execute_unstake codec packages readers network r s).signer.trace
        ≡ (try_unstake codec packages readers network r w a s.form.amount s.signer.trace).0
    unfolding execute_unstake
    trace-execute_unstake = simp (has_wallet, has_account, execute_unstake)

    trace-execute_claim :
        (execute_claim codec packages readers network r s).signer.trace
        ≡ (try_claim codec packages readers network r w a s.signer.trace).0
    unfolding execute_claim
    trace-execute_claim = simp (has_wallet, has_account, execute_claim)

  trace-pending :
      (p : PendingAction) (r : Readings) (s : Staking)
      → s.form.pending_action ≡ some p
      → length (full_pin s.form.pin) ≡ 6
      → PinVerified codec packages.sha256 r s.form.pin s.signer
      → (handle_pin_submit codec packages readers network r s).signer.trace
        ≡ (execute_pending codec packages readers network (some p) r (executing r s)).signer.trace
  trace-pending p r s pending six right =
      ap (λ (x : Staking). x.signer.trace) (submit_lem r s six right)
      ∙ ap (λ o. (execute_pending codec packages readers network o r (executing r s)).signer.trace)
          pending

  -- A signature over the fields verifies, and after the balance was asked for the request with it
  -- is posted.
  abbrev pub ActionPosted :
      SultanAccount → List (Text × JsonValue) → (Text → Request) → Trace → Trace → Type 0
  ActionPosted a tx_data request t after =
      (signature : Text) × (verify_signature codec packages
          (packages.sha256 (codec.encode (packages.stringify tx_data))) signature a.public_key
        ≡ true)
      × PostsAfter (after_balance readers network a.address t) (request signature) (after, tt)

  module _ (laws : SignatureLaws packages) (w : SultanWallet) (built : Built codec packages w)
      (a : SultanAccount) (found : get_account a.index w ≡ some a) where
    posted_with :
        (tx_data : List (Text × JsonValue)) (request : Text → Request)
        (call : Text → Trace → Trace × Result ApiError Text) (t after : Trace)
        → ((signature : Text)
            → PostsAfter
                (after_balance readers network a.address t)
                (request signature)
                (call signature t))
        → after ≡ (sign_and_post codec packages w a tx_data call t).0
        → ActionPosted a tx_data request t after
    posted_with tx_data request call t after posts e =
        let (signature, verifies, same) =
          sign_and_post-PostedSigned codec packages laws w built a found tx_data call t in
        let (n, bound, done) = posts signature in (signature, verifies, (n, bound, e ∙ same ∙ done))

    try_stake_lem :
        (r : Readings) (v : Validator) (amount : Text) (t : Trace) (atomic : ℤ)
        → parse_sltn amount ≡ ok atomic
        → try_stake codec packages readers network r w a v amount t
          ≡ sign_and_post codec packages w a
              (stake_data a v atomic r.signed_at)
              (λ signature.
                stake readers network (stake_arguments a v atomic signature) r.posted_at)
              t
    unfolding try_stake
    try_stake_lem r v amount t atomic parsed = rw (parsed, try_stake) refl

    try_unstake_lem :
        (r : Readings) (amount : Text) (t : Trace) (atomic : ℤ)
        → parse_sltn amount ≡ ok atomic
        → try_unstake codec packages readers network r w a amount t
          ≡ sign_and_post codec packages w a
              (unstake_data a atomic r.signed_at)
              (λ signature.
                unstake readers network (unstake_arguments a atomic signature) r.posted_at)
              t
    unfolding try_unstake
    try_unstake_lem r amount t atomic parsed = rw (parsed, try_unstake) refl

    executed_action_is_posted :
        (p : PendingAction) (r : Readings) (s : Staking) (v : Validator) (units : ℕ)
        → s.signer.wallet ≡ some w
        → s.signer.current_account ≡ some a
        → s.form.selected_validator ≡ some v
        → parse_sltn s.form.amount ≡ ok (pos units)
        → ActionPosted a
            (data_of p a v units r.signed_at)
            (request_of p a v units (nonce_at readers network a.address s.signer.trace) r.posted_at)
            s.signer.trace
            (execute_pending codec packages readers network (some p) r s).signer.trace
    unfolding execute_pending try_claim
    executed_action_is_posted stake_action r s v units has_wallet has_account has_validator parsed =
        posted_with (stake_data a v (pos units) r.signed_at)
          (request_of stake_action a v units (nonce_at readers network a.address s.signer.trace)
            r.posted_at)
          (λ signature.
            stake readers network (stake_arguments a v (pos units) signature) r.posted_at)
          s.signer.trace _
          (λ signature.
            stake-PostsAfter readers network (stake_arguments a v (pos units) signature) r.posted_at
              s.signer.trace)
          (trace-execute_stake r s w a has_wallet has_account v has_validator
            ∙ ap (λ x. x.0) (try_stake_lem r v s.form.amount s.signer.trace (pos units) parsed))
    executed_action_is_posted unstake_action r s v units has_wallet has_account has_validator
          parsed =
        posted_with (unstake_data a (pos units) r.signed_at)
          (request_of unstake_action a v units (nonce_at readers network a.address s.signer.trace)
            r.posted_at)
          (λ signature.
            unstake readers network (unstake_arguments a (pos units) signature) r.posted_at)
          s.signer.trace _
          (λ signature.
            unstake-PostsAfter readers network (unstake_arguments a (pos units) signature)
              r.posted_at s.signer.trace)
          (trace-execute_unstake r s w a has_wallet has_account
            ∙ ap (λ x. x.0) (try_unstake_lem r s.form.amount s.signer.trace (pos units) parsed))
    executed_action_is_posted claim_action r s v units has_wallet has_account has_validator parsed =
        posted_with (claim_data a r.signed_at)
          (request_of claim_action a v units (nonce_at readers network a.address s.signer.trace)
            r.posted_at)
          (λ signature. claim readers network (claim_arguments a signature) r.posted_at)
          s.signer.trace _
          (λ signature.
            claim-PostsAfter readers network (claim_arguments a signature) r.posted_at
              s.signer.trace)
          (trace-execute_claim r s w a has_wallet has_account)

    -- When signatures behave as their package documents, the account is one of a wallet made from
    -- a mnemonic, a validator is selected, the amount parses to a number of units from 0 on, six
    -- digits are entered and the session's check accepts them, submitting carries out the pending
    -- action: the balance is asked for, and the request to stake with the validator's address, to
    -- unstake or to claim is posted at most three times: from the account, with the parsed amount
    -- in base units (0 for a claim), the nonce that the node reported (0 when the balance was not
    -- to be had), the time, and a signature that verifies under the account's public key over the
    -- action's name, the account, the validator's address, the amount and the time of signing, as
    -- far as the action has them.
    pub confirmed_action_is_posted :
        (p : PendingAction) (r : Readings) (s : Staking) (v : Validator) (units : ℕ)
        → s.signer.wallet ≡ some w
        → s.signer.current_account ≡ some a
        → s.form.selected_validator ≡ some v
        → parse_sltn s.form.amount ≡ ok (pos units)
        → s.form.pending_action ≡ some p
        → length (full_pin s.form.pin) ≡ 6
        → PinVerified codec packages.sha256 r s.form.pin s.signer
        → ActionPosted a
            (data_of p a v units r.signed_at)
            (request_of p a v units (nonce_at readers network a.address s.signer.trace) r.posted_at)
            s.signer.trace
            (handle_pin_submit codec packages readers network r s).signer.trace
    confirmed_action_is_posted p r s v units has_wallet has_account has_validator parsed pending six
          right =
        subst
          (ActionPosted a (data_of p a v units r.signed_at)
            (request_of p a v units (nonce_at readers network a.address s.signer.trace) r.posted_at)
            s.signer.trace)
          (sym (trace-pending p r s pending six right))
          (executed_action_is_posted p r (executing r s) v units has_wallet has_account
            has_validator parsed)
