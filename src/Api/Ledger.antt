-- ===== src/Api/Ledger.antt =====
-- Balances, delegations and signed transactions of wallet-extension/src/api/sultanAPI.ts, over the node's
-- answers. Numbers are exact, as those of JavaScript are up to 2 to the 53.
pub mod Nonces
mod Tests
use xv.Prelude.{◌+◌, Option, none, some, List, [], ◌∷◌, ◌++◌, ℕ}
use xv.Prelude.Text.{Text, codes}
use xv.Prelude.Decimal.{to_string}
use xv.Prelude.Int.{pos}
use xv.Prelude.Result.{Result, ok, err}
use xv.Wallet.Accounts.{SultanTransaction, SignedTransaction}
use xv.Api.Readers.{BalanceResponse, Delegation, Readers}
use xv.Api.Request.{
  Request, Network, Trace, ApiError, Plain, Body, get, post, str, num, plain, nested,
  api_timeout_ms, rest_api,
}

pub record AccountBalance : Type 0 where
  pub address : Text
  pub available : Text
  pub balance : Text
  pub nonce : ℕ

-- The yearly yield is 13.33 always.
pub record StakingInfo : Type 0 where
  pub staker : Text
  pub staked : Text
  pub pending_rewards : Text
  pub validator : Option Text

abbrev pub get_request : Text → Request
get_request path = record {
  endpoint = path;
  method = get;
  body = none;
  timeout_ms = api_timeout_ms;
}

abbrev pub post_request : Text → Body → Request
post_request path body = record {
  endpoint = path;
  method = post;
  body = some body;
  timeout_ms = api_timeout_ms;
}

-- { address, available: '0', balance: '0', nonce: 0 }
abbrev pub zero_balance : Text → AccountBalance
zero_balance address = record {
  address = address;
  available = codes "0";
  balance = codes "0";
  nonce = 0;
}

unfoldable pub balance_of : Text → Result ApiError BalanceResponse → AccountBalance
balance_of address (err e) = zero_balance address
balance_of address (ok r) = record {
  address = r.balance_address;
  available = to_string r.balance_amount;
  balance = to_string r.balance_amount;
  nonce = r.balance_nonce;
}

-- result.reduce((sum, d) => sum + (f(d) || 0), 0)
abbrev pub sum_of : (Delegation → ℕ) → List Delegation → ℕ
sum_of f [] = 0
sum_of f (d ∷ l) = f d + sum_of f l

abbrev pub first_validator : List Delegation → Option Text
first_validator [] = none
first_validator (d ∷ l) = some d.validator_address

unfoldable pub staking_of : Text → Result ApiError (List Delegation) → StakingInfo
staking_of address (err e) = record {
  staker = address;
  staked = codes "0";
  pending_rewards = codes "0";
  validator = none;
}
staking_of address (ok l) = record {
  staker = address;
  staked = to_string (sum_of (λ d. d.amount) l);
  pending_rewards = to_string (sum_of (λ d. d.rewards_accumulated) l);
  validator = first_validator l;
}

-- The transaction in a body; a memo that is `undefined` is left out of the JSON.
abbrev pub transaction_fields : SultanTransaction → List (Text × Plain)
transaction_fields tx =
    (codes "from", str tx.from_address)
    ∷ (codes "to", str tx.to_address)
    ∷ (codes "amount", str tx.amount)
    ∷ (elim tx.memo [ none ↦ [] | some m ↦ (codes "memo", str m) ∷ [] ]
        ++ ((codes "nonce", num (pos tx.nonce)) ∷ (codes "timestamp", num (pos tx.timestamp)) ∷ []))

abbrev pub signed_body : SignedTransaction → Body
signed_body s =
    (codes "tx", nested (transaction_fields s.transaction))
    ∷ (codes "signature", plain (str s.signature))
    ∷ (codes "public_key", plain (str s.public_key))
    ∷ []

abbrev pub broadcast_request : SignedTransaction → Request
broadcast_request s = post_request (codes "/tx") (signed_body s)

abbrev pub stake_request : SignedTransaction → Request
stake_request s = post_request (codes "/staking/delegate") (signed_body s)

abbrev pub unstake_request : SignedTransaction → Request
unstake_request s = post_request (codes "/staking/undelegate") (signed_body s)

abbrev pub claim_request : SignedTransaction → Request
claim_request s = post_request (codes "/staking/withdraw_rewards") (signed_body s)

-- The arguments of `stake`; the one of `unstake` has no validator, and the one of `claimRewards` no
-- amount either.
pub record StakeRequest : Type 0 where
  pub delegator : Text
  pub stake_validator : Text
  pub stake_amount : Text
  pub stake_signature : Text
  pub stake_public_key : Text

pub record UnstakeRequest : Type 0 where
  pub delegator : Text
  pub stake_amount : Text
  pub stake_signature : Text
  pub stake_public_key : Text

pub record ClaimRewardsRequest : Type 0 where
  pub delegator : Text
  pub stake_signature : Text
  pub stake_public_key : Text

-- The transactions that the three build around the nonce and the time.
abbrev pub stake_transaction : StakeRequest → ℕ → ℕ → SignedTransaction
stake_transaction req nonce now = record {
  transaction = record {
    from_address = req.delegator;
    to_address = req.stake_validator;
    amount = req.stake_amount;
    memo = none;
    nonce = nonce;
    timestamp = now;
  };
  signature = req.stake_signature;
  public_key = req.stake_public_key;
}

abbrev pub unstake_transaction : UnstakeRequest → ℕ → ℕ → SignedTransaction
unstake_transaction req nonce now = record {
  transaction = record {
    from_address = req.delegator;
    to_address = [];
    amount = req.stake_amount;
    memo = none;
    nonce = nonce;
    timestamp = now;
  };
  signature = req.stake_signature;
  public_key = req.stake_public_key;
}

abbrev pub claim_transaction : ClaimRewardsRequest → ℕ → ℕ → SignedTransaction
claim_transaction req nonce now = record {
  transaction = record {
    from_address = req.delegator;
    to_address = [];
    amount = codes "0";
    memo = none;
    nonce = nonce;
    timestamp = now;
  };
  signature = req.stake_signature;
  public_key = req.stake_public_key;
}

module _ {J : Type 0} (readers : Readers J) (network : Network J) where
  abbrev pub balance_result : Text → Trace → Trace × Result ApiError BalanceResponse
  balance_result address =
      rest_api readers.read_balance network (get_request (codes "/balance/" ++ address))

  unfoldable pub get_balance : Text → Trace → Trace × AccountBalance
  unfolding balance_of
  get_balance address t = let (t', r) = balance_result address t in (t', balance_of address r)

  unfoldable pub get_staking_info : Text → Trace → Trace × StakingInfo
  unfolding staking_of
  get_staking_info address t =
      let (t', r) =
        rest_api readers.read_delegations network
          (get_request (codes "/staking/delegations/" ++ address)) t in
      (t', staking_of address r)

  unfoldable pub get_nonce : Text → Trace → Trace × ℕ
  unfolding get_balance
  get_nonce address t = let (t', b) = get_balance address t in (t', b.nonce)

  -- The answer is the transaction's hash.
  unfoldable pub broadcast_transaction : SignedTransaction → Trace → Trace × Result ApiError Text
  broadcast_transaction s = rest_api readers.read_hash network (broadcast_request s)

  unfoldable pub stake_tokens : SignedTransaction → Trace → Trace × Result ApiError Text
  stake_tokens s = rest_api readers.read_hash network (stake_request s)

  unfoldable pub unstake_tokens : SignedTransaction → Trace → Trace × Result ApiError Text
  unstake_tokens s = rest_api readers.read_hash network (unstake_request s)

  unfoldable pub claim_rewards : SignedTransaction → Trace → Trace × Result ApiError Text
  claim_rewards s = rest_api readers.read_hash network (claim_request s)

  -- The methods of `sultanAPI`, which ask for the nonce first. The clock is read after that.
  unfoldable pub stake : StakeRequest → ℕ → Trace → Trace × Result ApiError Text
  unfolding get_balance stake_tokens
  stake req now t =
      let (t', b) = get_balance req.delegator t in
      stake_tokens (stake_transaction req b.nonce now) t'

  unfoldable pub unstake : UnstakeRequest → ℕ → Trace → Trace × Result ApiError Text
  unfolding get_balance unstake_tokens
  unstake req now t =
      let (t', b) = get_balance req.delegator t in
      unstake_tokens (unstake_transaction req b.nonce now) t'

  unfoldable pub claim : ClaimRewardsRequest → ℕ → Trace → Trace × Result ApiError Text
  unfolding get_balance claim_rewards
  claim req now t =
      let (t', b) = get_balance req.delegator t in
      claim_rewards (claim_transaction req b.nonce now) t'
