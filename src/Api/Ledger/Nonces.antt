-- ===== src/Api/Ledger/Nonces.antt =====
-- Which nonce the staking transactions carry.
use xv.Prelude.{◌≤◌, subst, ap, ℕ, ◌≡◌, ◌∷◌, refl}
use xv.Prelude.Text.{Text}
use xv.Prelude.Result.{Result, ok, err}
use xv.Api.Readers.{BalanceResponse, Readers}
use xv.Api.Request.{Request, Network, Trace, ApiError, sent, rest_api, fetch_options}
use xv.Api.Request.Retried.{failed_attempts, rest_api_ends}
use xv.Api.Ledger.{
  StakeRequest, UnstakeRequest, ClaimRewardsRequest, balance_result, balance_of, stake_request,
  unstake_request, claim_request, stake_transaction, unstake_transaction, claim_transaction, stake,
  unstake, claim,
}

abbrev pub nonce_of : Result ApiError BalanceResponse → ℕ
nonce_of (ok b) = b.balance_nonce
nonce_of (err e) = 0

pub nonce-balance_of :
    (address : Text) (r : Result ApiError BalanceResponse)
    → (balance_of address r).nonce ≡ nonce_of r
unfolding balance_of
nonce-balance_of address (ok b) = refl
nonce-balance_of address (err e) = refl

-- A call sends its request, for the last time after at most two failed attempts.
abbrev pub PostsAfter : {A : Type 0} → Trace → Request → Trace × A → Type 0
PostsAfter t r result =
    (n : ℕ) × (n ≤ 2) × (result.0 ≡ sent (fetch_options r) ∷ failed_attempts (fetch_options r) n t)

pub rest_api-PostsAfter :
    {J : Type 0} {A : Type 0} (read : J → Result Text A) (network : Network J) (r : Request)
    (t : Trace)
    → PostsAfter t r (rest_api read network r t)
rest_api-PostsAfter read network r t =
    let (n, bound, _, _, e, _) = rest_api_ends read network r t in (n, bound, ap (λ x. x.0) e)

module _ {J : Type 0} (readers : Readers J) (network : Network J) where
  -- The nonce that the transactions get, of the answer to the request for the balance.
  abbrev pub nonce_at : Text → Trace → ℕ
  nonce_at address t = nonce_of (balance_result readers network address t).1

  abbrev pub after_balance : Text → Trace → Trace
  after_balance address t = (balance_result readers network address t).0

  pub stake-PostsAfter :
      (req : StakeRequest) (now : ℕ) (t : Trace)
      → PostsAfter
          (after_balance req.delegator t)
          (stake_request (stake_transaction req (nonce_at req.delegator t) now))
          (stake readers network req now t)
  unfolding stake
  stake-PostsAfter req now t =
      subst
        (λ n.
          PostsAfter (after_balance req.delegator t) (stake_request (stake_transaction req n now))
            (stake readers network req now t))
        (nonce-balance_of req.delegator (balance_result readers network req.delegator t).1)
        (rest_api-PostsAfter readers.read_hash network _ _)

  pub unstake-PostsAfter :
      (req : UnstakeRequest) (now : ℕ) (t : Trace)
      → PostsAfter
          (after_balance req.delegator t)
          (unstake_request (unstake_transaction req (nonce_at req.delegator t) now))
          (unstake readers network req now t)
  unfolding unstake
  unstake-PostsAfter req now t =
      subst
        (λ n.
          PostsAfter (after_balance req.delegator t)
            (unstake_request (unstake_transaction req n now)) (unstake readers network req now t))
        (nonce-balance_of req.delegator (balance_result readers network req.delegator t).1)
        (rest_api-PostsAfter readers.read_hash network _ _)

  pub claim-PostsAfter :
      (req : ClaimRewardsRequest) (now : ℕ) (t : Trace)
      → PostsAfter
          (after_balance req.delegator t)
          (claim_request (claim_transaction req (nonce_at req.delegator t) now))
          (claim readers network req now t)
  unfolding claim
  claim-PostsAfter req now t =
      subst
        (λ n.
          PostsAfter (after_balance req.delegator t) (claim_request (claim_transaction req n now))
            (claim readers network req now t))
        (nonce-balance_of req.delegator (balance_result readers network req.delegator t).1)
        (rest_api-PostsAfter readers.read_hash network _ _)
