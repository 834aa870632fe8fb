-- ===== src/Defi.antt =====
-- The client of defi-hub/src/api/defiApi.ts: `fetchApi` and the functions that call it, but for the quote
-- of a swap, which computes in floating point. The network is that of Api/Request; a response that is not
-- ok is read as far as it can be, and its text is only shown.
pub mod Retried
mod Tests
use xv.Prelude.{
  Bool, if◌then◌else◌, false, true, ℕ, zero, suc, Option, none, some, List, [], ◌∷◌, ◌++◌,
}
use xv.Prelude.Text.{Text, codes}
use xv.Prelude.Int.{pos}
use xv.Prelude.Result.{Result, ok, err}
use xv.Api.Request.{
  Field, Network, Trace, FetchOptions, Outcome, Failure, Body, Plain, get, post, plain, thrown,
  responded, abort_error, type_error, other_error, sent, slept, status_ok,
}

abbrev pub max_fetch_retries : ℕ
max_fetch_retries = 3

abbrev pub fetch_retry_delay_ms : ℕ
fetch_retry_delay_ms = 1000

-- What `fetchApi` rejects with: the status, a network error, or what `json` rejects with, which is not
-- awaited in the try block.
pub data FetchError : Type 0 where
  fetch_status : ℕ → FetchError
  network_error body_error : Failure → FetchError

abbrev pub get_options : Text → FetchOptions
get_options path = record { path = path; fetch_method = get; fetch_body = none }

abbrev pub post_options : Text → Body → FetchOptions
post_options path body = record { path = path; fetch_method = post; fetch_body = some body }

-- An error that is followed by another attempt while one is left.
abbrev pub is_retried : Failure → Bool
is_retried abort_error = false
is_retried type_error = true
is_retried (other_error message) = true

abbrev pub response_result : {J : Type 0} → ℕ → Result Failure J → Result FetchError J
response_result status (err e) =
    if status_ok status then err (body_error e) else err (fetch_status status)
response_result status (ok json) = if status_ok status then ok json else err (fetch_status status)

-- The outcome of an attempt, thrown errors included.
abbrev pub outcome_result : {J : Type 0} → Outcome J → Result FetchError J
outcome_result (responded status json) = response_result status json
outcome_result (thrown e) = err (network_error e)

abbrev pub retries_after : {J : Type 0} → Outcome J → Bool
retries_after (responded status json) = false
retries_after (thrown e) = is_retried e

module _ {J : Type 0} (network : Network J) where
  -- With the retries that are left.
  unfoldable pub fetch_api : ℕ → FetchOptions → Trace → Trace × Result FetchError J
  fetch_api zero o t = (sent o ∷ t, outcome_result (network t o))
  fetch_api (suc retries) o t = elim (retries_after (network t o)) [
    | true ↦ fetch_api retries o (slept fetch_retry_delay_ms ∷ sent o ∷ t)
    | false ↦ (sent o ∷ t, outcome_result (network t o))
  ]

  -- A function that answers with a value of its own after an error.
  unfoldable pub fetch_or : {A : Type 0} → (J → A) → A → FetchOptions → Trace → Trace × A
  unfolding fetch_api
  fetch_or read otherwise o t =
      let (t', r) = fetch_api max_fetch_retries o t in
      (t', elim r [ ok json ↦ read json | err e ↦ otherwise ])

-- DEMO_TOKENS, without the description.
pub record Token : Type 0 where
  pub denom : Text
  pub token_name : Text
  pub token_symbol : Text
  pub decimals : ℕ
  pub total_supply : Text

abbrev pub demo_tokens : List Token
demo_tokens =
    record {
      denom = codes "usltn";
      token_name = codes "Sultan";
      token_symbol = codes "SLTN";
      decimals = 9;
      total_supply = codes "500000000000000000";
    }
    ∷ record {
      denom = codes "uusdc";
      token_name = codes "USD Coin";
      token_symbol = codes "USDC";
      decimals = 6;
      total_supply = codes "1000000000000000";
    }
    ∷ record {
      denom = codes "uweth";
      token_name = codes "Wrapped Ether";
      token_symbol = codes "WETH";
      decimals = 18;
      total_supply = codes "100000000000000000000000";
    }
    ∷ record {
      denom = codes "uwbtc";
      token_name = codes "Wrapped Bitcoin";
      token_symbol = codes "WBTC";
      decimals = 8;
      total_supply = codes "2100000000000000";
    }
    ∷ []

-- result.tokens || []
abbrev pub or_empty : {A : Type 0} → Option (List A) → List A
or_empty none = []
or_empty (some l) = l

-- The parameters of a swap, with the signature.
pub record SwapParams : Type 0 where
  pub user : Text
  pub input_denom : Text
  pub output_denom : Text
  pub input_amount : Text
  pub min_output : Text

pub record LiquidityRemoval : Type 0 where
  pub user : Text
  pub pool_id : Text
  pub lp_tokens : Text
  pub min_amount0 : Text
  pub min_amount1 : Text

abbrev pub text_field : Text → Text → Text × Field
text_field name value = (name, plain (xv.Api.Request.str value))

-- JSON.stringify({ ...params, signature })
unfoldable pub swap_body : SwapParams → Text → Body
swap_body p signature =
    text_field (codes "user") p.user
    ∷ text_field (codes "inputDenom") p.input_denom
    ∷ text_field (codes "outputDenom") p.output_denom
    ∷ text_field (codes "inputAmount") p.input_amount
    ∷ text_field (codes "minOutput") p.min_output
    ∷ text_field (codes "signature") signature
    ∷ []

unfoldable pub removal_body : LiquidityRemoval → Text → Body
removal_body p signature =
    text_field (codes "user") p.user
    ∷ text_field (codes "poolId") p.pool_id
    ∷ text_field (codes "lpTokens") p.lp_tokens
    ∷ text_field (codes "minAmount0") p.min_amount0
    ∷ text_field (codes "minAmount1") p.min_amount1
    ∷ text_field (codes "signature") signature
    ∷ []

-- The lists and the objects are read as their fields stand; `none` is a missing field.
module _ {J : Type 0} (network : Network J) where
  unfoldable pub get_tokens : (J → Option (List Token)) → Trace → Trace × List Token
  unfolding fetch_or
  get_tokens read =
      fetch_or network (λ j. or_empty (read j)) demo_tokens (get_options (codes "/tokens"))

  unfoldable pub get_token : Text → Trace → Trace × Option J
  unfolding fetch_or
  get_token denom = fetch_or network some none (get_options (codes "/tokens/" ++ denom))

  unfoldable pub get_pools : {A : Type 0} → (J → Option (List A)) → Trace → Trace × List A
  unfolding fetch_or
  get_pools read = fetch_or network (λ j. or_empty (read j)) [] (get_options (codes "/dex/pools"))

  unfoldable pub get_pool : Text → Trace → Trace × Option J
  unfolding fetch_or
  get_pool pool_id = fetch_or network some none (get_options (codes "/dex/pools/" ++ pool_id))

  unfoldable pub get_user_positions :
      {A : Type 0} → (J → Option (List A)) → Text → Trace → Trace × List A
  unfolding fetch_or
  get_user_positions read address =
      fetch_or network (λ j. or_empty (read j)) []
        (get_options (codes "/dex/positions/" ++ address))

  unfoldable pub execute_swap : SwapParams → Text → Trace → Trace × Result FetchError J
  unfolding fetch_api swap_body
  execute_swap p signature =
      fetch_api network max_fetch_retries (post_options (codes "/dex/swap") (swap_body p signature))

  unfoldable pub remove_liquidity : LiquidityRemoval → Text → Trace → Trace × Result FetchError J
  unfolding fetch_api removal_body
  remove_liquidity p signature =
      fetch_api network max_fetch_retries
        (post_options (codes "/dex/remove-liquidity") (removal_body p signature))
