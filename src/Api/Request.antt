-- ===== src/Api/Request.antt =====
-- `restApi` of wallet-extension/src/api/sultanAPI.ts. The network is a parameter that answers a request
-- by what was done before it, so a node with any state is one. The reading of an answer is a parameter
-- too: the schema, or for a request without one the identity.
pub mod Retried
mod Tests
use xv.Prelude.{
  ltb, leb, ◌-◌, ◌+◌, ◌*◌, ◌^◌, ◌==◌, ◌&&◌, ◌||◌, not, if◌then◌else◌, Option, none, some, List, [],
  ◌∷◌, Bool, true, false, ℕ, zero, suc,
}
use xv.Prelude.Text.{Text}
use xv.Prelude.Int.{ℤ}
use xv.Prelude.Result.{Result, ok, err}

abbrev pub api_timeout_ms : ℕ
api_timeout_ms = 30000

abbrev pub max_retries : ℕ
max_retries = 3

abbrev pub initial_retry_delay_ms : ℕ
initial_retry_delay_ms = 1000

-- RETRYABLE_STATUS_CODES.includes(status)
abbrev pub retryable_status : ℕ → Bool
retryable_status s =
    (s == 408) || (s == 429) || (s == 500) || (s == 502) || (s == 503) || (s == 504)

-- response.ok
abbrev pub status_ok : ℕ → Bool
status_ok s = leb 200 s && leb s 299

pub data Method : Type 0 where
  get post : Method

-- What a body holds: a field that is `undefined` is left out of it, and NaN is printed as null.
pub data Plain : Type 0 where
  null : Plain
  str : Text → Plain
  num : ℤ → Plain

pub data Field : Type 0 where
  plain : Plain → Field
  nested : List (Text × Plain) → Field

abbrev pub Body : Type 0
Body = List (Text × Field)

-- The arguments of `restApi` besides the schema.
pub record Request : Type 0 where
  pub endpoint : Text
  pub method : Method
  pub body : Option Body
  pub timeout_ms : ℕ

-- What `fetch` is called with; the headers are the same for all requests.
pub record FetchOptions : Type 0 where
  pub path : Text
  pub fetch_method : Method
  pub fetch_body : Option Body

-- An error that is caught: an AbortError, a TypeError, or another one with its message.
pub data Failure : Type 0 where
  abort_error type_error : Failure
  other_error : Text → Failure

-- What an attempt sees: `fetch` throws, or there is a response with its status and what `json` does.
pub data Outcome (J : Type 0) : Type 0 where
  thrown : Failure → Outcome J
  responded : ℕ → Result Failure J → Outcome J

pub data ApiError : Type 0 where
  timed_out api_status : ℕ → ApiError
  invalid_response : Text → ApiError
  network_failed max_retries_exceeded : ApiError
  other_failure : Text → ApiError

-- What a call does, the newest first.
pub data Event : Type 0 where
  sent : FetchOptions → Event
  slept : ℕ → Event

abbrev pub Trace : Type 0
Trace = List Event

abbrev pub Network : Type 0 → Type 0
Network J = Trace → FetchOptions → Outcome J

-- What comes after an attempt: another one, with the error to keep, or the end.
pub data Next (A : Type 0) : Type 0 where
  again : Option ApiError → Next A
  done : Result ApiError A → Next A

abbrev pub retry_delay : ℕ → ℕ
retry_delay attempt = initial_retry_delay_ms * 2 ^ attempt

-- The `body` is only sent with a POST.
unfoldable pub fetch_options : Request → FetchOptions
fetch_options r = record {
  path = r.endpoint;
  fetch_method = r.method;
  fetch_body = elim r.method [ get ↦ none | post ↦ r.body ];
}

abbrev pub may_retry : ℕ → Bool
may_retry attempt = ltb attempt (max_retries - 1)

-- The catch block. An error of the response is thrown in the try block and is no TypeError.
unfoldable pub catch_error : {A : Type 0} → ℕ → ℕ → Failure → Next A
catch_error timeout attempt abort_error = done (err (timed_out timeout))
catch_error timeout attempt type_error =
    if may_retry attempt then again (some network_failed) else done (err network_failed)
catch_error timeout attempt (other_error message) = done (err (other_failure message))

module _ {J A : Type 0} (read : J → Result Text A) where
  -- The response's text that is no JSON is an error of `json`.
  unfoldable pub read_json : ℕ → ℕ → Result Failure J → Next A
  unfolding catch_error
  read_json timeout attempt (err e) = catch_error timeout attempt e
  read_json timeout attempt (ok json) = elim (read json) [
    | ok a ↦ done (ok a)
    | err issue ↦ done (err (invalid_response issue))
  ]

  unfoldable pub attempt_step : ℕ → ℕ → Outcome J → Next A
  unfolding catch_error read_json
  attempt_step timeout attempt (thrown e) = catch_error timeout attempt e
  attempt_step timeout attempt (responded status json) =
      if not (status_ok status)
      then if retryable_status status && may_retry attempt
        then again none
        else done (err (api_status status))
      else read_json timeout attempt json

  module _ (network : Network J) where
    -- The loop, with the number of attempts left.
    unfoldable pub request_loop :
        ℕ → ℕ → Option ApiError → Request → Trace → Trace × Result ApiError A
    unfolding attempt_step fetch_options
    request_loop zero attempt last_error r t =
        (t, err (elim last_error [ none ↦ max_retries_exceeded | some e ↦ e ]))
    request_loop (suc left) attempt last_error r t =
        elim (attempt_step r.timeout_ms attempt (network t (fetch_options r))) [
          | again e ↦
              request_loop left (suc attempt) (elim e [ none ↦ last_error | some f ↦ some f ]) r
                (slept (retry_delay attempt) ∷ sent (fetch_options r) ∷ t)
          | done result ↦ (sent (fetch_options r) ∷ t, result)
        ]

    unfoldable pub rest_api : Request → Trace → Trace × Result ApiError A
    unfolding request_loop
    rest_api r t = request_loop max_retries 0 none r t
