-- ===== src/Api/Request/Tests.antt =====
-- Examples for `restApi`.
use xv.Prelude.{◌+◌, ◌⊎◌, ◌<◌, refl, ◌≤◌, ℕ, ◌∷◌, [], none, false, true, ◌≡◌}
use xv.Prelude.Result.{Result, ok, err}
use xv.Prelude.Text.{Text, codes}
use xv.Api.Request.{
  Request, Network, get, thrown, responded, type_error, abort_error, sent, timed_out, api_status,
  fetch_options, rest_api,
}
use xv.Api.Request.Retried.{rest_api_ends, transient, verdict, failed_attempts, time_slept}

abbrev status_request : Request
status_request = record {
  endpoint = codes "/status";
  method = get;
  body = none;
  timeout_ms = 30000;
}

-- No connection at first, then a busy node, then an answer.
abbrev flaky : Network ℕ
flaky [] f = thrown type_error
flaky (a ∷ b ∷ []) f = responded 503 (ok 0)
flaky t f = responded 200 (ok 7)

abbrev slow : Network ℕ
slow t f = thrown abort_error

abbrev missing : Network ℕ
missing t f = responded 404 (ok 0)

abbrev busy : Network ℕ
busy t f = responded 503 (ok 0)

abbrev as_is : ℕ → Result Text ℕ
as_is n = ok n

flaky_answers : (rest_api as_is flaky status_request []).1 ≡ ok 7
unfolding rest_api
flaky_answers = refl

flaky_sleeps : time_slept (rest_api as_is flaky status_request []).0 ≡ 3000
unfolding rest_api
flaky_sleeps = refl

slow_times_out : (rest_api as_is slow status_request []).1 ≡ err (timed_out 30000)
unfolding rest_api
slow_times_out = refl

missing_is_not_retried :
    rest_api as_is missing status_request []
    ≡ (sent (fetch_options status_request) ∷ [], err (api_status 404))
unfolding rest_api
missing_is_not_retried = refl

busy_gives_up : (rest_api as_is busy status_request []).1 ≡ err (api_status 503)
unfolding rest_api
busy_gives_up = refl

rest_api_ends_example :
    (n : ℕ) × (n ≤ 2)
    × ((k : ℕ)
        → k < n
        → transient (
            flaky
              (failed_attempts (fetch_options status_request) k [])
              (fetch_options status_request))
          ≡ true)
    × ((n ≡ 2)
        ⊎ (transient (
              flaky
                (failed_attempts (fetch_options status_request) n [])
                (fetch_options status_request))
            ≡ false))
    × (rest_api as_is flaky status_request [] ≡ (
      sent (fetch_options status_request) ∷ failed_attempts (fetch_options status_request) n [],
      verdict as_is 30000 (
          flaky
            (failed_attempts (fetch_options status_request) n [])
            (fetch_options status_request)),
    ))
    × (time_slept (rest_api as_is flaky status_request []).0 ≤ time_slept [] + 3000)
rest_api_ends_example = rest_api_ends as_is flaky status_request []
