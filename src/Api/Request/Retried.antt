-- ===== src/Api/Request/Retried.antt =====
-- When a request is made again, and what its call answers with in the end.
use xv.Prelude.{
  sym, subst, Bool-cases, some, none, Option, ◌≡◌, ◌≤◌, ◌<◌, ◌⊎◌, inl, inr, refl, ◌+◌, ◌==◌,
  if◌then◌else◌, Bool, true, false, ℕ, zero, suc, [], ◌∷◌, arith,
}
use xv.Prelude.Text.{Text}
use xv.Prelude.Result.{Result, ok, err}
use xv.Api.Request.{
  Request, FetchOptions, Outcome, Failure, ApiError, Trace, Network, thrown, responded, abort_error,
  type_error, other_error, timed_out, api_status, invalid_response, network_failed, other_failure,
  sent, slept, again, done, retry_delay, fetch_options, retryable_status, status_ok, attempt_step,
  request_loop, rest_api,
}

-- A failure that passes: no connection, or a status that says so.
abbrev pub transient : {J : Type 0} → Outcome J → Bool
transient (thrown abort_error) = false
transient (thrown type_error) = true
transient (thrown (other_error m)) = false
transient (responded s json) =
    if status_ok s
    then elim json [
      | ok j ↦ false
      | err e ↦ elim e [ abort_error ↦ false | type_error ↦ true | other_error m ↦ false ]
    ]
    else retryable_status s

abbrev pub error_of : ℕ → Failure → ApiError
error_of timeout abort_error = timed_out timeout
error_of timeout type_error = network_failed
error_of timeout (other_error m) = other_failure m

-- What an outcome means to the caller.
abbrev pub verdict :
    {J : Type 0} {A : Type 0} → (J → Result Text A) → ℕ → Outcome J → Result ApiError A
verdict read timeout (thrown e) = err (error_of timeout e)
verdict read timeout (responded s json) =
    if status_ok s
    then elim json [
      | err e ↦ err (error_of timeout e)
      | ok j ↦ elim (read j) [ ok a ↦ ok a | err issue ↦ err (invalid_response issue) ]
    ]
    else err (api_status s)

-- What was done before the attempt after `n` failed ones.
abbrev pub failed_attempts : FetchOptions → ℕ → Trace → Trace
failed_attempts f zero t = t
failed_attempts f (suc n) t = slept (retry_delay n) ∷ sent f ∷ failed_attempts f n t

-- The milliseconds that a trace sleeps.
abbrev pub time_slept : Trace → ℕ
time_slept [] = 0
time_slept (sent f ∷ t) = time_slept t
time_slept (slept ms ∷ t) = ms + time_slept t

module _ {J A : Type 0} (read : J → Result Text A) (timeout : ℕ) where
  -- A transient failure is followed by another attempt while one is left.
  attempt_step-again :
      (attempt : ℕ) (o : Outcome J)
      → attempt < 2
      → transient o ≡ true
      → (e : Option ApiError) × (attempt_step read timeout attempt o ≡ again e)
  unfolding attempt_step
  attempt_step-again attempt (thrown abort_error) h p = absurd (ground (arith, p))
  attempt_step-again attempt (thrown type_error) h p = (some network_failed, ground (arith, h))
  attempt_step-again attempt (thrown (other_error m)) h p = absurd (ground (arith, p))
  attempt_step-again attempt (responded s json) h p = elim (Bool-cases (status_ok s)) [
    | inr refused ↦ (none, ground (arith, h, p, refused))
    | inl accepted ↦ by_json json accepted p
  ]
    where
      by_json :
          (json : Result Failure J)
          → status_ok s ≡ true
          → transient (responded s json) ≡ true
          → (e : Option ApiError) × (attempt_step read timeout attempt (responded s json) ≡ again e)
      by_json (ok j) accepted q = absurd (ground (arith, q, accepted))
      by_json (err abort_error) accepted q = absurd (ground (arith, q, accepted))
      by_json (err type_error) accepted q = (some network_failed, ground (arith, h, accepted))
      by_json (err (other_error m)) accepted q = absurd (ground (arith, q, accepted))

  -- Any other outcome, and any outcome of the last attempt, is what the caller gets.
  attempt_step-done :
      (attempt : ℕ) (o : Outcome J)
      → (2 ≤ attempt) ⊎ (transient o ≡ false)
      → attempt_step read timeout attempt o ≡ done (verdict read timeout o)
  unfolding attempt_step
  attempt_step-done attempt (thrown abort_error) h = refl
  attempt_step-done attempt (thrown type_error) h = ground (arith, h)
  attempt_step-done attempt (thrown (other_error m)) h = refl
  attempt_step-done attempt (responded s (ok j)) h = ground (arith, h)
  attempt_step-done attempt (responded s (err abort_error)) h = ground (arith, h)
  attempt_step-done attempt (responded s (err type_error)) h = ground (arith, h)
  attempt_step-done attempt (responded s (err (other_error m))) h = ground (arith, h)

failed_attempts_sleep :
    (f : FetchOptions) (t : Trace) (n : ℕ)
    → n ≤ 2
    → time_slept (failed_attempts f n t) ≤ time_slept t + 3000
failed_attempts_sleep f t zero h = omega arith
failed_attempts_sleep f t (suc zero) h = omega arith
failed_attempts_sleep f t (suc (suc zero)) h = omega arith
failed_attempts_sleep f t (suc (suc (suc n))) h = absurd (omega (arith, h))

module _ {J A : Type 0} (read : J → Result Text A) (network : Network J) (r : Request)
    (t : Trace) where
  abbrev seen : ℕ → Outcome J
  seen n = network (failed_attempts (fetch_options r) n t) (fetch_options r)

  -- The call with the attempts from the n-th on, and how it ends.
  abbrev EndsAfter : ℕ → Trace × Result ApiError A → Type 0
  EndsAfter n result =
      ((k : ℕ) → k < n → transient (seen k) ≡ true)
      × ((n ≡ 2) ⊎ (transient (seen n) ≡ false))
      × (result ≡ (
        sent (fetch_options r) ∷ failed_attempts (fetch_options r) n t,
        verdict read r.timeout_ms (seen n),
      ))

  abbrev AllBefore : (n : ℕ) → Type 0
  AllBefore n = (k : ℕ) → k < n → transient (seen k) ≡ true

  one_more : (n : ℕ) → AllBefore n → transient (seen n) ≡ true → AllBefore (suc n)
  one_more n h e k hk = elim (Bool-cases (k == n)) [
    | inl same ↦ subst (λ i. transient (seen i) ≡ true) (ground (arith, same)) e
    | inr other ↦ h k (ground (arith, other, hk))
  ]

  settled_ends :
      (left n : ℕ) (last : Option ApiError)
      → n ≤ 2
      → (n ≡ 2) ⊎ (transient (seen n) ≡ false)
      → AllBefore n
      → (m : ℕ) × (m ≤ 2)
        × EndsAfter m
            (request_loop read network (suc left) n last r (failed_attempts (fetch_options r) n t))
  unfolding request_loop
  settled_ends left n last h why before = (
    n,
    h,
    (
      before,
      why,
      rw (attempt_step-done read r.timeout_ms n (seen n) (ground (arith, why)), request_loop) refl,
    ),
  )

  loop_continues :
      (left n : ℕ) (last e : Option ApiError)
      → attempt_step read r.timeout_ms n (seen n) ≡ again e
      → request_loop read network (suc left) n last r (failed_attempts (fetch_options r) n t)
        ≡ request_loop read network left
            (suc n)
            (elim e [ none ↦ last | some f ↦ some f ])
            r
            (failed_attempts (fetch_options r) (suc n) t)
  unfolding request_loop
  loop_continues left n last e h = rw (h, request_loop) refl

  -- The loop at its n-th attempt with the attempts left that make three.
  loop_ends :
      (left n : ℕ) (last : Option ApiError)
      → n + left ≡ 2
      → AllBefore n
      → (m : ℕ) × (m ≤ 2)
        × EndsAfter m
            (request_loop read network (suc left) n last r (failed_attempts (fetch_options r) n t))
  unfolding request_loop
  loop_ends zero n last h before =
      settled_ends zero n last (omega (arith, h)) (inl (omega (arith, h))) before
  loop_ends (suc left) n last h before = elim (Bool-cases (transient (seen n))) [
    | inr settled ↦ settled_ends (suc left) n last (omega (arith, h)) (inr settled) before
    | inl passing ↦
        let (e, continues) =
          attempt_step-again read r.timeout_ms n (seen n) (omega (arith, h)) passing in
        let (m, bound, ends) =
          loop_ends left (suc n) (elim e [ none ↦ last | some f ↦ some f ]) (omega (arith, h))
            (one_more n before passing) in
        (m, bound, subst (EndsAfter m) (sym (loop_continues (suc left) n last e continues)) ends)
  ]

  -- A call makes its request again after each transient failure, at most twice, and sleeps for one second
  -- and then two seconds before that, three in all. It always ends with what the last outcome that it
  -- saw means, so never with the error that its loop is left with.
  pub rest_api_ends :
      (n : ℕ) × (n ≤ 2)
      × ((k : ℕ)
          → k < n
          → transient (network (failed_attempts (fetch_options r) k t) (fetch_options r)) ≡ true)
      × ((n ≡ 2)
          ⊎ (transient (network (failed_attempts (fetch_options r) n t) (fetch_options r)) ≡ false))
      × (rest_api read network r t ≡ (
        sent (fetch_options r) ∷ failed_attempts (fetch_options r) n t,
        verdict read r.timeout_ms
            (network (failed_attempts (fetch_options r) n t) (fetch_options r)),
      ))
      × (time_slept (rest_api read network r t).0 ≤ time_slept t + 3000)
  unfolding rest_api
  rest_api_ends =
      let (n, bound, (before, why, e)) =
        loop_ends 2 0 none refl (λ k h. absurd (omega (arith, h))) in
      (n, bound, before, why, e, rw e (failed_attempts_sleep (fetch_options r) t n bound))
