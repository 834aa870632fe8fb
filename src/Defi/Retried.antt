-- ===== src/Defi/Retried.antt =====
-- How often a request is made.
use xv.Prelude.{
  subst, [], some, ◌↔◌, ◌≢◌, ◌∙◌, Bool-cases, ◌⊎◌, sym, ◌<◌, inr, inl, false, ap, ◌∷◌, true, ◌≡◌,
  refl, ℕ, zero, suc, ◌≤◌, arith,
}
use xv.Defi.{
  swap_body, post_options, outcome_result, SwapParams, retries_after, execute_swap, FetchError,
  fetch_retry_delay_ms, fetch_api, fetch_status, network_error, body_error, is_retried,
}
use xv.Api.Request.{
  Outcome, Network, Trace, FetchOptions, sent, slept, Failure, thrown, responded, abort_error,
  type_error, other_error, post, plain, str, status_ok,
}
use xv.Prelude.Result.{Result, ok, err}
use xv.Prelude.Text.{codes, Text}

-- What was done before the attempt after `n` failed ones.
abbrev pub failed_fetches : FetchOptions → ℕ → Trace → Trace
failed_fetches o zero t = t
failed_fetches o (suc n) t = slept fetch_retry_delay_ms ∷ sent o ∷ failed_fetches o n t

failed_fetches-after :
    (o : FetchOptions) (n : ℕ) (t : Trace)
    → failed_fetches o n (slept fetch_retry_delay_ms ∷ sent o ∷ t) ≡ failed_fetches o (suc n) t
failed_fetches-after o zero t = refl
failed_fetches-after o (suc n) t =
    ap (λ (x : Trace). slept fetch_retry_delay_ms ∷ sent o ∷ x) (failed_fetches-after o n t)

module _ {J : Type 0} (network : Network J) where
  -- The attempt after `n` failed ones.
  abbrev pub outcome_at : FetchOptions → Trace → ℕ → Outcome J
  outcome_at o t n = network (failed_fetches o n t) o

  -- `n` attempts fail with an error that is retried, and another one is the last: the retries are
  -- used up, or it ends otherwise.
  abbrev pub EndsAfter : ℕ → FetchOptions → Trace → Trace × Result FetchError J → ℕ → Type 0
  EndsAfter retries o t result n =
      (n ≤ retries)
      × ((m : ℕ) → m < n → retries_after (outcome_at o t m) ≡ true)
      × ((n ≡ retries) ⊎ (retries_after (outcome_at o t n) ≡ false))
      × (result ≡ (sent o ∷ failed_fetches o n t, outcome_result (outcome_at o t n)))

  none_before :
      (o : FetchOptions) (t : Trace) (m : ℕ) → m < 0 → retries_after (outcome_at o t m) ≡ true
  none_before o t m h = absurd (omega (arith, h))

  retried_before :
      (o : FetchOptions) (t : Trace) (n : ℕ)
      → retries_after (network t o) ≡ true
      → ((m : ℕ)
          → m < n
          → retries_after (outcome_at o (slept fetch_retry_delay_ms ∷ sent o ∷ t) m) ≡ true)
      → (m : ℕ) → m < suc n
      → retries_after (outcome_at o t m) ≡ true
  retried_before o t n first rest zero h = first
  retried_before o t n first rest (suc m) h =
      ap (λ (x : Trace). retries_after (network x o)) (sym (failed_fetches-after o m t))
      ∙ rest m (omega (arith, h))

  fetch_api-ends :
      (retries : ℕ) (o : FetchOptions) (t : Trace)
      → (n : ℕ) × EndsAfter retries o t (fetch_api network retries o t) n
  unfolding fetch_api
  fetch_api-ends zero o t = (0, (omega arith, none_before o t, inl refl, refl))
  fetch_api-ends (suc retries) o t = elim (Bool-cases (retries_after (network t o))) [
    | inr last ↦ (0, (omega arith, none_before o t, inr last, rw (last, fetch_api) refl))
    | inl first ↦
        let t' = slept fetch_retry_delay_ms ∷ sent o ∷ t in
        let (n, (bound, before, last, result)) = fetch_api-ends retries o t' in
        let same = failed_fetches-after o n t in
        (
          suc n,
          (
            omega (arith, bound),
            retried_before o t n first before,
            elim last [
              | inl all_used ↦ inl (ap suc all_used)
              | inr other ↦ inr (sym (ap (λ (x : Trace). retries_after (network x o)) same) ∙ other)
            ],
            again_lem retries o t first
                ∙ result
                ∙ ap (λ (x : Trace). (sent o ∷ x, outcome_result (network x o))) same,
          ),
        )
  ]
    where
      again_lem :
          (retries : ℕ) (o : FetchOptions) (t : Trace)
          → retries_after (network t o) ≡ true
          → fetch_api network (suc retries) o t
            ≡ fetch_api network retries o (slept fetch_retry_delay_ms ∷ sent o ∷ t)
      again_lem retries o t h = rw (h, fetch_api) refl

-- The request for a swap, written out.
abbrev pub swap_options : SwapParams → Text → FetchOptions
swap_options p signature = record {
  path = codes "/dex/swap";
  fetch_method = post;
  fetch_body = some (
      (codes "user", plain (str p.user))
      ∷ (codes "inputDenom", plain (str p.input_denom))
      ∷ (codes "outputDenom", plain (str p.output_denom))
      ∷ (codes "inputAmount", plain (str p.input_amount))
      ∷ (codes "minOutput", plain (str p.min_output))
      ∷ (codes "signature", plain (str signature))
      ∷ []);
}

-- After `n` posts, each followed by a second's sleep.
abbrev pub a_second_apart : FetchOptions → ℕ → Trace → Trace
a_second_apart o zero t = t
a_second_apart o (suc n) t = slept 1000 ∷ sent o ∷ a_second_apart o n t

-- The network failed other than by an abort.
abbrev pub FailsAgain : {J : Type 0} → Outcome J → Type 0
FailsAgain outcome = (e : Failure) × (outcome ≡ thrown e) × (e ≢ abort_error)

-- The answer to the last attempt: the body of a response with a status from 200 to 299, and
-- otherwise an error of its own for a bad status, for a body that cannot be read and for a failure
-- of the network.
pub data Answered {J : Type 0} : Outcome J → Result FetchError J → Type 0 where
  read_body :
      (status : ℕ) (json : J)
      → 200 ≤ status
      → status ≤ 299
      → Answered (responded status (ok json)) (ok json)
  unreadable :
      (status : ℕ) (e : Failure)
      → 200 ≤ status
      → status ≤ 299
      → Answered (responded status (err e)) (err (body_error e))
  bad_status :
      (status : ℕ) (body : Result Failure J)
      → (status < 200) ⊎ (299 < status)
      → Answered (responded status body) (err (fetch_status status))
  unreachable : (e : Failure) → Answered (thrown e) (err (network_error e))

outcome_result-Answered : {J : Type 0} → (o : Outcome J) → Answered o (outcome_result o)
outcome_result-Answered (thrown e) = unreachable e
outcome_result-Answered (responded status (ok json)) = elim (Bool-cases (status_ok status)) [
  | inl good ↦ rw good (read_body status json (ground (arith, good)) (ground (arith, good)))
  | inr bad ↦ rw bad (bad_status status (ok json) (ground (arith, bad)))
]
outcome_result-Answered (responded status (err e)) = elim (Bool-cases (status_ok status)) [
  | inl good ↦ rw good (unreadable status e (ground (arith, good)) (ground (arith, good)))
  | inr bad ↦ rw bad (bad_status status (err e) (ground (arith, bad)))
]

is_retried_iff : (e : Failure) → (is_retried e ≡ true) ↔ (e ≢ abort_error)
is_retried_iff abort_error = ((λ h. absurd (ground (arith, h))), (λ h. absurd (h refl)))
is_retried_iff type_error = ((λ h k. ground (arith, k)), (λ h. refl))
is_retried_iff (other_error message) = ((λ h k. ground (arith, k)), (λ h. refl))

retries_after_iff : {J : Type 0} → (o : Outcome J) → (retries_after o ≡ true) ↔ FailsAgain o
retries_after_iff (responded status body) =
    ((λ h. absurd (ground (arith, h))), (λ (e, h, k). absurd (ground (arith, h))))
retries_after_iff (thrown e) = (
  (λ h. (e, refl, (is_retried_iff e).0 h)),
  (λ (e', same, other). (is_retried_iff e).1 (λ abort. other (ground (arith, same, abort)))),
)

failed_fetches-a_second_apart :
    (o : FetchOptions) (n : ℕ) (t : Trace) → failed_fetches o n t ≡ a_second_apart o n t
failed_fetches-a_second_apart o zero t = refl
failed_fetches-a_second_apart o (suc n) t =
    ap (λ (x : Trace). slept 1000 ∷ sent o ∷ x) (failed_fetches-a_second_apart o n t)

module _ {J : Type 0} (network : Network J) where
  -- `n` posts fail other than by an abort, and another one is the last and is answered: it is the
  -- fourth one, or it does not fail so.
  abbrev pub SwapEnds : SwapParams → Text → Trace → Trace × Result FetchError J → ℕ → Type 0
  SwapEnds p signature t result n =
      let o = swap_options p signature in
      (n ≤ 3)
      × ((m : ℕ) → m < n → FailsAgain (network (a_second_apart o m t) o))
      × ((n ≡ 3) ⊎ ¬ FailsAgain (network (a_second_apart o n t) o))
      × (result.0 ≡ sent o ∷ a_second_apart o n t)
      × Answered (network (a_second_apart o n t) o) result.1

  swap_options_lem :
      (p : SwapParams) (signature : Text)
      → post_options (codes "/dex/swap") (swap_body p signature) ≡ swap_options p signature
  unfolding swap_body
  swap_options_lem p signature = refl

  ends-SwapEnds :
      (p : SwapParams) (signature : Text) (t : Trace) (result : Trace × Result FetchError J) (n : ℕ)
      → EndsAfter network 3 (swap_options p signature) t result n
      → SwapEnds p signature t result n
  ends-SwapEnds p signature t result n (bound, before, last, done) =
      let o = swap_options p signature in
      let at : (m : ℕ) → outcome_at network o t m ≡ network (a_second_apart o m t) o =
        λ m. ap (λ (x : Trace). network x o) (failed_fetches-a_second_apart o m t) in
      (
        bound,
        (λ m h.
            subst (λ (x : Outcome J). FailsAgain x) (at m)
              ((retries_after_iff (outcome_at network o t m)).0 (before m h))),
        elim last [
          | inl all_used ↦ inl all_used
          | inr other ↦ inr (λ again.
              let yes = (retries_after_iff (network (a_second_apart o n t) o)).1 again in
              let no = ap retries_after (sym (at n)) ∙ other in ground (arith, yes, no))
        ],
        ap (λ x. x.0) done ∙ ap (λ (x : Trace). sent o ∷ x) (failed_fetches-a_second_apart o n t),
        subst (λ (r : Result FetchError J). Answered (network (a_second_apart o n t) o) r)
            (sym (ap (λ x. x.1) done ∙ ap outcome_result (at n)))
            (outcome_result-Answered (network (a_second_apart o n t) o)),
      )

  -- A swap is posted at least once and at most four times, each time with the swap's five fields
  -- and the same signature, and a thousand milliseconds after the one before. Another post follows
  -- exactly when the network failed other than by an abort while fewer than four were made. The
  -- last post gives the answer: the body of a response with a status from 200 to 299, and
  -- otherwise the error that names the status, the body that cannot be read or the failure.
  pub swap_is_posted_again :
      (p : SwapParams) (signature : Text) (t : Trace)
      → (n : ℕ) × SwapEnds p signature t (execute_swap network p signature t) n
  unfolding execute_swap swap_body
  swap_is_posted_again p signature t =
      let (n, ends) = fetch_api-ends network 3 (swap_options p signature) t in
      (n, ends-SwapEnds p signature t (execute_swap network p signature t) n ends)
