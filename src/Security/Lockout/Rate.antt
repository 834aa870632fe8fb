-- ===== src/Security/Lockout/Rate.antt =====
-- How fast PINs can be guessed, when each guess is made only if the wallet is not locked.
use xv.Prelude.{
  ℕ, ◌+◌, ◌≤◌, ◌<◌, ◌≡◌, ◌≢◌, ◌⊎◌, false, Option, none, some, List, [], ◌∷◌, ◌++◌, arith, length,
  if◌then◌else◌, Bool-cases, inl, inr,
}
use xv.Security.Limits.{max_pin_attempts, lockout_duration_ms}
use xv.Security.Lockout.{
  Entry, saved, LockoutState, is_locked_out, record_failed_attempt, get_lockout_state,
}

-- A guess that fails: the clock when the lockout is tested, and the three readings of the clock
-- while the failure is recorded.
pub record Guess : Type 0 where
  pub gate : ℕ
  pub now0 : ℕ
  pub now1 : ℕ
  pub now2 : ℕ

abbrev pub fail : Entry → Guess → Entry
fail e g = (record_failed_attempt g.now0 g.now1 g.now2 e).0

-- Failed guesses in turn; `none` if the wallet is locked when one is to be made.
unfoldable pub guess_all : Entry → List Guess → Option Entry
guess_all e [] = some e
guess_all e (g ∷ gs) =
    let rest = guess_all (fail e g) gs in if is_locked_out g.gate e then none else rest

-- The clock does not go back, from the time `t` on.
abbrev pub InOrder : ℕ → List Guess → Type 0
InOrder t [] = Unit
InOrder t (g ∷ gs) =
    (t ≤ g.gate) × (g.gate ≤ g.now0) × (g.now0 ≤ g.now1) × (g.now1 ≤ g.now2) × InOrder g.now2 gs

InOrder-last :
    (t : ℕ) (gs : List Guess) (final : Guess) → InOrder t (gs ++ final ∷ []) → t ≤ final.now0
InOrder-last t [] final h = omega arith
InOrder-last t (g ∷ gs) final h = omega (arith, InOrder-last g.now2 gs final h.4)

-- At least one attempt is counted, at `since` or later, and the limit is enforced.
record Counts (since : ℕ) (s : LockoutState) : Type 0 where
  recent : since ≤ s.last_attempt
  some_attempt : 1 ≤ s.attempts
  enforced : max_pin_attempts ≤ s.attempts → s.last_attempt + lockout_duration_ms ≤ s.locked_until

abbrev after : Entry → Guess → LockoutState
after e g = get_lockout_state (fail e g)

fail-eq-saved : (e : Entry) (g : Guess) → fail e g ≡ saved (after e g)
unfolding record_failed_attempt
fail-eq-saved e g = ground arith

-- The first failure of a run, from whatever was stored.
Counts-first : (e : Entry) (g : Guess) → g.now1 ≤ g.now2 → Counts g.now1 (after e g)
unfolding record_failed_attempt
Counts-first e g h = ground arith

-- A later failure counts one more, or the last one is more than the lockout duration ago.
Counts-next :
    (since : ℕ) (s : LockoutState) (g : Guess)
    → Counts since s
    → since ≤ g.now1
    → g.now1 ≤ g.now2
    → (s.attempts < (after (saved s) g).attempts ⊎ s.last_attempt + lockout_duration_ms < g.now0)
      × Counts since (after (saved s) g)
unfolding record_failed_attempt
Counts-next since s g c h1 h2 = ground arith

-- A guess that was made passed the test of the lockout, and the run went on.
guess_all-cons :
    (e : Entry) (g : Guess) (gs : List Guess)
    → guess_all e (g ∷ gs) ≢ none
    → (is_locked_out g.gate e ≡ false) × (guess_all (saved (after e g)) gs ≢ none)
unfolding guess_all
guess_all-cons e g gs run = elim (Bool-cases (is_locked_out g.gate e)) [
  | inl locked ↦ absurd (run (rw locked))
  | inr open_gate ↦ (open_gate, λ h. run (rw (open_gate, fail-eq-saved e g) h))
]

not_locked-le : (t : ℕ) (s : LockoutState) → is_locked_out t (saved s) ≡ false → s.locked_until ≤ t
unfolding is_locked_out
not_locked-le t s h = ground arith

now0_of_run :
    (since t : ℕ) (s : LockoutState) (gs : List Guess) (final : Guess)
    → Counts since s
    → since ≤ t
    → 5 ≤ s.attempts + length gs
    → InOrder t (gs ++ final ∷ [])
    → guess_all (saved s) (gs ++ final ∷ []) ≢ none
    → since + lockout_duration_ms ≤ final.now0
now0_of_run since t s [] final c later enough order run =
    let (passed, _) = guess_all-cons (saved s) final [] run in
    omega (arith, not_locked-le final.gate s passed)
now0_of_run since t s (g ∷ gs) final c later enough order run =
    let (passed, rest) = guess_all-cons (saved s) g (gs ++ final ∷ []) run in
    let (grows, counts) = Counts-next since s g c (omega arith) (omega arith) in
    elim grows [
      | inl more ↦
          now0_of_run since g.now2 (after (saved s) g) gs final counts (omega arith) (omega arith)
            order.4 rest
      | inr apart ↦ omega (arith, c.recent, InOrder-last g.now2 gs final order.4)
    ]

-- Of guesses that were all made and all failed, from any stored state and with a clock that does
-- not go back, the sixth after any first one is recorded a whole lockout duration later.
pub six_guesses_take_the_duration :
    (e : Entry) (first : Guess) (between : List Guess) (final : Guess)
    → 4 ≤ length between
    → InOrder 0 (first ∷ between ++ final ∷ [])
    → guess_all e (first ∷ between ++ final ∷ []) ≢ none
    → first.now1 + lockout_duration_ms ≤ final.now0
six_guesses_take_the_duration e first between final enough order run =
    let (_, rest) = guess_all-cons e first (between ++ final ∷ []) run in
    let counts = Counts-first e first order.3 in
    now0_of_run first.now1 first.now2 (after e first) between final counts order.3
      (omega (arith, counts.some_attempt)) order.4 rest
