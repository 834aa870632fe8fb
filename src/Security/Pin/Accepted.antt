-- ===== src/Security/Pin/Accepted.antt =====
-- What an accepted PIN is.
use xv.Prelude.{
  subst, ◌∙◌, sym, Bool-cases, ==_iff, all, All, ℕ, suc, ◌+◌, ◌≤◌, ◌≡◌, refl, ◌↔◌, inl, inr, Bool,
  true, false, not, none, some, [], ◌∷◌, arith, length, ltb, ◌==◌, if◌then◌else◌,
}
use xv.Prelude.Text.{is_digit, Text}
use xv.Security.Pin.{
  repeated, sequential, not_digits, too_long, too_short, required, contains, ascends, validate_pin,
  set_size,
}
use xv.Security.Limits.{max_pin_length, min_pin_length}

-- Every character is the first one.
abbrev pub AllSame : ℕ → Text → Type 0
AllSame c = All (λ d. d ≡ c)

set_size-pos : (c : ℕ) (s : Text) → 1 ≤ set_size (c ∷ s)
set_size-pos c [] = ground arith
set_size-pos c (d ∷ s) = ground (arith, set_size-pos d s)

contains-AllSame : (c d : ℕ) (s : Text) → AllSame d s → contains c s ≡ true → c ≡ d
contains-AllSame c d [] h e = cc
contains-AllSame c d (x ∷ s) h e = ground (arith, contains-AllSame c d s h.1)

set_size-one : (c : ℕ) (s : Text) → (set_size (c ∷ s) ≡ 1) ↔ AllSame c s
set_size-one c [] = ((λ _. tt), λ _. refl)
set_size-one c (d ∷ s) = elim (Bool-cases (contains c (d ∷ s))) [
  | inl seen ↦ (
    λ e.
        let same = (set_size-one d s).0 (rw (← if_true seen) e) in
        let cd = contains-AllSame c d (d ∷ s) (refl, same) seen in
        (sym cd, subst (λ t. AllSame t s) (sym cd) same),
    λ h. if_true seen ∙ (set_size-one d s).1 (subst (λ t. AllSame t s) (sym h.0) h.1),
  )
  | inr new ↦ (
    λ e. absurd (omega (arith, if_false new, set_size-pos d s)),
    λ h. absurd (ground (arith, h.0)),
  )
]
  where
    if_true : contains c (d ∷ s) ≡ true → set_size (c ∷ d ∷ s) ≡ set_size (d ∷ s)
    if_true h = rw h

    if_false : contains c (d ∷ s) ≡ false → set_size (c ∷ d ∷ s) ≡ set_size (d ∷ s) + 1
    if_false h = rw h

not_ltb : (a b : ℕ) → ltb a b ≡ false → b ≤ a
not_ltb a b h = ground arith

suc-ne-zero : (n : ℕ) → (suc n == 0) ≡ false
suc-ne-zero n = ground arith

ltb-of_le : (a b : ℕ) → b ≤ a → ltb a b ≡ false
ltb-of_le a b h = ground arith

ne-true : (b : Bool) → ¬ (b ≡ true) → b ≡ false
ne-true true h = absurd (h refl)
ne-true false h = refl

-- The digits go up by one at each place.
abbrev pub GoesUp : Text → Type 0
GoesUp [] = Unit
GoesUp (c ∷ []) = Unit
GoesUp (c ∷ d ∷ s) = (d ≡ c + 1) × GoesUp (d ∷ s)

ascends-GoesUp : (s : Text) → all is_digit s ≡ true → (ascends s ≡ true) ↔ GoesUp s
ascends-GoesUp [] h = ((λ _. tt), λ _. refl)
ascends-GoesUp (c ∷ []) h = ((λ _. tt), λ _. refl)
ascends-GoesUp (c ∷ d ∷ s) h = ground (arith, ascends-GoesUp (d ∷ s))

-- What the checks ask of a PIN, from the first digit on.
pub record IsGoodPin (c : ℕ) (s : Text) : Type 0 where
  pub at_least : min_pin_length ≤ length (c ∷ s)
  pub at_most : length (c ∷ s) ≤ max_pin_length
  pub digits_only : all is_digit (c ∷ s) ≡ true
  pub not_rising : ¬ (GoesUp (c ∷ s))
  pub not_constant : ¬ (AllSame c s)

-- The chain of checks, over what each of them answers.
checks_pass :
    (empty short long digits rising constant : Bool)
    → ((if empty
          then some required
          else if short
          then some too_short
          else if long
          then some too_long
          else if not digits
          then some not_digits
          else if rising
          then some sequential
          else if constant
          then some repeated
          else none)
        ≡ none)
      ↔ ((empty ≡ false)
          × (short ≡ false)
          × (long ≡ false)
          × (digits ≡ true)
          × (rising ≡ false)
          × (constant ≡ false))
checks_pass empty short long digits rising constant = ground arith

validate_pin_sound : (c : ℕ) (s : Text) → validate_pin (c ∷ s) ≡ none → IsGoodPin c s
unfolding validate_pin
validate_pin_sound c s h =
    let (_, short, long, digits, rising, constant) = (checks_pass _ _ _ _ _ _).0 h in
    record {
      at_least = not_ltb _ _ short;
      at_most = not_ltb _ _ long;
      digits_only = digits;
      not_rising = λ up. cc (rising, (ascends-GoesUp (c ∷ s) digits).1 up);
      not_constant = λ same. cc (constant, (==_iff _ _).1 ((set_size-one c s).1 same));
    }

validate_pin_complete : (c : ℕ) (s : Text) → IsGoodPin c s → validate_pin (c ∷ s) ≡ none
unfolding validate_pin
validate_pin_complete c s h =
    (checks_pass (length (c ∷ s) == 0) (ltb (length (c ∷ s)) min_pin_length)
        (ltb max_pin_length (length (c ∷ s))) (all is_digit (c ∷ s)) (ascends (c ∷ s))
        (set_size (c ∷ s) == 1)).1
      (
        suc-ne-zero (length s),
        ltb-of_le _ _ h.at_least,
        ltb-of_le _ _ h.at_most,
        h.digits_only,
        ne-true (ascends (c ∷ s)) (λ e. h.not_rising ((ascends-GoesUp (c ∷ s) h.digits_only).0 e)),
        ne-true (set_size (c ∷ s) == 1)
            (λ e. h.not_constant ((set_size-one c s).0 ((==_iff _ _).0 e))),
      )

-- A PIN is accepted exactly if it has 6 to 12 characters, all of them digits, that do not go up by
-- one throughout and are not all the same; the empty text is not accepted.
pub validate_pin_iff :
    (pin : Text)
    → (validate_pin pin ≡ none) ↔ ((c : ℕ) × (s : Text) × (pin ≡ c ∷ s) × IsGoodPin c s)
validate_pin_iff [] = ((λ e. absurd (unfold validate_pin in cc)), λ h. absurd (cc (h.2)))
validate_pin_iff (c ∷ s) =
    (λ e. (c, s, refl, validate_pin_sound c s e), λ h. rw (h.2) (validate_pin_complete h.0 h.1 h.3))
