-- ===== src/Security/Moniker/Kept.antt =====
-- What becomes of a moniker.
use xv.Prelude.{
  subst, length, sym, ◌≤◌, ◌∙◌, ◌+◌, if◌then◌else◌, ap, drop, Option, ◌==◌, some, none, false, suc,
  zero, keep, arith, Bool, not, ℕ, true, ◌≡◌, refl, all, ◌∷◌, [],
}
use xv.Prelude.Text.{is_space, codes, strip_prefix, lower_case, Text, trim}
use xv.Prelude.Trim.{trim-trim}
use xv.Security.Moniker.{
  moniker_required, MonikerError, answer_of, is_word, remove_matches, count_front, protocol_match,
  handler_match, equals_after_space, is_angle, is_moniker_character, sanitize_input,
  validate_moniker,
}
use xv.Prelude.Result.{Result, err, ok}

keep-all : (p : ℕ → Bool) (s : Text) → all p s ≡ true → keep p s ≡ s
keep-all p [] h = refl
keep-all p (c ∷ s) h = ground (arith, h, keep-all p s)

all-implies :
    (p q : ℕ → Bool)
    → ((c : ℕ) → p c ≡ true → q c ≡ true)
    → (s : Text) → all p s ≡ true
    → all q s ≡ true
all-implies p q f [] h = refl
all-implies p q f (c ∷ s) h = ground (arith, h, f c, all-implies p q f s)

not_character :
    (x c : ℕ) → is_moniker_character x ≡ false → is_moniker_character c ≡ true → not (c == x) ≡ true
not_character x c hx h = ground (arith, ap is_moniker_character {x = c} {y = x})

abbrev not_colon : ℕ → Bool
not_colon c = not (c == b':')

abbrev not_equals : ℕ → Bool
not_equals c = not (c == b'=')

kept_angles : (s : Text) → all is_moniker_character s ≡ true → all (λ c. not (is_angle c)) s ≡ true
kept_angles =
    all-implies is_moniker_character (λ c. not (is_angle c))
      (λ c h. ground (arith, not_character b'<' c refl h, not_character b'>' c refl h))

no_colon-lower :
    (s : Text) → all is_moniker_character s ≡ true → all not_colon (lower_case s) ≡ true
no_colon-lower [] h = refl
no_colon-lower (c ∷ s) h =
    ground (
      arith,
      h,
      not_character b':' c refl (ground (arith, h)),
      no_colon-lower s (ground (arith, h)),
    )

strip_prefix-missing :
    (test : ℕ → Bool) (p t : Text)
    → all test p ≡ false
    → all test t ≡ true
    → strip_prefix p t ≡ none
strip_prefix-missing test [] t hp ht = absurd (ground (arith, hp))
strip_prefix-missing test (c ∷ p) [] hp ht = refl
strip_prefix-missing test (c ∷ p) (d ∷ t) hp ht =
    ground (arith, ap test {x = c} {y = d}, hp, ht, strip_prefix-missing test p t)

no_protocol : (s : Text) → all is_moniker_character s ≡ true → protocol_match s ≡ none
no_protocol s h =
    ap
      (λ (o : Option Text).
        if elim o as (λ _. Bool) [ none ↦ false | some rest ↦ true ] then some 11 else none)
      (strip_prefix-missing not_colon (lower_case (codes "javascript:")) (lower_case s) refl
        (no_colon-lower s h))

all-drop : (test : ℕ → Bool) (n : ℕ) (s : Text) → all test s ≡ true → all test (drop n s) ≡ true
all-drop test zero s h = h
all-drop test (suc n) [] h = refl
all-drop test (suc n) (c ∷ s) h = all-drop test n s (ground (arith, h))

no_equals : (s : Text) → all not_equals s ≡ true → equals_after_space s ≡ none
no_equals s h =
    at_rest (drop (count_front is_space s) s) (all-drop not_equals (count_front is_space s) s h)
  where
    at_rest :
        (t : Text)
        → all not_equals t ≡ true
        → elim t as (λ _. Option ℕ) [
          | [] ↦ none
          | c ∷ u ↦ if c == b'=' then some (count_front is_space s + 1) else none
        ]
          ≡ none
    at_rest [] k = refl
    at_rest (c ∷ u) k = ground (arith, k)

no_handler : (s : Text) → all is_moniker_character s ≡ true → handler_match s ≡ none
no_handler s h =
    let word = count_front is_word (drop 2 s) in
    let no_sign = no_equals (drop (2 + word) s) (
      all-drop not_equals (2 + word) s
        (all-implies is_moniker_character not_equals (λ c. not_character b'=' c refl) s h)) in
    ground (arith, no_sign)

-- A replacement of what matches nowhere.
remove_matches-none :
    (match : Text → Option ℕ)
    → ((s : Text) → all is_moniker_character s ≡ true → match s ≡ none)
    → (s : Text) → all is_moniker_character s ≡ true
    → remove_matches match 0 s ≡ s
remove_matches-none match none_of [] h = refl
remove_matches-none match none_of (c ∷ s) h =
    rw (none_of (c ∷ s) h, remove_matches)
      (ap (λ (t : Text). c ∷ t) (remove_matches-none match none_of s (ground (arith, h))))

removed_nothing :
    (s : Text)
    → all is_moniker_character s ≡ true
    → remove_matches handler_match 0
        (remove_matches protocol_match 0 (keep (λ c. not (is_angle c)) s))
      ≡ s
removed_nothing s h =
    ap (λ (t : Text). remove_matches handler_match 0 (remove_matches protocol_match 0 t))
      (keep-all (λ c. not (is_angle c)) s (kept_angles s h))
    ∙ ap (remove_matches handler_match 0) (remove_matches-none protocol_match no_protocol s h)
    ∙ remove_matches-none handler_match no_handler s h

sanitize_input-plain : (s : Text) → all is_moniker_character s ≡ true → sanitize_input s ≡ trim s
unfolding sanitize_input trim
sanitize_input-plain [] h = refl
sanitize_input-plain (c ∷ s) h = rw (removed_nothing (c ∷ s) h) (ground arith)

sanitize_input-trimmed : (s : Text) → trim (sanitize_input s) ≡ sanitize_input s
unfolding sanitize_input
sanitize_input-trimmed s = by_length (length s == 0)
  where
    found : Text
    found =
        remove_matches handler_match 0
          (remove_matches protocol_match 0 (keep (λ c. not (is_angle c)) s))

    by_length : (b : Bool) → trim (if b then [] else trim found) ≡ (if b then [] else trim found)
    by_length true = refl
    by_length false = trim-trim found

-- What an accepted moniker has.
record IsMoniker (m : Text) : Type 0 where
  long_enough : 3 ≤ length m
  short_enough : length m ≤ 50
  plain : all is_moniker_character m ≡ true

answer_of-IsMoniker : (x m : Text) → answer_of x ≡ ok m → (m ≡ x) × IsMoniker x
answer_of-IsMoniker x m h = (
  ground (arith, h),
  record {
    long_enough = ground (arith, h);
    short_enough = ground (arith, h);
    plain = ground (arith, h);
  },
)

answer_of-accepts : (x : Text) → IsMoniker x → answer_of x ≡ ok x
answer_of-accepts x v = ground (arith, v.long_enough, v.short_enough, v.plain)

validate_moniker-answer :
    (s m : Text) → validate_moniker s ≡ ok m → answer_of (sanitize_input s) ≡ ok m
unfolding validate_moniker
validate_moniker-answer s m h = by_length (length s == 0) (answer_of (sanitize_input s)) h
  where
    by_length :
        (b : Bool) (r : Result MonikerError Text)
        → (if b then err moniker_required else r) ≡ ok m
        → r ≡ ok m
    by_length true r k = absurd (ground (arith, k))
    by_length false r k = k

validate_moniker-accepts :
    (m : Text) → IsMoniker m → sanitize_input m ≡ m → validate_moniker m ≡ ok m
unfolding validate_moniker
validate_moniker-accepts m v e =
    let full : (length m == 0) ≡ false = ground (arith, v.long_enough) in
    ap (λ (b : Bool). if b then err moniker_required else answer_of (sanitize_input m)) full
    ∙ ap answer_of e
    ∙ answer_of-accepts m v

-- A moniker that was accepted is accepted again, as it is: sanitizing leaves nothing that a second
-- pass would remove.
pub accepted_moniker_is_stable :
    (s m : Text) → validate_moniker s ≡ ok m → validate_moniker m ≡ ok m
accepted_moniker_is_stable s m h =
    let (same, v) = answer_of-IsMoniker (sanitize_input s) m (validate_moniker-answer s m h) in
    let v' : IsMoniker m = subst IsMoniker (sym same) v in
    validate_moniker-accepts m v'
      (sanitize_input-plain m v'.plain ∙ ap trim same ∙ sanitize_input-trimmed s ∙ sym same)
