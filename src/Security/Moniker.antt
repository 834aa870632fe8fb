-- ===== src/Security/Moniker.antt =====
-- `sanitizeInput` and `validateMoniker` of wallet-extension/src/core/security.ts. Each replacement is one
-- pass from the left, and a letter that is looked for stands for both of its cases.
pub mod Kept
mod Tests
use xv.Prelude.{
  all, keep, ◌&&◌, ltb, ◌+◌, ◌||◌, length, drop, ◌==◌, leb, ◌-◌, if◌then◌else◌, Option, Bool, ◌∷◌,
  [], some, none, false, true, ℕ, zero, suc, not,
}
use xv.Prelude.Text.{lower_case, strip_prefix, Text, codes, trim, is_space, is_digit}
use xv.Prelude.Result.{Result, err, ok}

abbrev pub min_moniker_length : ℕ
min_moniker_length = 3

abbrev pub max_moniker_length : ℕ
max_moniker_length = 50

pub data MonikerError : Type 0 where
  moniker_required moniker_short moniker_long moniker_characters : MonikerError

-- /[<>]/
abbrev pub is_angle : ℕ → Bool
is_angle c = (c == b'<') || (c == b'>')

abbrev is_letter : ℕ → Bool
is_letter c = (leb b'a' c && leb c b'z') || (leb b'A' c && leb c b'Z')

-- /\w/
abbrev pub is_word : ℕ → Bool
is_word c = is_letter c || is_digit c || (c == b'_')

-- /[a-zA-Z0-9\s_-]/
abbrev pub is_moniker_character : ℕ → Bool
is_moniker_character c = is_word c || is_space c || (c == b'-')

-- /^prefix/i, returning what follows
abbrev pub strip_prefix_any_case : Text → Text → Option Text
strip_prefix_any_case prefix s = strip_prefix (lower_case prefix) (lower_case s)

abbrev pub starts_any_case : Text → Text → Bool
starts_any_case prefix s = elim (strip_prefix_any_case prefix s) [ none ↦ false | some rest ↦ true ]

-- The number of characters at the front that pass a test.
abbrev pub count_front : (ℕ → Bool) → Text → ℕ
count_front test [] = 0
count_front test (c ∷ s) = let rest = count_front test s in if test c then suc rest else 0

-- \s*=, returning how many characters it matches
abbrev pub equals_after_space : Text → Option ℕ
equals_after_space s =
    let spaces = count_front is_space s in
    elim (drop spaces s) [ [] ↦ none | c ∷ t ↦ if c == b'=' then some (spaces + 1) else none ]

-- on\w+\s*=, returning how many characters it matches. No character of a word is a space or the sign,
-- so that the longest word is the one that matches.
abbrev pub handler_match : Text → Option ℕ
handler_match s =
    let word = count_front is_word (drop 2 s) in
    if starts_any_case (codes "on") s && not (word == 0)
    then elim (equals_after_space (drop (2 + word) s)) [
      | none ↦ none
      | some n ↦ some (2 + word + n)
    ]
    else none

abbrev pub protocol_match : Text → Option ℕ
protocol_match s = if starts_any_case (codes "javascript:") s then some 11 else none

-- s.replace(pattern, '') of a global pattern, with the number of characters that are still removed.
abbrev pub remove_matches : (Text → Option ℕ) → ℕ → Text → Text
remove_matches match skip [] = []
remove_matches match (suc skip) (c ∷ s) = remove_matches match skip s
remove_matches match zero (c ∷ s) = elim (match (c ∷ s)) [
  | none ↦ c ∷ remove_matches match 0 s
  | some n ↦ remove_matches match (n - 1) s
]

unfoldable pub sanitize_input : Text → Text
unfolding trim
sanitize_input input =
    if length input == 0
    then []
    else trim (
        remove_matches handler_match 0
          (remove_matches protocol_match 0 (keep (λ c. not (is_angle c)) input)))

-- The tests of the sanitized moniker.
abbrev pub answer_of : Text → Result MonikerError Text
answer_of sanitized =
    if ltb (length sanitized) min_moniker_length
    then err moniker_short
    else if ltb max_moniker_length (length sanitized)
    then err moniker_long
    else if not (not (length sanitized == 0) && all is_moniker_character sanitized)
    then err moniker_characters
    else ok sanitized

-- The answer: an error, or the sanitized moniker.
unfoldable pub validate_moniker : Text → Result MonikerError Text
unfolding sanitize_input
validate_moniker moniker =
    if length moniker == 0 then err moniker_required else answer_of (sanitize_input moniker)
