-- ===== src/Totp/Backup.antt =====
-- The backup codes of wallet-extension/src/core/totp.ts.
pub mod Matching
pub mod Generated
mod Tests
use xv.Prelude.{
  keep, get_or, ℕ, zero, suc, ◌+◌, ◌-◌, ◌*◌, ◌/◌, ◌%◌, ◌^◌, ◌≤◌, ◌<◌, ◌≡◌, refl, ap, ◌≢◌, ◌↔◌, ◌⊎◌,
  inl, inr, Bool, true, false, not, ◌&&◌, ◌||◌, Option, none, some, List, [], ◌∷◌, ◌++◌, map, arith,
  length, ltb, leb, ◌==◌, if◌then◌else◌,
}
use xv.Prelude.Text.{Text, codes, is_space, to_upper}
use xv.Totp.Code.{text_constant_time_equal}

abbrev pub backup_code_count : ℕ
backup_code_count = 8

abbrev pub backup_code_chars : Text
backup_code_chars = codes "ABCDEFGHJKLMNPQRSTUVWXYZ23456789"

-- The inner loop from the index `j` on, with the number of characters left. `draw` gives the byte
-- that each call of `crypto.getRandomValues` returned, by the number of the call.
unfoldable pub generate_code : (ℕ → ℕ) → ℕ → ℕ → Text
generate_code draw zero j = []
generate_code draw (suc left) j =
    let char = get_or backup_code_chars (draw j % length backup_code_chars) 0 in
    let rest = generate_code draw left (j + 1) in if j == 4 then b'-' ∷ char ∷ rest else char ∷ rest

-- The outer loop from the code `i` on.
unfoldable pub generate_codes : (ℕ → ℕ) → ℕ → ℕ → List Text
unfolding generate_code
generate_codes draw zero i = []
generate_codes draw (suc left) i =
    generate_code (λ j. draw (8 * i + j)) 8 0 ∷ generate_codes draw left (i + 1)

unfoldable pub generate_backup_codes : (ℕ → ℕ) → List Text
unfolding generate_codes
generate_backup_codes draw = generate_codes draw backup_code_count 0

-- replace(/-/g, '')
abbrev pub without_dashes : Text → Text
without_dashes = keep (λ c. not (c == b'-'))

-- toUpperCase().replace(/\s|-/g, '')
abbrev pub normalize : Text → Text
normalize code = keep (λ c. not (is_space c || (c == b'-'))) (map to_upper code)

-- The loop over the valid codes; `none` is the source's -1.
unfoldable pub find_code : Text → List Text → Option ℕ
find_code input [] = none
find_code input (valid ∷ rest) =
    let later = find_code input rest in
    if text_constant_time_equal input (without_dashes valid)
    then some 0
    else elim later [ none ↦ none | some i ↦ some (suc i) ]

unfoldable pub verify_backup_code : Text → List Text → Option ℕ
unfolding find_code
verify_backup_code code valid_codes = find_code (normalize code) valid_codes
