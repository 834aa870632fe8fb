-- ===== src/Totp/Backup/Matching.antt =====
-- Which of the backup codes an input stands for.
use xv.Prelude.{
  sym, subst, Bool-cases, All, remove_at, ℕ, zero, suc, ◌<◌, ◌≡◌, refl, ◌≢◌, inl, inr, Option, none,
  some, List, [], ◌∷◌, arith, length,
}
use xv.Prelude.Text.{Text}
use xv.Totp.Code.{text_constant_time_equal}
use xv.Totp.Code.Windows.{text_constant_time_equal_iff}
use xv.Totp.Backup.{normalize, verify_backup_code, find_code, without_dashes}

-- The input is the valid code at the index, and none before it.
abbrev pub FirstAt : Text → List Text → ℕ → Type 0
FirstAt input [] i = ⊥
FirstAt input (valid ∷ rest) zero = input ≡ without_dashes valid
FirstAt input (valid ∷ rest) (suc i) = (input ≢ without_dashes valid) × FirstAt input rest i

abbrev pub NoMatch : Text → List Text → Type 0
NoMatch input = All (λ valid. input ≢ without_dashes valid)

abbrev pub Verdict : Text → List Text → Option ℕ → Type 0
Verdict input valid_codes none = NoMatch input valid_codes
Verdict input valid_codes (some i) = FirstAt input valid_codes i

Verdict-cons :
    (input valid : Text) (rest : List Text) (o : Option ℕ)
    → input ≢ without_dashes valid
    → Verdict input rest o
    → Verdict input (valid ∷ rest) (elim o [ none ↦ none | some i ↦ some (suc i) ])
Verdict-cons input valid rest none ne v = (ne, v)
Verdict-cons input valid rest (some i) ne v = (ne, v)

find_code_lem :
    (input : Text) (valid_codes : List Text)
    → Verdict input valid_codes (find_code input valid_codes)
unfolding find_code
find_code_lem input [] = tt
find_code_lem input (valid ∷ rest) =
    elim (Bool-cases (text_constant_time_equal input (without_dashes valid))) [
      | inl same ↦ rw same ((text_constant_time_equal_iff input (without_dashes valid)).0 same)
      | inr other ↦ rw other (
          Verdict-cons input valid rest (find_code input rest)
            (λ e. cc (other, (text_constant_time_equal_iff input (without_dashes valid)).1 e))
            (find_code_lem input rest))
    ]

-- The answer is the first index at which the normalised input is the code without its dash, and
-- there is no answer exactly where no code is that.
pub verify_backup_code_lem :
    (code : Text) (valid_codes : List Text)
    → Verdict (normalize code) valid_codes (verify_backup_code code valid_codes)
unfolding verify_backup_code
verify_backup_code_lem code valid_codes = find_code_lem (normalize code) valid_codes

pub FirstAt-lt : (input : Text) (l : List Text) (i : ℕ) → FirstAt input l i → i < length l
FirstAt-lt input [] i h = absurd h
FirstAt-lt input (v ∷ l) zero h = omega arith
FirstAt-lt input (v ∷ l) (suc i) h = omega (arith, FirstAt-lt input l i h.1)

-- No two codes are the same without their dashes.
abbrev pub Distinct : List Text → Type 0
Distinct [] = Unit
Distinct (v ∷ l) = NoMatch (without_dashes v) l × Distinct l

pub NoMatch-remove :
    (input : Text) (l : List Text) (i : ℕ)
    → Distinct l
    → FirstAt input l i
    → NoMatch input (remove_at i l)
NoMatch-remove input [] i d h = absurd h
NoMatch-remove input (v ∷ l) zero d h = subst (λ t. NoMatch t l) (sym h) d.0
NoMatch-remove input (v ∷ l) (suc i) d h = (h.0, NoMatch-remove input l i d.1 h.1)

-- A list in which no code matches gives no index.
pub find_code-none : (input : Text) (l : List Text) → NoMatch input l → find_code input l ≡ none
unfolding find_code
find_code-none input [] h = refl
find_code-none input (v ∷ l) h =
    elim (Bool-cases (text_constant_time_equal input (without_dashes v))) [
      | inl same ↦ absurd (h.0 ((text_constant_time_equal_iff input (without_dashes v)).0 same))
      | inr other ↦ rw (other, find_code-none input l h.1)
    ]
