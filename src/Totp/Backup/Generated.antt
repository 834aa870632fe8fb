-- ===== src/Totp/Backup/Generated.antt =====
-- The codes that are generated, and that each of them is recognised.
use xv.Prelude.{
  ap₂, sym, subst, ◌∙◌, keep-yes, get_or, All, ℕ, zero, suc, ◌+◌, ◌*◌, ◌%◌, ◌≤◌, ◌<◌, ◌≡◌, refl, ap,
  ◌⊎◌, inl, inr, Bool, true, false, not, ◌&&◌, ◌||◌, Option, none, some, List, [], ◌∷◌, map, arith,
  length, ◌==◌,
}
use xv.Prelude.Text.{Text, is_space, to_upper}
use xv.Prelude.Hex.{all_below, of_all_below}
use xv.Totp.Backup.{
  verify_backup_code, backup_code_count, generate_backup_codes, generate_codes, without_dashes,
  normalize, backup_code_chars, generate_code,
}
use xv.Totp.Backup.Matching.{verify_backup_code_lem, NoMatch, Verdict}

abbrev plain : ℕ → Bool
plain c = (to_upper c == c) && not (is_space c) && not (c == b'-')

plain_table : all_below (λ i. plain (get_or backup_code_chars i 0)) 32 ≡ true
unfolding all_below
plain_table = refl

plain_char : (n : ℕ) → plain (get_or backup_code_chars (n % length backup_code_chars) 0) ≡ true
plain_char n =
    of_all_below (λ i. plain (get_or backup_code_chars i 0)) 32 (n % 32) plain_table (omega arith)

-- A character of the alphabet, or a dash.
abbrev pub IsCodeChar : ℕ → Type 0
IsCodeChar c = (plain c ≡ true) ⊎ (c ≡ b'-')

generate_code-IsCodeChar : (draw : ℕ → ℕ) (left j : ℕ) → All IsCodeChar (generate_code draw left j)
unfolding generate_code
generate_code-IsCodeChar draw zero j = tt
generate_code-IsCodeChar draw (suc left) j =
    ground (arith, plain_char (draw j), generate_code-IsCodeChar draw left (j + 1))

plain_facts :
    (u c : ℕ) (space dash : Bool)
    → (u == c) && not space && not dash ≡ true
    → (u ≡ c) × (space ≡ false) × (dash ≡ false)
plain_facts u c space dash h = ground arith

neither : (a b : Bool) → a ≡ false → b ≡ false → not (a || b) ≡ true
neither a b h k = ground arith

-- The clean-up of the input takes away from a generated code what is taken away from a valid one.
normalize_of_code : (s : Text) → All IsCodeChar s → normalize s ≡ without_dashes s
normalize_of_code [] h = refl
normalize_of_code (c ∷ s) (inl p, hs) =
    let (upper, space, dash) = plain_facts (to_upper c) c (is_space c) (c == b'-') p in
    keep-yes (λ d. not (is_space d || (d == b'-'))) (to_upper c) (map to_upper s)
      (subst (λ d. not (is_space d || (d == b'-')) ≡ true) (sym upper)
        (neither (is_space c) (c == b'-') space dash))
    ∙ ap₂ (λ (d : ℕ) (t : Text). d ∷ t) upper (normalize_of_code s hs)
    ∙ sym (keep-yes (λ d. not (d == b'-')) c s (ap not dash))
normalize_of_code (c ∷ s) (inr e, hs) =
    subst (λ d. normalize (d ∷ s) ≡ without_dashes (d ∷ s)) (sym e) (normalize_of_code s hs)

-- An input that is one of the codes is found at that place or earlier.
found_by :
    (input : Text) (l : List Text) (i : ℕ) (o : Option ℕ)
    → i < length l
    → input ≡ without_dashes (get_or l i [])
    → Verdict input l o
    → (j : ℕ) × (j ≤ i) × (o ≡ some j)
found_by input [] i o lt e v = absurd (omega arith)
found_by input (c ∷ l) zero none lt e v = absurd (v.0 e)
found_by input (c ∷ l) zero (some zero) lt e v = (0, omega arith, refl)
found_by input (c ∷ l) zero (some (suc j)) lt e v = absurd (v.0 e)
found_by input (c ∷ l) (suc i) none lt e v = absurd (no_hit l i (omega arith) e v.1)
  where
    no_hit :
        (m : List Text) (k : ℕ)
        → k < length m
        → input ≡ without_dashes (get_or m k [])
        → NoMatch input m
        → ⊥
    no_hit [] k lk ek n = absurd (omega arith)
    no_hit (d ∷ m) zero lk ek n = n.0 ek
    no_hit (d ∷ m) (suc k) lk ek n = no_hit m k (omega arith) ek n.1
found_by input (c ∷ l) (suc i) (some zero) lt e v = (0, omega arith, refl)
found_by input (c ∷ l) (suc i) (some (suc j)) lt e v =
    let (k, le, same) = found_by input l i (some j) (omega arith) e v.1 in
    (suc j, omega (arith, le, some_ℕ j k same), refl)
  where
    some_ℕ : (a b : ℕ) → some a ≡ some b → a ≡ b
    some_ℕ a b h = cc

generate_codes-at :
    (draw : ℕ → ℕ) (left i k : ℕ)
    → k < left
    → get_or (generate_codes draw left i) k [] ≡ generate_code (λ j. draw (8 * (i + k) + j)) 8 0
unfolding generate_codes
generate_codes-at draw zero i k h = absurd (omega arith)
generate_codes-at draw (suc left) i zero h =
    ap (λ (t : ℕ). generate_code (λ j. draw (8 * t + j)) 8 0) (omega arith)
generate_codes-at draw (suc left) i (suc k) h =
    generate_codes-at draw left (i + 1) k (omega arith)
    ∙ ap (λ (t : ℕ). generate_code (λ j. draw (8 * t + j)) 8 0) (omega arith)

length-generate_codes : (draw : ℕ → ℕ) (left i : ℕ) → length (generate_codes draw left i) ≡ left
unfolding generate_codes
length-generate_codes draw zero i = refl
length-generate_codes draw (suc left) i = ap suc (length-generate_codes draw left (i + 1))

nine : (draw : ℕ → ℕ) → length (generate_code draw 8 0) ≡ 9
unfolding generate_code
nine draw = refl

-- Whatever the random bytes, there are eight codes, each of nine characters, and each of them, typed
-- in as it is shown, is recognised as itself or as an equal one before it.
pub generated_codes_are_recognised :
    (draw : ℕ → ℕ) (i : ℕ)
    → i < backup_code_count
    → (length (generate_backup_codes draw) ≡ backup_code_count)
      × (length (get_or (generate_backup_codes draw) i []) ≡ 9)
      × ((j : ℕ) × (j ≤ i)
          × (verify_backup_code
                (get_or (generate_backup_codes draw) i [])
                (generate_backup_codes draw)
              ≡ some j))
unfolding generate_backup_codes
generated_codes_are_recognised draw i h =
    let l = generate_codes draw backup_code_count 0 in
    let code = get_or l i [] in
    let e = generate_codes-at draw backup_code_count 0 i h in
    (
      length-generate_codes draw backup_code_count 0,
      ap length e ∙ nine (λ j. draw (8 * (0 + i) + j)),
      found_by (normalize code) l i (verify_backup_code code l)
          (omega (arith, length-generate_codes draw backup_code_count 0))
          (normalize_of_code code (
            subst (All IsCodeChar) (sym e)
              (generate_code-IsCodeChar (λ j. draw (8 * (0 + i) + j)) 8 0)))
          (verify_backup_code_lem code l),
    )
