-- ===== src/Prelude/Trim.antt =====
-- What `trim` keeps.
use mathlib.Core.List.{reverse, reverse-cons, reverse-append, reverse-reverse}
use xv.Prelude.{
  subst, ◌≡◌, refl, ◌++◌, ◌∷◌, [], ℕ, false, true, Bool-cases, inl, inr, ap, ◌∙◌, sym, ◌⊎◌,
}
use xv.Prelude.Text.{Text, trim, trim_start, is_space}

abbrev pub trim_end : Text → Text
trim_end s = reverse (trim_start (reverse s))

trim_start-same : (c : ℕ) (s : Text) → is_space c ≡ false → trim_start (c ∷ s) ≡ c ∷ s
trim_start-same c s h = rw (h, trim_start) refl

trim_start-space : (c : ℕ) (s : Text) → is_space c ≡ true → trim_start (c ∷ s) ≡ trim_start s
trim_start-space c s h = rw (h, trim_start) refl

trim_start-snoc :
    (u : Text) (c : ℕ) → is_space c ≡ false → trim_start (u ++ (c ∷ [])) ≡ trim_start u ++ (c ∷ [])
trim_start-snoc [] c h = trim_start-same c [] h
trim_start-snoc (d ∷ u) c h = elim (Bool-cases (is_space d)) [
  | inl space ↦
      trim_start-space d (u ++ (c ∷ [])) space
      ∙ trim_start-snoc u c h
      ∙ ap (λ (t : Text). t ++ (c ∷ [])) (sym (trim_start-space d u space))
  | inr other ↦
      trim_start-same d (u ++ (c ∷ [])) other
      ∙ ap (λ (t : Text). t ++ (c ∷ [])) (sym (trim_start-same d u other))
]

pub trim_end-cons : (c : ℕ) (s : Text) → is_space c ≡ false → trim_end (c ∷ s) ≡ c ∷ trim_end s
trim_end-cons c s h =
    ap (λ (t : Text). reverse (trim_start t)) (reverse-cons c s)
    ∙ ap reverse (trim_start-snoc (reverse s) c h)
    ∙ reverse-append (trim_start (reverse s)) (c ∷ [])

pub trim-cons : (c : ℕ) (s : Text) → is_space c ≡ false → trim (c ∷ s) ≡ c ∷ trim_end s
unfolding trim
trim-cons c s h = ap trim_end (trim_start-same c s h) ∙ trim_end-cons c s h

-- What is left begins with a character that is no space, if with any.
Starts : Text → Type 0
Starts s = (s ≡ []) ⊎ ((c : ℕ) × (t : Text) × (s ≡ c ∷ t) × (is_space c ≡ false))

trim_start-Starts : (s : Text) → Starts (trim_start s)
unfolding Starts
trim_start-Starts [] = inl refl
trim_start-Starts (c ∷ s) = elim (Bool-cases (is_space c)) [
  | inr other ↦ inr (c, s, trim_start-same c s other, other)
  | inl space ↦ subst Starts (sym (trim_start-space c s space)) (trim_start-Starts s)
]

trim_start_idem : (s : Text) → trim_start (trim_start s) ≡ trim_start s
unfolding Starts
trim_start_idem s = elim (trim_start-Starts s) [
  | inl e ↦ ap trim_start e ∙ sym e
  | inr (c, t, e, other) ↦ ap trim_start e ∙ trim_start-same c t other ∙ sym e
]

trim_end_idem : (s : Text) → trim_end (trim_end s) ≡ trim_end s
trim_end_idem s =
    ap (λ (t : Text). reverse (trim_start t)) (reverse-reverse (trim_start (reverse s)))
    ∙ ap reverse (trim_start_idem (reverse s))

trim_start-trim_end : (s : Text) → Starts s → trim_start (trim_end s) ≡ trim_end s
unfolding Starts
trim_start-trim_end s (inl e) = ap (λ (t : Text). trim_start (trim_end t)) e ∙ sym (ap trim_end e)
trim_start-trim_end s (inr (c, t, e, other)) =
    ap (λ (t : Text). trim_start (trim_end t)) e
    ∙ ap trim_start (trim_end-cons c t other)
    ∙ trim_start-same c (trim_end t) other
    ∙ sym (trim_end-cons c t other)
    ∙ sym (ap trim_end e)

pub trim-trim : (s : Text) → trim (trim s) ≡ trim s
unfolding trim
trim-trim s =
    ap trim_end (trim_start-trim_end (trim_start s) (trim_start-Starts s))
    ∙ trim_end_idem (trim_start s)
