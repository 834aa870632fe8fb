-- ===== src/Wallet/Amount/Spelling.antt =====
-- The texts that amounts are made of: digits and commas, read back by `BigInt`.
use mathlib.Core.List.{reverse, reverse-cons, reverse-reverse}
use xv.Prelude.{
  ap, ◌&&◌, refl, ◌++◌, arith, ◌<◌, ◌==◌, ◌||◌, Bool, not, ◌≡◌, ◌∷◌, [], none, false, true, ℕ, all,
  length,
}
use xv.Prelude.Text.{Text, is_digit, is_space, trim, trim_start, strip_prefix}
use xv.Prelude.Int.{pos}
use xv.Prelude.Result.{ok, ◌>>=◌}
use xv.Wallet.Amount.{decimal_digits, big_int}

-- A digit or a comma.
abbrev pub is_plain : ℕ → Bool
is_plain c = is_digit c || (c == b',')

abbrev pub not_comma : ℕ → Bool
not_comma c = not (c == b',')

pub all-append-eq : (p : ℕ → Bool) (s t : Text) → all p (s ++ t) ≡ (all p s && all p t)
all-append-eq p [] t = refl
all-append-eq p (c ∷ s) t = ground (arith, all-append-eq p s t)

pub all_weaken :
    (p q : ℕ → Bool)
    → ((c : ℕ) → p c ≡ true → q c ≡ true)
    → (s : Text) → all p s ≡ true
    → all q s ≡ true
all_weaken p q i [] h = refl
all_weaken p q i (c ∷ s) h = ground (arith, i c, all_weaken p q i s)

digit_plain : (c : ℕ) → is_digit c ≡ true → is_plain c ≡ true
digit_plain c h = ground arith

pub digits_plain : (s : Text) → all is_digit s ≡ true → all is_plain s ≡ true
digits_plain = all_weaken is_digit is_plain digit_plain

plain_ink : (c : ℕ) → is_plain c ≡ true → not (is_space c) ≡ true
plain_ink c h = ground arith

all-reverse : (p : ℕ → Bool) (s : Text) → all p s ≡ true → all p (reverse s) ≡ true
all-reverse p [] h = refl
all-reverse p (c ∷ s) h =
    rw (reverse-cons c s) (ground (arith, all-append-eq p (reverse s) (c ∷ []), all-reverse p s))

trim_start_same : (s : Text) → all (λ c. not (is_space c)) s ≡ true → trim_start s ≡ s
trim_start_same [] h = refl
trim_start_same (c ∷ s) h = ground (arith, h)

trim_same : (s : Text) → all (λ c. not (is_space c)) s ≡ true → trim s ≡ s
unfolding trim
trim_same s h =
    rw (trim_start_same s h, trim_start_same (reverse s) (all-reverse (λ c. not (is_space c)) s h))
      (reverse-reverse s)

no_sign :
    (p : ℕ) (s : Text) → is_plain p ≡ false → all is_plain s ≡ true → strip_prefix (p ∷ []) s ≡ none
no_sign p [] hp h = refl
no_sign p (c ∷ s) hp h = ground (arith, ap is_plain {x = p} {y = c})

no_radix :
    (q p : ℕ) (s : Text)
    → is_plain p ≡ false
    → all is_plain s ≡ true
    → strip_prefix (q ∷ p ∷ []) s ≡ none
no_radix q p [] hp h = refl
no_radix q p (c ∷ s) hp h = ground (arith, no_sign p s hp)

-- A text of digits and commas has neither blanks nor a sign nor a prefix.
pub big_int-plain :
    (s : Text)
    → all is_plain s ≡ true
    → 0 < length s
    → big_int s ≡ (decimal_digits s >>= λ n. ok (pos n))
unfolding big_int
big_int-plain s h h0 =
    rw (trim_same s (all_weaken is_plain (λ c. not (is_space c)) plain_ink s h), positive)
      (rw
        (
          no_sign b'-' s refl h,
          no_sign b'+' s refl h,
          no_radix b'0' b'x' s refl h,
          no_radix b'0' b'X' s refl h,
          no_radix b'0' b'o' s refl h,
          no_radix b'0' b'O' s refl h,
          no_radix b'0' b'b' s refl h,
          no_radix b'0' b'B' s refl h,
        )
        (rw positive refl))
  where
    positive : (length s == 0) ≡ false
    positive = ground arith
