-- ===== src/Wallet/Amount/Grouped.antt =====
-- What `toLocaleString` prints: the digits of the number, with a comma in every print of four digits
-- or more.
use xv.Prelude.{
  ap, ltb, ◌+◌, refl, ◌++◌, ◌∙◌, Bool-cases, ◌*◌, arith, ◌<◌, Bool, ◌≢◌, ◌/◌, ◌≡◌, ◌≤◌, ◌%◌, inr,
  inl, ◌∷◌, [], false, true, suc, zero, ℕ, all, length, keep, keep-yes, keep-no, length-append,
}
use xv.Prelude.Text.{Text, is_digit, pad_start, length-pad_start}
use xv.Prelude.Decimal.{
  to_string, value_from, value_from-append, value_from-to_string, all_digits-to_string,
  to_string-ne-nil, length-to_string, value_from-pad_start, all_digits-pad_start,
}
use xv.Wallet.Amount.{group_loop, to_locale_string}
use xv.Wallet.Amount.Spelling.{is_plain, not_comma, all-append-eq, digits_plain}

-- The last three digits.
abbrev last_three : ℕ → Text
last_three n = pad_start 3 b'0' (to_string (n % 1000))

length-last_three : (n : ℕ) → length (last_three n) ≡ 3
length-last_three n =
    length-pad_start 3 b'0' (to_string (n % 1000)) (length-to_string (n % 1000) 2 (omega arith))

digits-last_three : (n : ℕ) → all is_digit (last_three n) ≡ true
digits-last_three n =
    all_digits-pad_start 3 (to_string (n % 1000)) (all_digits-to_string (n % 1000))

value-last_three : (n : ℕ) → value_from 0 (last_three n) ≡ n % 1000
value-last_three n = value_from-pad_start 3 (to_string (n % 1000)) ∙ value_from-to_string (n % 1000)

value_from-three : (v : ℕ) (s : Text) → length s ≡ 3 → value_from v s ≡ v * 1000 + value_from 0 s
value_from-three v (a ∷ b ∷ c ∷ []) h = omega arith
value_from-three v [] h = absurd (omega (arith, h))
value_from-three v (a ∷ []) h = absurd (omega (arith, h))
value_from-three v (a ∷ b ∷ []) h = absurd (omega (arith, h))
value_from-three v (a ∷ b ∷ c ∷ d ∷ s) h = absurd (omega (arith, h))

pub keep-append : (p : ℕ → Bool) (s t : Text) → keep p (s ++ t) ≡ keep p s ++ keep p t
keep-append p [] t = refl
keep-append p (c ∷ s) t = ground (arith, keep-append p s t)

digit_no_comma : (c : ℕ) → is_digit c ≡ true → not_comma c ≡ true
digit_no_comma c h = ground arith

pub keep_digits : (s : Text) → all is_digit s ≡ true → keep not_comma s ≡ s
keep_digits [] h = refl
keep_digits (c ∷ s) h =
    keep-yes not_comma c s (digit_no_comma c (ground (arith, h)))
    ∙ ap (λ (t : Text). c ∷ t) (keep_digits s (ground (arith, h)))

pub length_positive : (s : Text) → s ≢ [] → 0 < length s
length_positive [] h = absurd (h refl)
length_positive (c ∷ s) h = omega arith

-- Without its commas the print is a decimal number, of the same value.
pub record Spells (s : Text) (n : ℕ) : Type 0 where
  pub plain : all is_plain s ≡ true
  pub not_empty : 0 < length s
  pub digits : all is_digit (keep not_comma s) ≡ true
  pub some_digit : 0 < length (keep not_comma s)
  pub value : value_from 0 (keep not_comma s) ≡ n

to_string-Spells : (n : ℕ) → Spells (to_string n) n
to_string-Spells n =
    let d = all_digits-to_string n in
    let k = keep_digits (to_string n) d in
    let l = length_positive (to_string n) (to_string-ne-nil n) in
    record {
      plain = digits_plain (to_string n) d;
      not_empty = l;
      digits = rw k d;
      some_digit = rw k l;
      value = rw k (value_from-to_string n);
    }

append-Spells : (s : Text) (n : ℕ) → Spells s (n / 1000) → Spells (s ++ (b',' ∷ last_three n)) n
append-Spells s n h =
    let t = last_three n in
    let d = digits-last_three n in
    let k : keep not_comma (s ++ (b',' ∷ t)) ≡ keep not_comma s ++ t =
      keep-append not_comma s (b',' ∷ t)
      ∙ ap (λ (r : Text). keep not_comma s ++ r)
          (keep-no not_comma b',' t refl ∙ keep_digits t d) in
    record {
      plain = ground (arith, h.plain, all-append-eq is_plain s (b',' ∷ t), digits_plain t d);
      not_empty = omega (arith, length-append {0} s (b',' ∷ t));
      digits = rw k (ground (arith, h.digits, d, all-append-eq is_digit (keep not_comma s) t));
      some_digit = rw k (omega (arith, h.some_digit, length-append {0} (keep not_comma s) t));
      value =
          rw (k, value_from-append 0 (keep not_comma s) t, h.value)
            (omega
              (arith, value_from-three (n / 1000) t (length-last_three n), value-last_three n));
    }

group_loop-Spells : (f n : ℕ) → n < f → Spells (group_loop f n) n
unfolding group_loop
group_loop-Spells zero n h = absurd (omega arith)
group_loop-Spells (suc f) n h = elim (Bool-cases (ltb n 1000)) [
  | inl small ↦ rw small (to_string-Spells n)
  | inr large ↦
      rw large
        (append-Spells (group_loop f (n / 1000)) n (group_loop-Spells f (n / 1000) (ground arith)))
]

pub to_locale_string-Spells : (n : ℕ) → Spells (to_locale_string n) n
unfolding to_locale_string
to_locale_string-Spells n = group_loop-Spells (suc n) n (omega arith)

-- Below a thousand there is no comma, and from there on there is one.
pub to_locale_string-small : (n : ℕ) → n < 1000 → to_locale_string n ≡ to_string n
unfolding to_locale_string group_loop
to_locale_string-small n h = ground arith

pub to_locale_string-comma : (n : ℕ) → 1000 ≤ n → all is_digit (to_locale_string n) ≡ false
unfolding to_locale_string group_loop
to_locale_string-comma n h =
    ground (arith, all-append-eq is_digit (group_loop n (n / 1000)) (b',' ∷ last_three n))
