-- ===== src/Totp/Base32/Letters.antt =====
-- The letters of base32, in groups of five bits: what the encoder emits and the decoder takes in.
use xv.Prelude.{
  keep-yes, All-append, Bool-cases, ap₂, All, keep, ==_iff, ◌∙◌, ℕ, zero, suc, ◌+◌, ◌-◌, ◌*◌, ◌%◌,
  ◌^◌, ◌≤◌, ◌<◌, ◌≡◌, refl, ap, inl, inr, Bool, true, false, not, ◌&&◌, Option, none, some, [], ◌∷◌,
  map, arith, ltb, leb, ◌==◌,
}
use Prim.Native.Nat.{bit_and, bit_or}
use xv.Prelude.Bits.{bit_and_mask, bit_or_fields}
use xv.Prelude.Text.{Text, Bytes, index_of, is_space, to_upper}
use xv.Prelude.Hex.{all_below, of_all_below}
use xv.Prelude.Result.{ok}
use xv.Totp.Base32.{emit, encode_loop, shr, decode_loop, alphabet, shl, letter}

-- What a byte and a group of five bits make of the accumulators.
abbrev pub enc : ℕ → ℕ → ℕ
enc v b = bit_or (shl v 8) b

abbrev pub dec : ℕ → ℕ → ℕ
dec v i = bit_or (shl v 5) i

pub enc_lem : (v b : ℕ) → b < 256 → enc v b ≡ v % 2 ^ 24 * 256 + b
enc_lem v b h = ap (λ (t : ℕ). bit_or t b) (omega arith) ∙ bit_or_fields 8 (v % 2 ^ 24) b h

pub dec_lem : (v i : ℕ) → i < 32 → dec v i ≡ v % 2 ^ 27 * 32 + i
dec_lem v i h = ap (λ (t : ℕ). bit_or t i) (omega arith) ∙ bit_or_fields 5 (v % 2 ^ 27) i h

pub low5 : (x : ℕ) → bit_and x 0x1f ≡ x % 32
low5 = bit_and_mask 5

pub low8 : (x : ℕ) → bit_and x 0xff ≡ x % 256
low8 = bit_and_mask 8

-- Every letter of the alphabet is found at its place, and is left alone by the clean-up.
abbrev is_at : Option ℕ → ℕ → Bool
is_at none i = false
is_at (some j) i = j == i

of_is_at : (o : Option ℕ) (i : ℕ) → is_at o i ≡ true → o ≡ some i
of_is_at none i h = cc
of_is_at (some j) i h = ap some ((==_iff j i).0 h)

abbrev kept : ℕ → Bool
kept c = not (c == b'=') && not (is_space c) && (to_upper c == c)

found_table : all_below (λ i. is_at (index_of (letter i) alphabet) i) 32 ≡ true
unfolding all_below
found_table = refl

kept_table : all_below (λ i. kept (letter i)) 32 ≡ true
unfolding all_below
kept_table = refl

index_of-letter : (i : ℕ) → i < 32 → index_of (letter i) alphabet ≡ some i
index_of-letter i h =
    of_is_at (index_of (letter i) alphabet) i
      (of_all_below (λ j. is_at (index_of (letter j) alphabet) j) 32 i found_table h)

kept-letter : (i : ℕ) → i < 32 → kept (letter i) ≡ true
kept-letter i h = of_all_below (λ j. kept (letter j)) 32 i kept_table h

kept_facts :
    (c : ℕ) → kept c ≡ true → ((c == b'=') ≡ false) × (not (is_space c) ≡ true) × (to_upper c ≡ c)
kept_facts c h = split (c == b'=') (is_space c) (to_upper c) c h
  where
    split :
        (a b : Bool) (u d : ℕ)
        → not a && not b && (u == d) ≡ true
        → (a ≡ false) × (not b ≡ true) × (u ≡ d)
    split a b u d e = ground arith

-- A letter either completes a byte or does not.
pub decode-letter_short :
    (bits v i : ℕ) (s : Text)
    → bits + 5 < 8
    → i < 32
    → decode_loop bits v (letter i ∷ s) ≡ decode_loop (bits + 5) (dec v i) s
unfolding decode_loop
decode-letter_short bits v i s hb hi =
    rw ((kept_facts (letter i) (kept-letter i hi)).0, index_of-letter i hi) (ground arith)

pub decode-letter_full :
    (bits v i : ℕ) (s : Text) {rest : Bytes}
    → 8 ≤ bits + 5
    → i < 32
    → decode_loop (bits + 5 - 8) (dec v i) s ≡ ok rest
    → decode_loop bits v (letter i ∷ s) ≡ ok ((shr (dec v i) (bits + 5 - 8) % 256) ∷ rest)
unfolding decode_loop
decode-letter_full bits v i s hb hi e =
    rw ((kept_facts (letter i) (kept-letter i hi)).0, index_of-letter i hi)
      (ground (arith, low8 (shr (dec v i) (bits + 5 - 8))))

-- A group of five bits.
unfoldable pub group : ℕ → ℕ
group x = bit_and x 0x1f

pub group_lem : (x : ℕ) → group x ≡ x % 32
unfolding group
group_lem = low5

pub group-lt : (x : ℕ) → group x < 32
group-lt x = omega (arith, group_lem x)

-- The clean-up of the decoder leaves an encoding as it is.
abbrev pub IsKept : ℕ → Type 0
IsKept c = kept c ≡ true

unfoldable pub cleaned : Text → Text
cleaned s = map to_upper (keep (λ c. not (is_space c)) s)

pub cleaned_of_kept : (s : Text) → All IsKept s → cleaned s ≡ s
unfolding cleaned
cleaned_of_kept [] h = refl
cleaned_of_kept (c ∷ s) (h, hs) =
    let (_, not_space, upper) = kept_facts c h in
    ap (map to_upper) (keep-yes (λ d. not (is_space d)) c s not_space)
    ∙ ap₂ (λ (x : ℕ) (t : Text). x ∷ t) upper (cleaned_of_kept s hs)

emit-IsKept : (fuel bits value : ℕ) → All IsKept (emit fuel bits value).0
unfolding emit group
emit-IsKept zero bits value = tt
emit-IsKept (suc fuel) bits value = elim (Bool-cases (leb 5 bits)) [
  | inl more ↦ rw more (
    kept-letter (group (shr value (bits - 5))) (group-lt (shr value (bits - 5))),
    emit-IsKept fuel (bits - 5) value,
  )
  | inr done ↦ rw done tt
]

pub encode_loop-IsKept : (bits value : ℕ) (bs : Bytes) → All IsKept (encode_loop bits value bs)
unfolding encode_loop group
encode_loop-IsKept bits value [] = elim (Bool-cases (ltb 0 bits)) [
  | inl some_left ↦
      rw some_left
        (kept-letter (group (shl value (5 - bits))) (group-lt (shl value (5 - bits))), tt)
  | inr none_left ↦ rw none_left tt
]
encode_loop-IsKept bits value (b ∷ bs) =
    let r = emit (bits + 8) (bits + 8) (enc value b) in
    All-append IsKept r.0 (encode_loop r.1 (enc value b) bs)
      (emit-IsKept (bits + 8) (bits + 8) (enc value b)) (encode_loop-IsKept r.1 (enc value b) bs)
