-- ===== src/Totp/Base32/RoundTrip.antt =====
-- Decoding what was encoded gives the bytes back, through the five phases in which a byte can meet
-- the groups of five bits.
use xv.Prelude.{All, ◌∙◌, ℕ, ◌/◌, ◌%◌, ◌<◌, ◌≡◌, refl, ap, [], ◌∷◌, arith}
use xv.Prelude.Text.{Bytes}
use xv.Prelude.Hex.{IsByte}
use xv.Prelude.Result.{Result, ok}
use xv.Totp.Base32.{
  base32_encode, encode_loop, DecodeError, base32_decode, shr, decode_loop, shl, letter,
}
use xv.Totp.Base32.Letters.{
  decode-letter_full, group_lem, dec_lem, enc_lem, dec, group-lt, encode_loop-IsKept,
  decode-letter_short, cleaned_of_kept, enc, group, cleaned,
}

decode_end : (bits v : ℕ) → decode_loop bits v [] ≡ ok []
unfolding decode_loop
decode_end bits v = refl

with_head :
    (bs : Bytes) {b c : ℕ} {r : Result DecodeError Bytes}
    → r ≡ ok (b ∷ bs)
    → b ≡ c
    → r ≡ ok (c ∷ bs)
with_head bs {b} {c} e h = e ∙ ap (λ (t : ℕ). ok (t ∷ bs)) h

-- `c` is the byte before: its last `k` bits are still in the encoder, the others in the decoder.
mutual
  unfolding encode_loop group

  aligned :
      (bs : Bytes) → All IsByte bs → (ve vd : ℕ) → decode_loop 0 vd (encode_loop 0 ve bs) ≡ ok bs
  aligned [] h ve vd = decode_end 0 vd
  aligned (b ∷ bs) (hb, hs) ve vd =
      let w = enc ve b in
      let i = group (shr w 3) in
      decode-letter_short 0 vd i (encode_loop 3 w bs) (omega arith) (group-lt (shr w 3))
      ∙ three_left bs hs b hb w (dec vd i) (omega (arith, enc_lem ve b hb))
          (omega (arith, enc_lem ve b hb, dec_lem vd i (group-lt (shr w 3)), group_lem (shr w 3)))

  three_left :
      (bs : Bytes)
      → All IsByte bs
      → (c : ℕ) → c < 256
      → (ve vd : ℕ) → ve % 8 ≡ c % 8
      → vd % 32 ≡ c / 8
      → decode_loop 5 vd (encode_loop 3 ve bs) ≡ ok (c ∷ bs)
  three_left [] h c hc ve vd he hd =
      let i = group (shl ve 2) in
      with_head []
        (decode-letter_full 5 vd i [] (omega arith) (group-lt (shl ve 2)) (decode_end 2 (dec vd i)))
        (omega (arith, dec_lem vd i (group-lt (shl ve 2)), group_lem (shl ve 2)))
  three_left (b ∷ bs) (hb, hs) c hc ve vd he hd =
      let w = enc ve b in
      let i = group (shr w 6) in
      let j = group (shr w 1) in
      let i_lt = group-lt (shr w 6) in
      let j_lt = group-lt (shr w 1) in
      let e = enc_lem ve b hb in
      let d = dec_lem vd i i_lt in
      let g = group_lem (shr w 6) in
      let d2 = dec_lem (dec vd i) j j_lt in
      let g2 = group_lem (shr w 1) in
      with_head (b ∷ bs)
        (decode-letter_full 5 vd i (letter j ∷ encode_loop 1 w bs) (omega arith) i_lt (
          decode-letter_short 2 (dec vd i) j (encode_loop 1 w bs) (omega arith) j_lt
          ∙ one_left bs hs b hb w (dec (dec vd i) j) (omega (arith, e))
              (omega (arith, e, d, g, d2, g2))))
        (omega (arith, e, d, g))

  one_left :
      (bs : Bytes)
      → All IsByte bs
      → (c : ℕ) → c < 256
      → (ve vd : ℕ) → ve % 2 ≡ c % 2
      → vd % 128 ≡ c / 2
      → decode_loop 7 vd (encode_loop 1 ve bs) ≡ ok (c ∷ bs)
  one_left [] h c hc ve vd he hd =
      let i = group (shl ve 4) in
      with_head []
        (decode-letter_full 7 vd i [] (omega arith) (group-lt (shl ve 4)) (decode_end 4 (dec vd i)))
        (omega (arith, dec_lem vd i (group-lt (shl ve 4)), group_lem (shl ve 4)))
  one_left (b ∷ bs) (hb, hs) c hc ve vd he hd =
      let w = enc ve b in
      let i = group (shr w 4) in
      let i_lt = group-lt (shr w 4) in
      let e = enc_lem ve b hb in
      let d = dec_lem vd i i_lt in
      let g = group_lem (shr w 4) in
      with_head (b ∷ bs)
        (decode-letter_full 7 vd i (encode_loop 4 w bs) (omega arith) i_lt
          (four_left bs hs b hb w (dec vd i) (omega (arith, e)) (omega (arith, e, d, g))))
        (omega (arith, e, d, g))

  four_left :
      (bs : Bytes)
      → All IsByte bs
      → (c : ℕ) → c < 256
      → (ve vd : ℕ) → ve % 16 ≡ c % 16
      → vd % 16 ≡ c / 16
      → decode_loop 4 vd (encode_loop 4 ve bs) ≡ ok (c ∷ bs)
  four_left [] h c hc ve vd he hd =
      let i = group (shl ve 1) in
      with_head []
        (decode-letter_full 4 vd i [] (omega arith) (group-lt (shl ve 1)) (decode_end 1 (dec vd i)))
        (omega (arith, dec_lem vd i (group-lt (shl ve 1)), group_lem (shl ve 1)))
  four_left (b ∷ bs) (hb, hs) c hc ve vd he hd =
      let w = enc ve b in
      let i = group (shr w 7) in
      let j = group (shr w 2) in
      let i_lt = group-lt (shr w 7) in
      let j_lt = group-lt (shr w 2) in
      let e = enc_lem ve b hb in
      let d = dec_lem vd i i_lt in
      let g = group_lem (shr w 7) in
      let d2 = dec_lem (dec vd i) j j_lt in
      let g2 = group_lem (shr w 2) in
      with_head (b ∷ bs)
        (decode-letter_full 4 vd i (letter j ∷ encode_loop 2 w bs) (omega arith) i_lt (
          decode-letter_short 1 (dec vd i) j (encode_loop 2 w bs) (omega arith) j_lt
          ∙ two_left bs hs b hb w (dec (dec vd i) j) (omega (arith, e))
              (omega (arith, e, d, g, d2, g2))))
        (omega (arith, e, d, g))

  two_left :
      (bs : Bytes)
      → All IsByte bs
      → (c : ℕ) → c < 256
      → (ve vd : ℕ) → ve % 4 ≡ c % 4
      → vd % 64 ≡ c / 4
      → decode_loop 6 vd (encode_loop 2 ve bs) ≡ ok (c ∷ bs)
  two_left [] h c hc ve vd he hd =
      let i = group (shl ve 3) in
      with_head []
        (decode-letter_full 6 vd i [] (omega arith) (group-lt (shl ve 3)) (decode_end 3 (dec vd i)))
        (omega (arith, dec_lem vd i (group-lt (shl ve 3)), group_lem (shl ve 3)))
  two_left (b ∷ bs) (hb, hs) c hc ve vd he hd =
      let w = enc ve b in
      let i = group (shr w 5) in
      let j = group (shr w 0) in
      let i_lt = group-lt (shr w 5) in
      let j_lt = group-lt (shr w 0) in
      let e = enc_lem ve b hb in
      let d = dec_lem vd i i_lt in
      let g = group_lem (shr w 5) in
      let d2 = dec_lem (dec vd i) j j_lt in
      let g2 = group_lem (shr w 0) in
      with_head (b ∷ bs)
        (decode-letter_full 6 vd i (letter j ∷ encode_loop 0 w bs) (omega arith) i_lt (
          with_head bs
            (decode-letter_full 3 (dec vd i) j (encode_loop 0 w bs) (omega arith) j_lt
              (aligned bs hs w (dec (dec vd i) j)))
            (omega (arith, e, d, g, d2, g2))))
        (omega (arith, e, d, g))

-- Decoding the encoding of any bytes succeeds and gives the bytes back.
pub base32_decode-base32_encode :
    (bs : Bytes) → All IsByte bs → base32_decode (base32_encode bs) ≡ ok bs
unfolding base32_decode base32_encode cleaned
base32_decode-base32_encode bs h =
    ap (decode_loop 0 0) (cleaned_of_kept (encode_loop 0 0 bs) (encode_loop-IsKept 0 0 bs))
    ∙ aligned bs h 0 0
