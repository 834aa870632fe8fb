-- ===== src/Platform/Samples.antt =====
-- Toy platforms that keep the documented behaviour, on which the theorems are tried out.
use xv.Prelude.{
  Bool, ℕ, ◌+◌, ◌%◌, ◌≡◌, refl, true, Option, none, some, [], ◌∷◌, ◌++◌, map, arith, all, ltb, ◌==◌,
  if◌then◌else◌, All,
}
use xv.Prelude.Text.{pad_start, Text, Bytes}
use xv.Prelude.Hex.{of_all_below, to_hex, all_below, bytes_to_hex, IsByte}
use xv.Platform.{TextCodec, Base64, WebCrypto}

abbrev pub bytes_of : Text → Bytes
bytes_of = map (λ c. c % 256)

pub bytes_of-IsByte : (s : Text) → All IsByte (bytes_of s)
bytes_of-IsByte [] = tt
bytes_of-IsByte (c ∷ s) = (omega arith, bytes_of-IsByte s)

pub bytes_of_same : (s : Text) → all (λ c. ltb c 256) s ≡ true → bytes_of s ≡ s
bytes_of_same [] h = refl
bytes_of_same (c ∷ s) h = ground (arith, bytes_of_same s)

-- A byte for each character.
abbrev pub one_byte : TextCodec
one_byte = record {
  encode = bytes_of;
  decode = λ bs. bs;
  well_formed = all (λ c. ltb c 256);
  encode-IsByte = bytes_of-IsByte;
  decode-encode = bytes_of_same;
}

abbrev pub plain_base64 : Base64
plain_base64 = record { btoa = λ bs. bs; atob = some; atob-btoa = λ bs h. refl }

abbrev pub total : Bytes → ℕ
total [] = 0
total (b ∷ bs) = b + total bs

abbrev pub open_tagged : ℕ → Bytes → Option Bytes
open_tagged tag [] = none
open_tagged tag (b ∷ bs) = if b == tag then some bs else none

pub open_tagged-same : (tag : ℕ) (bs : Bytes) → open_tagged tag (tag ∷ bs) ≡ some bs
open_tagged-same tag bs = ground arith

-- The plain text behind a tag, which a wrong key does not fit.
abbrev pub tagging : WebCrypto
tagging = record {
  derive_key = λ rounds pin salt. pin ++ salt;
  seal = λ key iv plain. (total key % 256) ∷ plain;
  open_sealed = λ key iv sealed. open_tagged (total key % 256) sealed;
  sha256 = λ bs. map (λ b. (total bs + b) % 256) bs;
  seal-IsByte = λ key iv plain h. (omega arith, h);
  open_sealed-seal = λ key iv plain h. open_tagged-same (total key % 256) plain;
}

-- One byte, the sum of all.
abbrev pub sum_digest : Bytes → Bytes
sum_digest bs = (total bs % 256) ∷ []

abbrev pub one_byte_each : Text → Bool
one_byte_each = all (λ c. ltb c 256)

all_front :
    (s t : Text) → one_byte_each s ≡ true → one_byte_each t ≡ true → one_byte_each (s ++ t) ≡ true
all_front [] t hs ht = ht
all_front (c ∷ s) t hs ht = ground (arith, all_front s t)

hex_table : all_below (λ b. one_byte_each (pad_start 2 b'0' (to_hex b))) 256 ≡ true
unfolding all_below to_hex
hex_table = refl

pub hex_kept : (bs : Bytes) → All IsByte bs → one_byte.well_formed (bytes_to_hex bs) ≡ true
unfolding bytes_to_hex
hex_kept [] h = refl
hex_kept (b ∷ bs) (hb, hs) =
    all_front (pad_start 2 b'0' (to_hex b)) (bytes_to_hex bs)
      (of_all_below (λ c. one_byte_each (pad_start 2 b'0' (to_hex c))) 256 b hex_table hb)
      (hex_kept bs hs)
