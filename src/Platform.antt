-- ===== src/Platform.antt =====
-- What the wallet takes from the browser and from packages, as records of operations with the
-- documented behaviour that the code relies on.
pub mod Floats
pub mod Samples
use xv.Prelude.{ap, ◌∙◌, sym, some, All, Option, ℕ, ◌≡◌, Bool, true}
use xv.Prelude.Text.{Text, Bytes}
use xv.Prelude.Hex.{IsByte}

-- TextEncoder and TextDecoder. Decoding gives back every well-formed text; a lone surrogate is
-- replaced in the encoding, and is lost.
pub record TextCodec : Type 0 where
  pub encode : Text → Bytes
  pub decode : Bytes → Text
  pub well_formed : Text → Bool
  pub encode-IsByte : (s : Text) → All IsByte (encode s)
  pub decode-encode : (s : Text) → well_formed s ≡ true → decode (encode s) ≡ s

pub encode_injective :
    (codec : TextCodec) (s t : Text)
    → codec.well_formed s ≡ true
    → codec.well_formed t ≡ true
    → codec.encode s ≡ codec.encode t
    → s ≡ t
encode_injective codec s t hs ht e =
    sym (codec.decode-encode s hs) ∙ ap codec.decode e ∙ codec.decode-encode t ht

-- btoa and atob, on the characters that stand for bytes. `atob` throws on a text that is no base64.
pub record Base64 : Type 0 where
  pub btoa : Bytes → Text
  pub atob : Text → Option Bytes
  pub atob-btoa : (bs : Bytes) → All IsByte bs → atob (btoa bs) ≡ some bs

-- The Web Crypto API as the wallet calls it: PBKDF2 with SHA-256 over a number of rounds, AES-256-GCM,
-- whose decryption throws when the tag does not fit, and SHA-256.
pub record WebCrypto : Type 0 where
  pub derive_key : ℕ → Bytes → Bytes → Bytes
  pub seal : Bytes → Bytes → Bytes → Bytes
  pub open_sealed : Bytes → Bytes → Bytes → Option Bytes
  pub sha256 : Bytes → Bytes
  pub seal-IsByte : (key iv plain : Bytes) → All IsByte plain → All IsByte (seal key iv plain)
  pub open_sealed-seal :
      (key iv plain : Bytes)
      → All IsByte plain
      → open_sealed key iv (seal key iv plain) ≡ some plain
