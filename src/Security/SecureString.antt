-- ===== src/Security/SecureString.antt =====
-- The class `SecureString` of wallet-extension/src/core/security.ts: a text masked with a random
-- key by exclusive or.
use Prim.Native.Nat.{bit_xor}
use xv.Prelude.{◌∙◌, ℕ, ◌≡◌, refl, ap, ap₂, true, Option, some, [], ◌∷◌, arith, length, replicate}
use xv.Prelude.Bits.{bit_xor_twice}
use xv.Prelude.Text.{Text, Bytes}
use xv.Prelude.Optional.{◌>>=◌}
use xv.Platform.{TextCodec}
use xv.Security.Wipe.{secure_wipe, secure_wipe-eq-zeros}

pub record SecureString : Type 0 where
  pub masked : Bytes
  pub key : Bytes

-- The loops `out[i] = a[i] ^ key[i]`; a byte past the end of the key reads as 0.
unfoldable pub xor_bytes : Bytes → Bytes → Bytes
xor_bytes [] key = []
xor_bytes (b ∷ bs) [] = bit_xor b 0 ∷ xor_bytes bs []
xor_bytes (b ∷ bs) (k ∷ ks) = bit_xor b k ∷ xor_bytes bs ks

-- The constructor; `key` is what `randomBytes` returned for the length of the encoded text. The
-- encoded text is a local array, which is wiped and dropped.
unfoldable pub new_secure : TextCodec → Bytes → Text → SecureString
new_secure codec key value = record { masked = xor_bytes (codec.encode value) key; key = key }

unfoldable pub get_value : SecureString → Bytes
get_value s = xor_bytes s.masked s.key

-- `toString`, and its alias `reveal`
unfoldable pub reveal : TextCodec → SecureString → Text
reveal codec s = codec.decode (get_value s)

-- `destroy`, with what `randomBytes` returned for the two arrays
unfoldable pub destroy : Bytes → Bytes → SecureString → Option SecureString
destroy for_masked for_key s = do
  masked ← secure_wipe for_masked s.masked
  key ← secure_wipe for_key s.key
  some (record { masked = masked; key = key })

pub xor_bytes_twice : (bs ks : Bytes) → xor_bytes (xor_bytes bs ks) ks ≡ bs
unfolding xor_bytes
xor_bytes_twice [] ks = refl
xor_bytes_twice (b ∷ bs) [] =
    ap₂ (λ (x : ℕ) (l : Bytes). x ∷ l) (bit_xor_twice b 0) (xor_bytes_twice bs [])
xor_bytes_twice (b ∷ bs) (k ∷ ks) =
    ap₂ (λ (x : ℕ) (l : Bytes). x ∷ l) (bit_xor_twice b k) (xor_bytes_twice bs ks)

-- A well-formed text is revealed as it was put in, whatever the random key.
pub reveal-new_secure :
    (codec : TextCodec) (key : Bytes) (value : Text)
    → codec.well_formed value ≡ true
    → reveal codec (new_secure codec key value) ≡ value
unfolding reveal new_secure get_value
reveal-new_secure codec key value h =
    ap codec.decode (xor_bytes_twice (codec.encode value) key) ∙ codec.decode-encode value h

xor_zeros : (n : ℕ) (m : ℕ) → xor_bytes (replicate n 0) (replicate m 0) ≡ replicate n 0
unfolding xor_bytes
xor_zeros ℕ.zero m = refl
xor_zeros (ℕ.suc n) ℕ.zero = ap (λ (l : Bytes). 0 ∷ l) (xor_zeros n 0)
xor_zeros (ℕ.suc n) (ℕ.suc m) = ap (λ (l : Bytes). 0 ∷ l) (xor_zeros n m)

-- Destroying a secure string succeeds, and what it holds afterwards is as many zeros as it had
-- bytes: in the masked text, in the key, and in the value read through the key.
pub destroy_leaves_zeros :
    (for_masked for_key : Bytes) (s : SecureString)
    → length for_masked ≡ length s.masked
    → length for_key ≡ length s.key
    → (t : SecureString) × (destroy for_masked for_key s ≡ some t)
      × (t.masked ≡ replicate (length s.masked) 0)
      × (t.key ≡ replicate (length s.key) 0)
      × (get_value t ≡ replicate (length s.masked) 0)
unfolding destroy get_value
destroy_leaves_zeros for_masked for_key s hm hk = (
  record { masked = replicate (length s.masked) 0; key = replicate (length s.key) 0 },
  ground
      (arith, secure_wipe-eq-zeros for_masked s.masked hm, secure_wipe-eq-zeros for_key s.key hk),
  refl,
  refl,
  xor_zeros (length s.masked) (length s.key),
)
