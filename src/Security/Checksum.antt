-- ===== src/Security/Checksum.antt =====
-- The checksums and nonces at the end of wallet-extension/src/core/security.ts. SHA-256 is a package's
-- function, and a parameter. The hash is a local array, which is wiped and dropped.
pub mod Verified
mod Tests
use xv.Prelude.{ℕ, ◌+◌, ◌/◌, ◌%◌, zero, suc, Bool, Option, [], ◌∷◌, ◌++◌, take, ◌==◌, if◌then◌else◌}
use xv.Prelude.Text.{Text, Bytes}
use xv.Prelude.Hex.{bytes_to_hex, to_hex}
use xv.Platform.{TextCodec}
use xv.Security.ConstantTime.{constant_time_string_equal}

-- `random` is what `randomBytes(8)` returned.
unfoldable pub generate_nonce : ℕ → Bytes → Text
unfolding to_hex bytes_to_hex
generate_nonce now random = to_hex now ++ (b'-' ∷ bytes_to_hex random)

module _ (codec : TextCodec) (sha256 : Bytes → Bytes) where
  -- `hash` of a string
  unfoldable pub hash_text : Text → Bytes
  hash_text text = sha256 (codec.encode text)

  unfoldable pub create_checksum : Text → Text
  unfolding hash_text bytes_to_hex
  create_checksum text = bytes_to_hex (take 4 (hash_text text))

  unfoldable pub verify_checksum : Text → Text → Option Bool
  unfolding create_checksum
  verify_checksum text checksum = constant_time_string_equal codec (create_checksum text) checksum
