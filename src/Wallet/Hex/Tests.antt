-- ===== src/Wallet/Hex/Tests.antt =====
-- Hexadecimal texts, also odd and malformed ones.
use xv.Prelude.{arith, refl, ◌≡◌, ◌∷◌, []}
use xv.Prelude.Text.{codes}
use xv.Prelude.Hex.{bytes_to_hex}
use xv.Wallet.Hex.{hex_to_bytes}
use xv.Wallet.Hex.RoundTrip.{hex_to_bytes-bytes_to_hex}

malformed : hex_to_bytes (codes "1gzz-f0a7") ≡ (1 ∷ 0 ∷ 241 ∷ 10 ∷ [])
unfolding hex_to_bytes
malformed = refl

hex_sample : hex_to_bytes (bytes_to_hex (0 ∷ 15 ∷ 255 ∷ [])) ≡ (0 ∷ 15 ∷ 255 ∷ [])
hex_sample = hex_to_bytes-bytes_to_hex (0 ∷ 15 ∷ 255 ∷ []) (omega arith)
