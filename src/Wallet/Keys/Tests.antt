-- ===== src/Wallet/Keys/Tests.antt =====
-- Keys under a toy digest of 64 bytes.
use xv.Prelude.{refl, ◌≡◌, ◌∷◌, [], some, ℕ, ◌%◌, length, replicate, length-replicate}
use xv.Prelude.Text.{Bytes, codes}
use xv.Platform.Samples.{total}
use xv.Prelude.Decimal.{to_string}
use xv.Wallet.Keys.{derive_ed25519_key, account_path}
use xv.Wallet.Keys.Path.{hardened, descend, master, account_key_lem}

abbrev same_bytes : Bytes → Bytes
same_bytes bs = replicate 64 (total bs % 256)

sixty_four : (bs : Bytes) → length (same_bytes bs) ≡ 64
sixty_four bs = length-replicate {0} {A = ℕ} 64 (total bs % 256)

path_seven : account_path 7 ≡ codes "m/44'/1984'/0'/0'/7"
unfolding account_path to_string
path_seven = refl

account_key_lem_example :
    derive_ed25519_key same_bytes (9 ∷ 9 ∷ []) (account_path 7)
    ≡ some
        (descend same_bytes
          (master same_bytes (9 ∷ 9 ∷ []))
          (hardened 44 ∷ hardened 1984 ∷ hardened 0 ∷ hardened 0 ∷ 7 ∷ [])).0
account_key_lem_example = account_key_lem same_bytes sixty_four (9 ∷ 9 ∷ []) 7
