-- ===== src/Storage/Deleting/Tests.antt =====
-- A wallet deleted while its session lasts.
use xv.Prelude.{ℕ, ◌≡◌, none, some, [], ◌∷◌, replicate, length-replicate}
use xv.Prelude.Text.{Text, codes}
use xv.Prelude.Result.{err, ok}
use xv.Platform.Samples.{tagging, plain_base64, one_byte}
use xv.Security.SecureString.{new_secure}
use xv.Storage.Memory.{get_session_mnemonic, get_session_pin, Memory, empty}
use xv.Storage.Vault.{no_wallet, load_wallet, save_wallet, Store, works}
use xv.Storage.Deleting.{delete_wallet, deleted_wallet_is_gone}
use xv.Storage.Vault.Samples.{lengths}
use xv.Security.Lockout.{unreadable}

abbrev held : Memory
held = record empty {
  session_mnemonic = some (new_secure one_byte (1 ∷ []) (codes "zoo"));
  session_id = some (codes "a1");
}

abbrev stored : Store
stored =
    (save_wallet one_byte plain_base64 lengths tagging works (1 ∷ []) (2 ∷ []) 3 4 (codes "zoo")
      (codes "271828") (record { wallet = none; lockout = unreadable })).0

deleted_wallet_is_gone_example :
    (m' : Memory) × (s' : Store) × (delete_wallet (λ k n. replicate n k) works held stored
      ≡ some (m', (s', ok tt)))
    × (m'.session.current ≡ none)
    × (get_session_pin one_byte m' ≡ none)
    × ((now0 now1 : ℕ) → get_session_mnemonic one_byte now0 now1 m' ≡ (m', none))
    × ((now : ℕ) (clock : ℕ × ℕ × ℕ) (pin : Text)
        → load_wallet one_byte plain_base64 lengths tagging works now clock pin s'
          ≡ (s', err no_wallet))
deleted_wallet_is_gone_example =
    deleted_wallet_is_gone one_byte plain_base64 lengths tagging (λ k n. replicate n k) held stored
      (λ k n. length-replicate {0} {A = ℕ} n k)
