-- ===== src/Storage/Deleting.antt =====
-- `deleteWallet` of wallet-extension/src/core/storage.secure.ts, over the session's memory and the
-- stored wallet.
mod Tests
use xv.Prelude.{arith, ℕ, ◌≡◌, refl, Option, none, some, List, [], ◌∷◌, length}
use xv.Prelude.Text.{Text, Bytes}
use xv.Prelude.Optional.{◌>>=◌}
use xv.Prelude.Result.{Result, ok, err}
use xv.Platform.{TextCodec, Base64, WebCrypto}
use xv.Security.SecureString.{SecureString, destroy_leaves_zeros}
use xv.Storage.Memory.{get_session_pin, get_session_mnemonic, Memory, clear_session, destroy_secret}
use xv.Storage.Vault.{
  EncryptedJson, Database, works, Store, StorageError, no_wallet, delete_stored, load_wallet,
}
use xv.Security.Session.{end_session}
use xv.Security.Lockout.{absent, clear_failed_attempts, is_locked_out}

-- The session is cleared first, whatever becomes of the deletion.
unfoldable pub delete_wallet :
    (ℕ → ℕ → Bytes)
    → Database
    → Memory
    → Store
    → Option (Memory × (Store × Result {0, 0} StorageError Unit))
unfolding clear_session delete_stored
delete_wallet draw database m s = do
  cleared ← clear_session draw m
  some (cleared, delete_stored database s)

destroy_secret-some :
    (for_masked for_key : ℕ → Bytes) (s : Option SecureString) (gone : List SecureString)
    → ((n : ℕ) → length (for_masked n) ≡ n)
    → ((n : ℕ) → length (for_key n) ≡ n)
    → (left : List SecureString) × (destroy_secret for_masked for_key s gone ≡ some left)
unfolding destroy_secret
destroy_secret-some for_masked for_key none gone hm hk = (gone, refl)
destroy_secret-some for_masked for_key (some s) gone hm hk =
    let (t, e, _, _, _) =
      destroy_leaves_zeros (for_masked (length s.masked)) (for_key (length s.key)) s
        (hm (length s.masked)) (hk (length s.key)) in
    (t ∷ gone, rw e refl)

-- A deletion that the database carries out leaves no mnemonic, no PIN and no session in memory, and
-- from then on no PIN loads a wallet: with the attempts forgotten, each load finds none.
pub deleted_wallet_is_gone :
    (codec : TextCodec) (base64 : Base64) (json : EncryptedJson) (crypto : WebCrypto)
    (draw : ℕ → ℕ → Bytes) (m : Memory) (s : Store)
    → ((k n : ℕ) → length (draw k n) ≡ n)
    → (m' : Memory) × (s' : Store) × (delete_wallet draw works m s ≡ some (m', (s', ok tt)))
      × (m'.session.current ≡ none)
      × (get_session_pin codec m' ≡ none)
      × ((now0 now1 : ℕ) → get_session_mnemonic codec now0 now1 m' ≡ (m', none))
      × ((now : ℕ) (clock : ℕ × ℕ × ℕ) (pin : Text)
          → load_wallet codec base64 json crypto works now clock pin s' ≡ (s', err no_wallet))
unfolding delete_wallet load_wallet get_session_mnemonic get_session_pin end_session is_locked_out
    clear_failed_attempts
deleted_wallet_is_gone codec base64 json crypto draw m s fits =
    let (g, e) =
      destroy_secret-some (draw 0) (draw 1) m.session_mnemonic m.destroyed (fits 0) (fits 1) in
    let (g', e') = destroy_secret-some (draw 2) (draw 3) m.session_pin_secure g (fits 2) (fits 3) in
    (
      record {
        session_mnemonic = none;
        session_id = none;
        session_pin_secure = none;
        session = end_session m.session;
        destroyed = g';
      },
      record { wallet = none; lockout = absent },
      rw (e, e') refl,
      refl,
      refl,
      (λ now0 now1. refl),
      (λ now clock pin. ground arith),
    )
