-- ===== src/Storage/Vault.antt =====
-- The stored wallet of wallet-extension/src/core/storage.secure.ts: the record in IndexedDB, beside
-- the entry of the lockout in localStorage. Each reading of the clock is an argument, in the order
-- of the calls.
pub mod Loading
pub mod Endings
pub mod Samples
mod Tests
use xv.Prelude.{
  ℕ, ◌+◌, ◌≡◌, Option, none, some, List, [], Bool, true, false, length, take, drop, ◌==◌,
  if◌then◌else◌,
}
use xv.Prelude.Text.{Text, Bytes, text_eq}
use xv.Prelude.Hex.{bytes_to_hex}
use xv.Prelude.Optional.{◌>>=◌}
use xv.Prelude.Result.{Result, ok, err}
use xv.Platform.{TextCodec, Base64, WebCrypto}
use xv.Security.Lockout.{Entry, is_locked_out, record_failed_attempt, clear_failed_attempts}

abbrev pub pbkdf2_iterations : ℕ
pbkdf2_iterations = 600000

abbrev pub legacy_iterations : ℕ
legacy_iterations = 100000

pub record EncryptedData : Type 0 where
  pub salt : Text
  pub iv : Text
  pub ciphertext : Text
  pub version : ℕ

-- JSON.stringify and JSON.parse, on the records that the wallet stores.
pub record EncryptedJson : Type 0 where
  pub stringify : EncryptedData → Text
  pub parse : Text → Option EncryptedData
  pub parse-stringify : (d : EncryptedData) → parse (stringify d) ≡ some d

-- A wallet without a checksum has the empty text, which is falsy like a missing field.
pub record StoredWallet : Type 0 where
  pub encrypted_mnemonic : Text
  pub mnemonic_checksum : Text
  pub accounts : List Text
  pub created_at : ℕ
  pub updated_at : ℕ
  pub version : ℕ
  pub security_version : ℕ

pub record Store : Type 0 where
  pub wallet : Option StoredWallet
  pub lockout : Entry

-- How IndexedDB meets a call: it cannot be opened, the request fails, or it is carried out.
pub data Database : Type 0 where
  unavailable request_fails works : Database

pub data StorageError : Type 0 where
  database_failed write_failed read_failed delete_failed : StorageError
  too_many_attempts no_wallet wallet_locked : StorageError
  invalid_pin : ℕ → StorageError

module _ (codec : TextCodec) (base64 : Base64) (json : EncryptedJson) (crypto : WebCrypto) where
  unfoldable pub derive_key : Text → Bytes → Bytes
  derive_key pin salt = crypto.derive_key pbkdf2_iterations (codec.encode pin) salt

  -- `salt` and `iv` are what `randomBytes` returned; the local arrays are wiped at the end.
  unfoldable pub encrypt : Bytes → Bytes → Text → Text → EncryptedData
  unfolding derive_key
  encrypt salt iv text pin = record {
    salt = base64.btoa salt;
    iv = base64.btoa iv;
    ciphertext = base64.btoa (crypto.seal (derive_key pin salt) iv (codec.encode text));
    version = 2;
  }

  -- `none` is a throw, of whatever step.
  unfoldable pub decrypt : EncryptedData → Text → Option Text
  unfolding derive_key
  decrypt encrypted pin = do
    salt ← base64.atob encrypted.salt
    iv ← base64.atob encrypted.iv
    ciphertext ← base64.atob encrypted.ciphertext
    decrypted ← crypto.open_sealed (derive_key pin salt) iv ciphertext
    some (codec.decode decrypted)

  unfoldable pub decrypt_legacy : Text → Text → Option Text
  decrypt_legacy encrypted pin = do
    combined ← base64.atob encrypted
    let salt = take 16 combined
    let iv = take 12 (drop 16 combined)
    let ciphertext = drop 28 combined
    let key = crypto.derive_key legacy_iterations (codec.encode pin) salt
    decrypted ← crypto.open_sealed key iv ciphertext
    some (codec.decode decrypted)

  -- The first four bytes of the digest, in hexadecimal.
  unfoldable pub checksum : Text → Text
  unfolding bytes_to_hex
  checksum mnemonic = bytes_to_hex (take 4 (crypto.sha256 (codec.encode mnemonic)))

  abbrev pub new_wallet : Bytes → Bytes → ℕ → ℕ → Text → Text → StoredWallet
  new_wallet salt iv now0 now1 mnemonic pin = record {
    encrypted_mnemonic = json.stringify (encrypt salt iv mnemonic pin);
    mnemonic_checksum = checksum mnemonic;
    accounts = [];
    created_at = now0;
    updated_at = now1;
    version = 1;
    security_version = 2;
  }

  unfoldable pub save_wallet :
      Database
      → Bytes
      → Bytes
      → ℕ
      → ℕ
      → Text
      → Text
      → Store
      → Store × Result {0, 0} StorageError Unit
  save_wallet unavailable salt iv now0 now1 mnemonic pin s = (s, err database_failed)
  save_wallet request_fails salt iv now0 now1 mnemonic pin s = (s, err write_failed)
  save_wallet works salt iv now0 now1 mnemonic pin s =
      (record s { wallet = some (new_wallet salt iv now0 now1 mnemonic pin) }, ok tt)

  -- The first half of the `try` of `loadWallet`.
  unfoldable pub read_mnemonic : Text → StoredWallet → Option Text
  unfolding decrypt decrypt_legacy
  read_mnemonic pin wallet =
      if wallet.security_version == 2
      then json.parse wallet.encrypted_mnemonic >>= (λ encrypted. decrypt encrypted pin)
      else decrypt_legacy wallet.encrypted_mnemonic pin

  -- The second half, which compares the checksums.
  unfoldable pub verified : StoredWallet → Text → Option Text
  unfolding checksum
  verified wallet mnemonic =
      if length wallet.mnemonic_checksum == 0
      then some mnemonic
      else if text_eq (checksum mnemonic) wallet.mnemonic_checksum
      then some mnemonic
      else none

  unfoldable pub try_wallet : Text → StoredWallet → Option Text
  unfolding read_mnemonic verified
  try_wallet pin wallet = do mnemonic ← read_mnemonic pin wallet; verified wallet mnemonic

  -- The `catch` of `loadWallet`.
  unfoldable pub wrong_pin : ℕ → ℕ → ℕ → Store → Store × Result StorageError Text
  wrong_pin now0 now1 now2 s =
      let (e, reply) = record_failed_attempt now0 now1 now2 s.lockout in
      (
        record s { lockout = e },
        if reply.locked then err wallet_locked else err (invalid_pin reply.attempts_remaining),
      )

  -- `now` is read by the test of the lockout, the others when a failed attempt is recorded.
  unfoldable pub load_wallet :
      Database → ℕ → (ℕ × ℕ × ℕ) → Text → Store → Store × Result StorageError Text
  unfolding try_wallet wrong_pin
  load_wallet database now (now0, now1, now2) pin s =
      if is_locked_out now s.lockout then (s, err too_many_attempts) else elim database [
        | unavailable ↦ (s, err database_failed)
        | request_fails ↦ (s, err read_failed)
        | works ↦ elim s.wallet [
          | none ↦ (s, err no_wallet)
          | some wallet ↦ elim (try_wallet pin wallet) [
            | some mnemonic ↦ (record s { lockout = clear_failed_attempts s.lockout }, ok mnemonic)
            | none ↦ wrong_pin now0 now1 now2 s
          ]
        ]
      ]

  -- The catch-all around `loadWallet`.
  unfoldable pub get_mnemonic : Database → ℕ → (ℕ × ℕ × ℕ) → Text → Store → Store × Option Text
  unfolding load_wallet
  get_mnemonic database now clock pin s =
      let r = load_wallet database now clock pin s in
      (r.0, elim r.1 [ ok mnemonic ↦ some mnemonic | err e ↦ none ])

unfoldable pub has_wallet : Database → Store → Bool
has_wallet unavailable s = false
has_wallet request_fails s = false
has_wallet works s = elim s.wallet [ none ↦ false | some w ↦ true ]

-- What `deleteWallet` does after it has cleared the session.
unfoldable pub delete_stored : Database → Store → Store × Result {0, 0} StorageError Unit
delete_stored unavailable s = (s, err database_failed)
delete_stored request_fails s = (s, err delete_failed)
delete_stored works s = (record { wallet = none; lockout = clear_failed_attempts s.lockout }, ok tt)
