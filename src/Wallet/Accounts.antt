-- ===== src/Wallet/Accounts.antt =====
-- The class `SultanWallet` of wallet-extension/src/core/wallet.ts. The packages' functions are fields of
-- a record. Local arrays and strings that hold a secret are dropped, wiped where the source wipes them.
pub mod Signing
pub mod Destroyed
pub mod Samples
mod Tests
use xv.Prelude.{
  length, ◌&&◌, ◌+◌, ◌==◌, ◌++◌, not, map, Option, List, if◌then◌else◌, Bool, ◌∷◌, [], some, none,
  false, true, ℕ, take,
}
use xv.Prelude.Text.{text_eq, Text, Bytes, codes}
use xv.Prelude.Decimal.{to_string}
use xv.Prelude.Hex.{bytes_to_hex}
use xv.Prelude.Result.{Result, ok, err, ◌>>=◌}
use xv.Platform.{TextCodec}
use xv.Security.SecureString.{SecureString, new_secure, reveal, destroy}
use xv.Wallet.Keys.{derive_ed25519_key, account_path}
use xv.Wallet.Hex.{hex_to_bytes}

-- A value of an object that is signed, as far as the wallet builds such objects.
pub data JsonValue : Type 0 where
  str : Text → JsonValue
  num : ℕ → JsonValue

-- @scure/bip39, @noble/hashes, @noble/ed25519, bech32 and fast-json-stable-stringify.
pub record Packages : Type 0 where
  pub validate_mnemonic : Text → Bool
  pub mnemonic_to_seed : Text → Text → Bytes
  pub sha256 : Bytes → Bytes
  pub sha512 : Bytes → Bytes
  pub get_public_key : Bytes → Bytes
  pub sign : Bytes → Bytes → Bytes
  pub verify : Bytes → Bytes → Bytes → Bool
  pub bech32_encode : Text → List ℕ → Text
  pub to_words : Bytes → List ℕ
  pub stringify : List (Text × JsonValue) → Text

pub record SultanAccount : Type 0 where
  pub address : Text
  pub public_key : Text
  pub path : Text
  pub index : ℕ
  pub name : Text

pub record SultanTransaction : Type 0 where
  pub from_address : Text
  pub to_address : Text
  pub amount : Text
  pub memo : Option Text
  pub nonce : ℕ
  pub timestamp : ℕ

pub record SignedTransaction : Type 0 where
  pub transaction : SultanTransaction
  pub signature : Text
  pub public_key : Text

-- The accounts are a Map, in the order of insertion.
pub record SultanWallet : Type 0 where
  pub secure_mnemonic : Option SecureString
  pub secure_passphrase : Option SecureString
  pub accounts : List (ℕ × SultanAccount)
  pub destroyed : Bool

pub data WalletError : Type 0 where
  invalid_mnemonic wallet_destroyed not_initialized out_of_range : WalletError
  account_not_found : ℕ → WalletError

-- accounts.get(index)
abbrev pub lookup_account : ℕ → List (ℕ × SultanAccount) → Option SultanAccount
lookup_account index [] = none
lookup_account index ((i, a) ∷ l) =
    let rest = lookup_account index l in if i == index then some a else rest

abbrev pub or_throw {ℓ} : {A : Type ℓ} → WalletError → Option A → Result WalletError A
or_throw e none = err e
or_throw e (some a) = ok a

unfoldable pub ensure_not_destroyed : SultanWallet → Result {0, 0} WalletError Unit
ensure_not_destroyed w = if w.destroyed then err wallet_destroyed else ok tt

-- name || `Account ${index + 1}`
abbrev pub name_or_default : Option Text → ℕ → Text
name_or_default name index = elim name [
  | none ↦ codes "Account " ++ to_string (index + 1)
  | some s ↦ elim s [ [] ↦ codes "Account " ++ to_string (index + 1) | c ∷ t ↦ c ∷ t ]
]

-- tx.memo || ''
abbrev pub memo_or_empty : Option Text → Text
memo_or_empty memo = elim memo [ none ↦ [] | some m ↦ m ]

unfoldable pub get_accounts : SultanWallet → List SultanAccount
get_accounts w = map (λ p. p.1) w.accounts

unfoldable pub get_account : ℕ → SultanWallet → Option SultanAccount
get_account index w = lookup_account index w.accounts

unfoldable pub get_primary_account : SultanWallet → Option SultanAccount
get_primary_account w = lookup_account 0 w.accounts

unfoldable pub is_destroyed : SultanWallet → Bool
is_destroyed w = w.destroyed

unfoldable pub has_mnemonic : SultanWallet → Bool
has_mnemonic w = elim w.secure_mnemonic [ none ↦ false | some m ↦ not w.destroyed ]

-- isValidAddress, over what `bech32.decode` answers; `none` is a throw.
unfoldable pub is_valid_address : (Text → Option (Text × List ℕ)) → Text → Bool
is_valid_address decode address = elim (decode address) [
  | none ↦ false
  | some (prefix, words) ↦ text_eq prefix (codes "sultan") && not (length words == 0)
]

module _ (codec : TextCodec) (packages : Packages) where
  open packages use {
    validate_mnemonic, mnemonic_to_seed, sha256, sha512, get_public_key, sign, verify,
    bech32_encode, to_words, stringify,
  }

  unfoldable pub public_key_to_address : Bytes → Text
  public_key_to_address public_key =
      bech32_encode (codes "sultan") (to_words (take 20 (sha256 public_key)))

  -- The seed of the mnemonic with its passphrase, which is the empty text where there is none.
  unfoldable pub wallet_seed : SecureString → Option SecureString → Bytes
  wallet_seed mnemonic passphrase =
      mnemonic_to_seed (reveal codec mnemonic)
        (elim passphrase [ none ↦ [] | some p ↦ reveal codec p ])

  -- The account of a private key. `deriveAccount` wipes the key and the seed then.
  unfoldable pub account_of_key : Bytes → ℕ → Option Text → SultanAccount
  unfolding public_key_to_address
  account_of_key private_key index name =
      let public_key = get_public_key private_key in
      record {
        address = public_key_to_address public_key;
        public_key = bytes_to_hex public_key;
        path = account_path index;
        index = index;
        name = name_or_default name index;
      }

  unfoldable pub derive_account :
      ℕ → Option Text → SultanWallet → SultanWallet × Result WalletError SultanAccount
  unfolding ensure_not_destroyed account_of_key wallet_seed
  derive_account index name w =
      if w.destroyed then (w, err wallet_destroyed) else elim w.secure_mnemonic [
        | none ↦ (w, err not_initialized)
        | some mnemonic ↦ elim (lookup_account index w.accounts) [
          | some a ↦ (w, ok a)
          | none ↦
              elim (derive_ed25519_key sha512 (wallet_seed mnemonic w.secure_passphrase)
                (account_path index)) [
                  | none ↦ (w, err out_of_range)
                  | some private_key ↦
                      let account = account_of_key private_key index name in
                      (record w { accounts = w.accounts ++ ((index, account) ∷ []) }, ok account)
                ]
        ]
      ]

  -- `key` and `passphrase_key` are what `randomBytes` gave the two secure strings. A wallet whose first
  -- account cannot be derived is dropped.
  unfoldable pub from_mnemonic :
      Bytes → Bytes → Text → Option Text → Result WalletError SultanWallet
  unfolding derive_account
  from_mnemonic key passphrase_key mnemonic passphrase =
      if not (validate_mnemonic mnemonic)
      then err invalid_mnemonic
      else let w : SultanWallet = record {
        secure_mnemonic = some (new_secure codec key mnemonic);
        secure_passphrase = elim passphrase [
          | none ↦ none
          | some p ↦ elim p [ [] ↦ none | c ∷ s ↦ some (new_secure codec passphrase_key (c ∷ s)) ]
        ];
        accounts = [];
        destroyed = false;
      } in
        let (w', r) = derive_account 0 none w in (r >>= λ a. ok w')

  unfoldable pub derive_private_key_for_signing : ℕ → SultanWallet → Result WalletError Bytes
  unfolding ensure_not_destroyed wallet_seed
  derive_private_key_for_signing index w = do
    _ ← ensure_not_destroyed w
    mnemonic ← or_throw not_initialized w.secure_mnemonic
    or_throw out_of_range
        (derive_ed25519_key sha512 (wallet_seed mnemonic w.secure_passphrase) (account_path index))

  -- The second half of each signing method: the key is derived for this signature, and wiped.
  unfoldable pub sign_bytes : ℕ → Bytes → SultanWallet → Result WalletError Text
  unfolding derive_private_key_for_signing
  sign_bytes index message w = do
    private_key ← derive_private_key_for_signing index w
    ok (bytes_to_hex (sign message private_key))

  unfoldable pub sign_transaction :
      List (Text × JsonValue) → ℕ → SultanWallet → Result WalletError Text
  unfolding ensure_not_destroyed sign_bytes
  sign_transaction tx_data index w = do
    _ ← ensure_not_destroyed w
    account ← or_throw (account_not_found index) (lookup_account index w.accounts)
    sign_bytes index (sha256 (codec.encode (stringify tx_data))) w

  unfoldable pub serialize_transaction : SultanTransaction → Bytes
  serialize_transaction tx = sha256 (
      codec.encode (
        stringify (
          (codes "from", str tx.from_address)
          ∷ (codes "to", str tx.to_address)
          ∷ (codes "amount", str tx.amount)
          ∷ (codes "memo", str (memo_or_empty tx.memo))
          ∷ (codes "nonce", num tx.nonce)
          ∷ (codes "timestamp", num tx.timestamp)
          ∷ [])))

  -- The sender's address is the account's, whatever the given transaction says.
  unfoldable pub sign_full_transaction :
      ℕ → SultanTransaction → SultanWallet → Result WalletError SignedTransaction
  unfolding ensure_not_destroyed serialize_transaction sign_bytes
  sign_full_transaction index tx w = do
    _ ← ensure_not_destroyed w
    account ← or_throw (account_not_found index) (lookup_account index w.accounts)
    let transaction = record tx { from_address = account.address }
    signature ← sign_bytes index (serialize_transaction transaction) w
    ok (record {
      transaction = transaction;
      signature = signature;
      public_key = account.public_key;
    })

  unfoldable pub sign_message : ℕ → Text → SultanWallet → Result WalletError Text
  unfolding ensure_not_destroyed sign_bytes
  sign_message index message w = do
    _ ← ensure_not_destroyed w
    account ← or_throw (account_not_found index) (lookup_account index w.accounts)
    sign_bytes index (codec.encode message) w

  -- A package that throws is a `verify` that answers false.
  unfoldable pub verify_signature : Bytes → Text → Text → Bool
  unfolding hex_to_bytes
  verify_signature message signature public_key =
      verify (hex_to_bytes signature) message (hex_to_bytes public_key)

  unfoldable pub with_mnemonic {ℓ} : {A : Type ℓ} → (Text → A) → SultanWallet → Result WalletError A
  unfolding ensure_not_destroyed
  with_mnemonic callback w = do
    _ ← ensure_not_destroyed w
    mnemonic ← or_throw not_initialized w.secure_mnemonic
    ok (callback (reveal codec mnemonic))

-- `destroy`, with what `randomBytes` returned for the mnemonic's two arrays. `none` is a throw of the
-- wiping.
unfoldable pub destroy_wallet : Bytes → Bytes → SultanWallet → Option SultanWallet
destroy_wallet for_masked for_key w =
    let gone = record w { secure_mnemonic = none; accounts = []; destroyed = true } in
    if w.destroyed then some w else elim w.secure_mnemonic [
      | none ↦ some gone
      | some mnemonic ↦ elim (destroy for_masked for_key mnemonic) [
        | none ↦ none
        | some m ↦ some gone
      ]
    ]
