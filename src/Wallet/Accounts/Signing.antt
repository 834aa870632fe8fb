-- ===== src/Wallet/Accounts/Signing.antt =====
-- Signatures of a wallet verify under the public keys of its accounts.
use xv.Prelude.{
  ap₂, ◌∙◌, if◌then◌else◌, Bool, not, refl, ◌==◌, Option-cases, Bool-cases, sym, ◌++◌, arith, subst,
  Option, List, ◌≡◌, inr, inl, ◌∷◌, [], some, none, false, true, ℕ, All, All-append,
}
use xv.Prelude.Text.{Text, Bytes}
use xv.Prelude.Hex.{IsByte, bytes_to_hex}
use xv.Prelude.Result.{Result, ok, err, ◌>>=◌}
use xv.Platform.{TextCodec}
use xv.Security.SecureString.{SecureString, new_secure}
use xv.Wallet.Keys.{derive_ed25519_key, account_path}
use xv.Wallet.Hex.RoundTrip.{hex_to_bytes-bytes_to_hex}
use xv.Wallet.Accounts.{
  invalid_mnemonic, get_account, out_of_range, Packages, SultanAccount, SultanTransaction,
  SignedTransaction, SultanWallet, WalletError, lookup_account, wallet_seed, account_of_key,
  derive_account, from_mnemonic, sign_bytes, sign_full_transaction, serialize_transaction,
  verify_signature, sign_transaction, JsonValue,
}

-- What @noble/ed25519 documents: signatures and public keys are bytes, and a signature verifies under the
-- public key of the key that made it.
pub record SignatureLaws (packages : Packages) : Type 0 where
  pub sign-IsByte : (message key : Bytes) → All IsByte (packages.sign message key)
  pub public_key-IsByte : (key : Bytes) → All IsByte (packages.get_public_key key)
  pub verify-sign :
      (message key : Bytes)
      → packages.verify (packages.sign message key) message (packages.get_public_key key) ≡ true

-- A wallet that is not destroyed.
abbrev pub open_wallet :
    SecureString → Option SecureString → List (ℕ × SultanAccount) → SultanWallet
open_wallet m p l = record {
  secure_mnemonic = some m;
  secure_passphrase = p;
  accounts = l;
  destroyed = false;
}

lookup-All :
    (P : ℕ × SultanAccount → Type 0) (i : ℕ) (l : List (ℕ × SultanAccount)) (a : SultanAccount)
    → All P l
    → lookup_account i l ≡ some a
    → P (i, a)
lookup-All P i [] a h e = absurd (ground (arith, e))
lookup-All P i ((j, b) ∷ l) a (hb, hl) e = elim (Bool-cases (j == i)) [
  | inl same ↦ subst P (ground (arith, same, e)) hb
  | inr other ↦ lookup-All P i l a hl (ground (arith, other, e))
]

module _ (codec : TextCodec) (packages : Packages) where
  -- The account's public key is that of the private key at its index.
  abbrev Derived : SecureString → Option SecureString → ℕ × SultanAccount → Type 0
  Derived m p (i, a) =
      (key : Bytes) × (derive_ed25519_key packages.sha512 (wallet_seed codec packages m p)
          (account_path i)
        ≡ some key)
      × (a.public_key ≡ bytes_to_hex (packages.get_public_key key))

  record IsCoherent (w : SultanWallet) : Type 0 where
    mnemonic : SecureString
    passphrase : Option SecureString
    cache : List (ℕ × SultanAccount)
    shape : w ≡ open_wallet mnemonic passphrase cache
    all_derived : All (Derived mnemonic passphrase) cache

  derive_open-IsCoherent :
      (i : ℕ) (name : Option Text) (m : SecureString) (p : Option SecureString)
      (l : List (ℕ × SultanAccount))
      → All (Derived m p) l
      → IsCoherent (derive_account codec packages i name (open_wallet m p l)).0
  unfolding derive_account
  derive_open-IsCoherent i name m p l h = elim (Option-cases (lookup_account i l)) [
    | inr (a, found) ↦ rw found (same l h)
    | inl missing ↦ rw missing (
        by_key
          (derive_ed25519_key packages.sha512 (wallet_seed codec packages m p) (account_path i))
          refl)
  ]
    where
      same : (k : List (ℕ × SultanAccount)) → All (Derived m p) k → IsCoherent (open_wallet m p k)
      same k hk = record { mnemonic = m; passphrase = p; cache = k; shape = refl; all_derived = hk }

      by_key :
          (o : Option Bytes)
          → derive_ed25519_key packages.sha512 (wallet_seed codec packages m p) (account_path i) ≡ o
          → IsCoherent
              (elim o as (λ _. SultanWallet × Result WalletError SultanAccount) [
                | none ↦ (open_wallet m p l, err out_of_range)
                | some key ↦
                    let account = account_of_key codec packages key i name in
                    (open_wallet m p (l ++ ((i, account) ∷ [])), ok account)
              ]).0
      by_key none e = same l h
      by_key (some key) e = same (l ++ ((i, account_of_key codec packages key i name) ∷ [])) (
          All-append (Derived m p) l ((i, account_of_key codec packages key i name) ∷ []) h
            ((key, e, unfold account_of_key in refl), tt))

  derive_account-IsCoherent :
      (i : ℕ) (name : Option Text) (w : SultanWallet)
      → IsCoherent w
      → IsCoherent (derive_account codec packages i name w).0
  derive_account-IsCoherent i name w c =
      subst (λ v. IsCoherent (derive_account codec packages i name v).0) (sym c.shape)
        (derive_open-IsCoherent i name c.mnemonic c.passphrase c.cache c.all_derived)

  of_created :
      (invalid : Bool) (w' v : SultanWallet) (r : Result WalletError SultanAccount)
      → (if invalid then err invalid_mnemonic else r >>= λ a. ok w') ≡ ok v
      → w' ≡ v
  of_created true w' v r h = absurd (ground (arith, h))
  of_created false w' v (ok a) h = cc h
  of_created false w' v (err e) h = absurd (ground (arith, h))

  -- A wallet of a mnemonic, and what deriving accounts makes of it.
  pub data Built : SultanWallet → Type 0 where
    created :
        (key passphrase_key : Bytes) (mnemonic : Text) (passphrase : Option Text) (w : SultanWallet)
        → from_mnemonic codec packages key passphrase_key mnemonic passphrase ≡ ok w
        → Built w
    derived :
        (i : ℕ) (name : Option Text) (w : SultanWallet)
        → Built w
        → Built (derive_account codec packages i name w).0

  Built-IsCoherent : (w : SultanWallet) → Built w → IsCoherent w
  unfolding from_mnemonic
  Built-IsCoherent w (created key passphrase_key mnemonic passphrase _ h) =
      subst IsCoherent (of_created (not (packages.validate_mnemonic mnemonic)) _ w _ h)
        (derive_open-IsCoherent 0 none (new_secure codec key mnemonic) _ [] tt)
  Built-IsCoherent _ (derived i name w b) =
      derive_account-IsCoherent i name w (Built-IsCoherent w b)

  verify_signature-printed :
      (signature message public_key : Bytes)
      → All IsByte signature
      → All IsByte public_key
      → verify_signature codec packages message (bytes_to_hex signature) (bytes_to_hex public_key)
        ≡ packages.verify signature message public_key
  unfolding verify_signature
  verify_signature-printed signature message public_key hs hk =
      ap₂ (λ (s k : Bytes). packages.verify s message k) (hex_to_bytes-bytes_to_hex signature hs)
        (hex_to_bytes-bytes_to_hex public_key hk)

  module _ (laws : SignatureLaws packages) where
    sign_bytes-verifies :
        (m : SecureString) (p : Option SecureString) (l : List (ℕ × SultanAccount)) (i : ℕ)
        (a : SultanAccount) (message : Bytes)
        → Derived m p (i, a)
        → (s : Text) × (sign_bytes codec packages i message (open_wallet m p l) ≡ ok s)
          × (verify_signature codec packages message s a.public_key ≡ true)
    unfolding sign_bytes
    sign_bytes-verifies m p l i a message (key, found, public) =
        let signature = packages.sign message key in
        (
          bytes_to_hex signature,
          rw found refl,
          rw public (
              verify_signature-printed signature message (packages.get_public_key key)
                (laws.sign-IsByte message key) (laws.public_key-IsByte key)
              ∙ laws.verify-sign message key),
        )

    -- What a signed transaction of the account guarantees.
    abbrev Signed : SultanWallet → ℕ → SultanAccount → SultanTransaction → Type 0
    Signed w i a tx =
        (t : SignedTransaction) × (sign_full_transaction codec packages i tx w ≡ ok t)
        × (t.transaction ≡ record tx { from_address = a.address })
        × (t.public_key ≡ a.public_key)
        × (verify_signature codec packages (serialize_transaction codec packages t.transaction)
              t.signature t.public_key
            ≡ true)

    open_wallet-Signed :
        (m : SecureString) (p : Option SecureString) (l : List (ℕ × SultanAccount)) (i : ℕ)
        (a : SultanAccount) (tx : SultanTransaction)
        → All (Derived m p) l
        → lookup_account i l ≡ some a
        → Signed (open_wallet m p l) i a tx
    unfolding sign_full_transaction
    open_wallet-Signed m p l i a tx h found =
        let t = record tx { from_address = a.address } in
        let (signature, signed, verifies) =
          sign_bytes-verifies m p l i a (serialize_transaction codec packages t)
            (lookup-All (Derived m p) i l a h found) in
        (
          record { transaction = t; signature = signature; public_key = a.public_key },
          rw (found, signed) refl,
          refl,
          refl,
          verifies,
        )

    -- Each account of a wallet that was made from a mnemonic, and that accounts were derived of, signs. The
    -- signed transaction is the given one from the account's address, with the account's public key, and
    -- its signature verifies under that key.
    pub signed_transaction_verifies :
        (w : SultanWallet)
        → Built w
        → (i : ℕ) (a : SultanAccount) (tx : SultanTransaction) → get_account i w ≡ some a
        → (t : SignedTransaction) × (sign_full_transaction codec packages i tx w ≡ ok t)
          × (t.transaction ≡ record tx { from_address = a.address })
          × (t.public_key ≡ a.public_key)
          × (verify_signature codec packages
                (serialize_transaction codec packages t.transaction)
                t.signature
                t.public_key
              ≡ true)
    unfolding get_account
    signed_transaction_verifies w b i a tx h =
        let c = Built-IsCoherent w b in
        subst (λ v. Signed v i a tx) (sym c.shape)
          (open_wallet-Signed c.mnemonic c.passphrase c.cache i a tx c.all_derived
            (subst (λ (v : SultanWallet). lookup_account i v.accounts ≡ some a) c.shape h))

    -- What a signature over given fields guarantees.
    abbrev pub SignedFields : SultanWallet → ℕ → SultanAccount → List (Text × JsonValue) → Type 0
    SignedFields w i a tx_data =
        (s : Text) × (sign_transaction codec packages tx_data i w ≡ ok s)
        × (verify_signature codec packages
              (packages.sha256 (codec.encode (packages.stringify tx_data))) s a.public_key
            ≡ true)

    open_wallet-SignedFields :
        (m : SecureString) (p : Option SecureString) (l : List (ℕ × SultanAccount)) (i : ℕ)
        (a : SultanAccount) (tx_data : List (Text × JsonValue))
        → All (Derived m p) l
        → lookup_account i l ≡ some a
        → SignedFields (open_wallet m p l) i a tx_data
    unfolding sign_transaction
    open_wallet-SignedFields m p l i a tx_data h found =
        let (signature, signed, verifies) =
          sign_bytes-verifies m p l i a
            (packages.sha256 (codec.encode (packages.stringify tx_data)))
            (lookup-All (Derived m p) i l a h found) in
        (signature, rw (found, signed) refl, verifies)

    pub sign_transaction-SignedFields :
        (w : SultanWallet)
        → Built w
        → (i : ℕ) (a : SultanAccount) (tx_data : List (Text × JsonValue)) → get_account i w ≡ some a
        → SignedFields w i a tx_data
    unfolding get_account
    sign_transaction-SignedFields w b i a tx_data h =
        let c = Built-IsCoherent w b in
        subst (λ v. SignedFields v i a tx_data) (sym c.shape)
          (open_wallet-SignedFields c.mnemonic c.passphrase c.cache i a tx_data c.all_derived
            (subst (λ (v : SultanWallet). lookup_account i v.accounts ≡ some a) c.shape h))
