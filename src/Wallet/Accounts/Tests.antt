-- ===== src/Wallet/Accounts/Tests.antt =====
-- A wallet over toy packages.
use xv.Prelude.{List, Option, false, refl, ◌≡◌, some, none, ◌∷◌, [], true, ℕ}
use xv.Prelude.Text.{Text, codes}
use xv.Prelude.Result.{ok, err}
use xv.Platform.Samples.{one_byte}
use xv.Security.SecureString.{SecureString}
use xv.Wallet.Accounts.{
  is_valid_address, has_mnemonic, get_accounts, with_mnemonic, sign_message, sign_transaction,
  wallet_destroyed, serialize_transaction, verify_signature, sign_full_transaction, destroy_wallet,
  SultanTransaction, SignedTransaction, SultanWallet, JsonValue, derive_account,
}
use xv.Wallet.Accounts.Signing.{created, signed_transaction_verifies, open_wallet}
use xv.Wallet.Accounts.Samples.{toy_laws, toy_created, first_account, toy_packages}
use xv.Wallet.Accounts.Destroyed.{destroyed_wallet_refuses}

abbrev toy_mnemonic : SecureString
toy_mnemonic = record { masked = 7 ∷ 7 ∷ []; key = 1 ∷ 2 ∷ [] }

abbrev a_payment : SultanTransaction
a_payment = record {
  from_address = [];
  to_address = codes "sultan1x";
  amount = codes "5";
  memo = none;
  nonce = 3;
  timestamp = 99;
}

signed_transaction_verifies_example :
    (t : SignedTransaction) × (sign_full_transaction one_byte toy_packages 0 a_payment toy_created.0
      ≡ ok t)
    × (t.transaction ≡ record a_payment { from_address = first_account.address })
    × (t.public_key ≡ first_account.public_key)
    × (verify_signature one_byte toy_packages
          (serialize_transaction one_byte toy_packages t.transaction)
          t.signature
          t.public_key
        ≡ true)
signed_transaction_verifies_example =
    signed_transaction_verifies one_byte toy_packages toy_laws toy_created.0
      (created (1 ∷ 2 ∷ 3 ∷ []) [] (codes "zoo") none toy_created.0 toy_created.1) 0 first_account
      a_payment toy_created.2

destroyed_wallet_refuses_example :
    (w : SultanWallet) × (destroy_wallet
        (1 ∷ 2 ∷ [])
        (3 ∷ 4 ∷ [])
        (open_wallet toy_mnemonic (some toy_mnemonic) ((0, first_account) ∷ []))
      ≡ some w)
    × ((i : ℕ) (name : Option Text)
        → derive_account one_byte toy_packages i name w ≡ (w, err wallet_destroyed))
    × ((i : ℕ) (tx_data : List (Text × JsonValue))
        → sign_transaction one_byte toy_packages tx_data i w ≡ err wallet_destroyed)
    × ((i : ℕ) (tx : SultanTransaction)
        → sign_full_transaction one_byte toy_packages i tx w ≡ err wallet_destroyed)
    × ((i : ℕ) (message : Text)
        → sign_message one_byte toy_packages i message w ≡ err wallet_destroyed)
    × (with_mnemonic one_byte toy_packages (λ mnemonic. mnemonic) w ≡ err wallet_destroyed)
    × (get_accounts w ≡ [])
    × (has_mnemonic w ≡ false)
    × (w.secure_passphrase ≡ some toy_mnemonic)
destroyed_wallet_refuses_example =
    destroyed_wallet_refuses one_byte toy_packages (1 ∷ 2 ∷ []) (3 ∷ 4 ∷ []) toy_mnemonic
      (some toy_mnemonic) ((0, first_account) ∷ []) refl refl

other_chain_is_refused :
    is_valid_address (λ a. some (codes "cosmos", 1 ∷ [])) (codes "cosmos1q") ≡ false
unfolding is_valid_address
other_chain_is_refused = refl
