-- ===== src/Wallet/Accounts/Destroyed.antt =====
-- What is left of a wallet that was destroyed.
use xv.Prelude.{refl, ◌≡◌, List, Option, [], some, none, false, true, ℕ, length}
use xv.Prelude.Text.{Text, Bytes}
use xv.Prelude.Result.{err}
use xv.Platform.{TextCodec}
use xv.Security.SecureString.{SecureString, destroy_leaves_zeros}
use xv.Wallet.Accounts.{
  wallet_destroyed, Packages, SultanAccount, SultanTransaction, SultanWallet, JsonValue,
  derive_account, sign_transaction, sign_message, sign_full_transaction, with_mnemonic,
  destroy_wallet, get_accounts, has_mnemonic,
}
use xv.Wallet.Accounts.Signing.{open_wallet}

-- Destroying a wallet succeeds, given random arrays of the mnemonic's lengths. From then on no account is
-- derived, nothing is signed and the mnemonic is not given out, and there are no accounts; but the
-- passphrase is still held, as it was.
pub destroyed_wallet_refuses :
    (codec : TextCodec) (packages : Packages) (for_masked for_key : Bytes) (m : SecureString)
    (p : Option SecureString) (l : List (ℕ × SultanAccount))
    → length for_masked ≡ length m.masked
    → length for_key ≡ length m.key
    → (w : SultanWallet) × (destroy_wallet for_masked for_key (open_wallet m p l) ≡ some w)
      × ((i : ℕ) (name : Option Text)
          → derive_account codec packages i name w ≡ (w, err wallet_destroyed))
      × ((i : ℕ) (tx_data : List (Text × JsonValue))
          → sign_transaction codec packages tx_data i w ≡ err wallet_destroyed)
      × ((i : ℕ) (tx : SultanTransaction)
          → sign_full_transaction codec packages i tx w ≡ err wallet_destroyed)
      × ((i : ℕ) (message : Text) → sign_message codec packages i message w ≡ err wallet_destroyed)
      × (with_mnemonic codec packages (λ mnemonic. mnemonic) w ≡ err wallet_destroyed)
      × (get_accounts w ≡ [])
      × (has_mnemonic w ≡ false)
      × (w.secure_passphrase ≡ p)
unfolding destroy_wallet derive_account sign_transaction sign_full_transaction sign_message
    with_mnemonic get_accounts has_mnemonic
destroyed_wallet_refuses codec packages for_masked for_key m p l hm hk =
    let (gone, e, _, _, _) = destroy_leaves_zeros for_masked for_key m hm hk in
    (
      record { secure_mnemonic = none; secure_passphrase = p; accounts = []; destroyed = true },
      rw e refl,
      (λ i name. refl),
      (λ i tx_data. refl),
      (λ i tx. refl),
      (λ i message. refl),
      refl,
      refl,
      refl,
      refl,
    )
