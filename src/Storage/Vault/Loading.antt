-- ===== src/Storage/Vault/Loading.antt =====
-- What loading a wallet gives and what it leaves.
use xv.Prelude.{
  sym, if◌then◌else◌, ◌==◌, All, ℕ, ◌≡◌, refl, none, some, Bool, true, false, arith, length,
}
use xv.Prelude.Text.{Text, Bytes, text_eq_iff}
use xv.Prelude.Result.{ok}
use xv.Platform.{TextCodec, Base64, WebCrypto}
use xv.Storage.Vault.{
  new_wallet, derive_key, read_mnemonic, save_wallet, checksum, encrypt, try_wallet, verified,
  load_wallet, decrypt, EncryptedJson, Store, StoredWallet, works,
}
use xv.Security.Lockout.{clear_failed_attempts, absent, is_locked_out}
use xv.Prelude.Hex.{IsByte}

accepted_either_way :
    (none_stored same : Bool) (m : Text)
    → same ≡ true
    → (if none_stored then some m else if same then some m else none) ≡ some m
accepted_either_way none_stored same m h = ground arith

module _ (codec : TextCodec) (base64 : Base64) (json : EncryptedJson) (crypto : WebCrypto) where
  decrypt-encrypt :
      (salt iv : Bytes) (text pin : Text)
      → All IsByte salt
      → All IsByte iv
      → codec.well_formed text ≡ true
      → decrypt codec base64 json crypto (encrypt codec base64 json crypto salt iv text pin) pin
        ≡ some text
  unfolding decrypt encrypt
  decrypt-encrypt salt iv text pin hs hi h =
      let key = derive_key codec base64 json crypto pin salt in
      let sealed = crypto.seal key iv (codec.encode text) in
      rw
        (
          base64.atob-btoa salt hs,
          base64.atob-btoa iv hi,
          base64.atob-btoa sealed
              (crypto.seal-IsByte key iv (codec.encode text) (codec.encode-IsByte text)),
          crypto.open_sealed-seal key iv (codec.encode text) (codec.encode-IsByte text),
          codec.decode-encode text h,
        )
        refl

  verified-checksum :
      (w : StoredWallet) (m : Text)
      → w.mnemonic_checksum ≡ checksum codec base64 json crypto m
      → verified codec base64 json crypto w m ≡ some m
  unfolding verified
  verified-checksum w m h =
      accepted_either_way (length w.mnemonic_checksum == 0) _ m ((text_eq_iff _ _).1 (sym h))

  try-saved :
      (salt iv : Bytes) (text pin : Text) (w : StoredWallet)
      → All IsByte salt
      → All IsByte iv
      → codec.well_formed text ≡ true
      → w.security_version ≡ 2
      → w.encrypted_mnemonic ≡ json.stringify (encrypt codec base64 json crypto salt iv text pin)
      → w.mnemonic_checksum ≡ checksum codec base64 json crypto text
      → try_wallet codec base64 json crypto pin w ≡ some text
  unfolding try_wallet read_mnemonic
  try-saved salt iv text pin w hs hi h v e c =
      rw
        (
          v,
          e,
          json.parse-stringify (encrypt codec base64 json crypto salt iv text pin),
          decrypt-encrypt salt iv text pin hs hi h,
        )
        (verified-checksum w text c)

  -- A wallet that was saved with a PIN is loaded with that PIN while the lockout does not forbid it:
  -- the mnemonic comes back, the stored wallet stays, and the failed attempts are forgotten.
  pub load_wallet-save_wallet :
      (salt iv : Bytes) (created updated now : ℕ) (clock : ℕ × ℕ × ℕ) (mnemonic pin : Text)
      (s : Store)
      → All IsByte salt
      → All IsByte iv
      → codec.well_formed mnemonic ≡ true
      → is_locked_out now s.lockout ≡ false
      → load_wallet codec base64 json crypto works now clock pin
          (save_wallet codec base64 json crypto works salt iv created updated mnemonic pin s).0
        ≡ (
          record (save_wallet codec base64 json crypto works salt iv created updated mnemonic pin
              s).0 { lockout = absent },
          ok mnemonic,
        )
  unfolding load_wallet save_wallet clear_failed_attempts
  load_wallet-save_wallet salt iv created updated now clock mnemonic pin s hs hi h free =
      rw
        (
          free,
          try-saved salt iv mnemonic pin
              (new_wallet codec base64 json crypto salt iv created updated mnemonic pin) hs hi h
              refl refl refl,
        )
        refl
