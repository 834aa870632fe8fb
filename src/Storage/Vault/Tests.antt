-- ===== src/Storage/Vault/Tests.antt =====
-- A wallet saved and loaded under a toy cipher.
use xv.Prelude.{false, ◌≡◌, ◌⊎◌, refl, ap, none, some, [], ◌∷◌, arith}
use xv.Prelude.Text.{Text, codes}
use xv.Prelude.Result.{ok, err}
use xv.Platform.Samples.{one_byte, plain_base64, tagging}
use xv.Storage.Vault.{
  wallet_locked, wrong_pin, derive_key, encrypt, decrypt, checksum, read_mnemonic,
  too_many_attempts, try_wallet, Store, StoredWallet, works, unavailable, save_wallet, load_wallet,
}
use xv.Storage.Vault.Samples.{lengths}
use xv.Storage.Vault.Loading.{load_wallet-save_wallet}
use xv.Storage.Vault.Endings.{loaded_mnemonic_is_checked, locked_loads_are_refused}
use xv.Security.Lockout.{record_failed_attempt, is_locked_out, absent, saved}

abbrev pin : Text
pin = codes "271828"

abbrev phrase : Text
phrase = codes "zoo zoo"

abbrev four_failed : Store
four_failed = record {
  wallet = none;
  lockout = saved (record { attempts = 4; last_attempt = 1000; locked_until = 0 });
}

abbrev with_wallet : Store
with_wallet =
    (save_wallet one_byte plain_base64 lengths tagging works (1 ∷ 2 ∷ []) (3 ∷ []) 5 6 phrase pin
      four_failed).0

load_wallet-save_wallet_example :
    load_wallet one_byte plain_base64 lengths tagging works 2000 (1, 2, 3) pin with_wallet
    ≡ (record with_wallet { lockout = absent }, ok phrase)
unfolding is_locked_out
load_wallet-save_wallet_example =
    load_wallet-save_wallet one_byte plain_base64 lengths tagging (1 ∷ 2 ∷ []) (3 ∷ []) 5 6 2000
      (1, 2, 3) phrase pin four_failed (omega arith) (omega arith) refl refl

loaded :
    (load_wallet one_byte plain_base64 lengths tagging works 2000 (1, 2, 3) pin with_wallet).1
    ≡ ok phrase
loaded = ap (λ r. r.1) load_wallet-save_wallet_example

loaded_sample :
    (is_locked_out 2000 with_wallet.lockout ≡ false)
    × ((load_wallet one_byte plain_base64 lengths tagging works 2000 (1, 2, 3) pin with_wallet).0
        ≡ record with_wallet { lockout = absent })
    × ((w : StoredWallet) × (with_wallet.wallet ≡ some w)
        × ((w.mnemonic_checksum ≡ [])
            ⊎ (w.mnemonic_checksum ≡ checksum one_byte plain_base64 lengths tagging phrase)))
loaded_sample =
    loaded_mnemonic_is_checked one_byte plain_base64 lengths tagging works 2000 (1, 2, 3) pin phrase
      with_wallet loaded

fifth_failure :
    (load_wallet one_byte plain_base64 lengths tagging works 2000
      (2001, 2002, 2003)
      (codes "271829")
      with_wallet).1
    ≡ err wallet_locked
unfolding load_wallet save_wallet try_wallet read_mnemonic decrypt encrypt derive_key wrong_pin
    is_locked_out record_failed_attempt
fifth_failure = refl

locked_loads_are_refused_example :
    load_wallet one_byte plain_base64 lengths tagging unavailable 3000
      (3001, 3002, 3003)
      pin
      (load_wallet one_byte plain_base64 lengths tagging works 2000
        (2001, 2002, 2003)
        (codes "271829")
        with_wallet).0
    ≡ (
      (load_wallet one_byte plain_base64 lengths tagging works 2000
          (2001, 2002, 2003)
          (codes "271829")
          with_wallet).0,
      err too_many_attempts,
    )
locked_loads_are_refused_example =
    locked_loads_are_refused one_byte plain_base64 lengths tagging works unavailable 2000
      (2001, 2002, 2003) (codes "271829") with_wallet fifth_failure 3000 (3001, 3002, 3003) pin
      (omega arith)
