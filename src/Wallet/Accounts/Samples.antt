-- ===== src/Wallet/Accounts/Samples.antt =====
-- Toy packages, for the examples.
use xv.Prelude.{
  refl, refl, ◌≡◌, ==_refl, arith, some, none, ◌&&◌, ◌==◌, get_or, replicate, ◌++◌, ◌%◌, ◌∷◌, [],
  true, ℕ,
}
use xv.Prelude.Text.{Bytes, codes}
use xv.Platform.Samples.{one_byte, total}
use xv.Wallet.Accounts.{
  SultanWallet, get_account, public_key_to_address, account_of_key, wallet_seed, derive_account,
  from_mnemonic, SultanAccount, Packages,
}
use xv.Prelude.Result.{ok}
use xv.Wallet.Accounts.Signing.{SignatureLaws}
use xv.Wallet.Keys.{
  account_path, segment_index, join_arrays, hmac_sha512, derive_segment, derive_segments,
  derive_ed25519_key,
}
use xv.Security.Wipe.{set_bytes}
use xv.Security.SecureString.{get_value, xor_bytes, reveal, new_secure}
use xv.Prelude.Decimal.{to_string}
use xv.Prelude.Hex.{to_hex, bytes_to_hex}

abbrev pub byte_of : Bytes → ℕ
byte_of bs = total bs % 256

-- A signature is the key's byte and the message's byte; a public key is the key's byte.
abbrev pub toy_packages : Packages
toy_packages = record {
  validate_mnemonic = λ mnemonic. true;
  mnemonic_to_seed = λ mnemonic passphrase. mnemonic ++ passphrase;
  sha256 = λ bs. byte_of bs ∷ [];
  sha512 = λ bs. replicate 64 (byte_of bs);
  get_public_key = λ key. byte_of key ∷ [];
  sign = λ message key. byte_of key ∷ byte_of message ∷ [];
  verify = λ signature message public_key.
      (get_or signature 0 0 == get_or public_key 0 0) && (get_or signature 1 0 == byte_of message);
  bech32_encode = λ prefix words. prefix ++ words;
  to_words = λ bs. bs;
  stringify = λ fields. codes "{}";
}

pub toy_laws : SignatureLaws toy_packages
toy_laws = record {
  sign-IsByte = λ message key. omega arith;
  public_key-IsByte = λ key. omega arith;
  verify-sign = λ message key. ground (arith, ==_refl (byte_of key), ==_refl (byte_of message));
}

abbrev pub first_account : SultanAccount
first_account = record {
  address = codes "sultan" ++ (0 ∷ []);
  public_key = codes "00";
  path = codes "m/44'/1984'/0'/0'/0";
  index = 0;
  name = codes "Account 1";
}

pub toy_created :
    (w : SultanWallet) × (from_mnemonic one_byte toy_packages (1 ∷ 2 ∷ 3 ∷ []) [] (codes "zoo") none
      ≡ ok w)
    × (get_account 0 w ≡ some first_account)
unfolding from_mnemonic derive_account derive_ed25519_key derive_segments derive_segment hmac_sha512
    join_arrays set_bytes segment_index account_path wallet_seed account_of_key
    public_key_to_address new_secure reveal xor_bytes get_account to_string bytes_to_hex to_hex
    get_value
toy_created = (_, refl, refl)
