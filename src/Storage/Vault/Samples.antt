-- ===== src/Storage/Vault/Samples.antt =====
-- A toy JSON: the record as its version, two lengths and three texts.
use xv.Prelude.{
  ◌≡◌, refl, Option, none, some, ◌∷◌, ◌++◌, length, take, drop, take_front, drop_front,
}
use xv.Prelude.Text.{Text}
use xv.Storage.Vault.{EncryptedData, EncryptedJson}

abbrev pub write_lengths : EncryptedData → Text
write_lengths d = d.version ∷ length d.salt ∷ length d.iv ∷ (d.salt ++ (d.iv ++ d.ciphertext))

abbrev pub read_lengths : Text → Option EncryptedData
read_lengths (v ∷ a ∷ b ∷ t) = some (record {
  salt = take a t;
  iv = take b (drop a t);
  ciphertext = drop b (drop a t);
  version = v;
})
read_lengths t = none

pub read-write_lengths : (d : EncryptedData) → read_lengths (write_lengths d) ≡ some d
read-write_lengths d =
    rw
      (
        take_front d.salt (d.iv ++ d.ciphertext),
        drop_front d.salt (d.iv ++ d.ciphertext),
        take_front d.iv d.ciphertext,
        drop_front d.iv d.ciphertext,
      )
      refl

abbrev pub lengths : EncryptedJson
lengths = record {
  stringify = write_lengths;
  parse = read_lengths;
  parse-stringify = read-write_lengths;
}
