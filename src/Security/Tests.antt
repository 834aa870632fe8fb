-- ===== src/Security/Tests.antt =====
-- Secrets and comparisons at small sizes.
use xv.Prelude.{replicate, ◌≡◌, refl, some, [], ◌∷◌}
use xv.Prelude.Text.{codes, text_eq}
use xv.Platform.Samples.{one_byte}
use xv.Security.SecureString.{
  destroy_leaves_zeros, reveal-new_secure, SecureString, xor_bytes, new_secure, get_value, reveal,
  destroy,
}
use xv.Security.ConstantTime.{constant_time_string_equal_lem, constant_time_string_equal}

masked_bytes : (new_secure one_byte (1 ∷ 2 ∷ []) (codes "ab")).masked ≡ (96 ∷ 96 ∷ [])
unfolding new_secure xor_bytes
masked_bytes = refl

revealed_sample :
    reveal one_byte (new_secure one_byte (9 ∷ 250 ∷ 77 ∷ []) (codes "pin")) ≡ codes "pin"
revealed_sample = reveal-new_secure one_byte (9 ∷ 250 ∷ 77 ∷ []) (codes "pin") refl

abbrev held : SecureString
held = record { masked = 5 ∷ 6 ∷ []; key = 7 ∷ 8 ∷ [] }

destroy_leaves_zeros_example :
    (t : SecureString) × (destroy (1 ∷ 2 ∷ []) (3 ∷ 4 ∷ []) held ≡ some t)
    × (t.masked ≡ replicate 2 0)
    × (t.key ≡ replicate 2 0)
    × (get_value t ≡ replicate 2 0)
destroy_leaves_zeros_example = destroy_leaves_zeros (1 ∷ 2 ∷ []) (3 ∷ 4 ∷ []) held refl refl

compared_sample :
    constant_time_string_equal one_byte (codes "abc") (codes "abd")
    ≡ some (text_eq (one_byte.encode (codes "abc")) (one_byte.encode (codes "abd")))
compared_sample = constant_time_string_equal_lem one_byte (codes "abc") (codes "abd")
