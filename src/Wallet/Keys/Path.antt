-- ===== src/Wallet/Keys/Path.antt =====
-- The key of an account, against the derivation of SLIP-0010.
use xv.Prelude.{
  ◌^◌, map, Option, none, ◌≤◌, sym, List, append-nil, ap, ap₂, some, ◌-◌, ◌+◌, ◌*◌, arith, ◌++◌,
  refl, ◌∙◌, ◌≡◌, ◌∷◌, [], false, true, ℕ, all, length, take, drop, replicate, length-append,
  length-take, length-drop, take_front,
}
use mathlib.Core.List.{foldl}
use xv.Prelude.Text.{Text, Bytes, codes, is_digit}
use xv.Prelude.Decimal.{to_string, value_from, value_from-to_string, all_digits-to_string}
use xv.Prelude.Optional.{◌>>=◌}
use xv.Security.Wipe.{set_bytes, set_bytes_fits, drop_all}
use xv.Wallet.Keys.{
  block_size, hmac_sha512, halves, derive_segment, derive_segments, derive_ed25519_key,
  account_path, split_slash, ends_with_quote, without_quote, parse_digits, segment_index,
  uint32_bytes,
}
use xv.Wallet.Keys.Hmac.{rfc_2104, hmac_sha512_lem}

split_slash-digits : (s : Text) → all is_digit s ≡ true → split_slash s ≡ (s ∷ [])
split_slash-digits [] h = refl
split_slash-digits (c ∷ s) h = ground (arith, h, split_slash-digits s)

without_quote-digits : (s : Text) → all is_digit s ≡ true → without_quote s ≡ s
without_quote-digits [] h = refl
without_quote-digits (c ∷ s) h = ground (arith, h, without_quote-digits s)

ends_with_quote-digits : (s : Text) → all is_digit s ≡ true → ends_with_quote s ≡ false
ends_with_quote-digits [] h = refl
ends_with_quote-digits (c ∷ []) h = ground (arith, h)
ends_with_quote-digits (c ∷ d ∷ s) h = ground (arith, h, ends_with_quote-digits (d ∷ s))

parse_digits-all : (v : ℕ) (s : Text) → all is_digit s ≡ true → parse_digits v s ≡ value_from v s
parse_digits-all v [] h = refl
parse_digits-all v (c ∷ s) h = ground (arith, h, parse_digits-all (v * 10 + (c - b'0')) s)

segment_index-to_string : (i : ℕ) → segment_index (to_string i) ≡ i
unfolding segment_index
segment_index-to_string i =
    let d = all_digits-to_string i in
    rw (ends_with_quote-digits (to_string i) d, without_quote-digits (to_string i) d)
      (parse_digits-all 0 (to_string i) d ∙ value_from-to_string i)

path_segments :
    (i : ℕ)
    → drop 1 (split_slash (account_path i))
      ≡ (codes "44'" ∷ codes "1984'" ∷ codes "0'" ∷ codes "0'" ∷ to_string i ∷ [])
unfolding account_path
path_segments i = rw (split_slash-digits (to_string i) (all_digits-to_string i)) refl

abbrev pub hardened : ℕ → ℕ
hardened n = n + 2 ^ 31

path_indices :
    (i : ℕ)
    → map segment_index (codes "44'" ∷ codes "1984'" ∷ codes "0'" ∷ codes "0'" ∷ to_string i ∷ [])
      ≡ (hardened 44 ∷ hardened 1984 ∷ hardened 0 ∷ hardened 0 ∷ i ∷ [])
path_indices i = rw (segment_index-to_string i) (unfold segment_index in refl)

bind_assoc :
    {A : Type 0} (m : Option Bytes) (f : Bytes → Option Bytes) (g : Bytes → Option A)
    → (m >>= (λ x. f x >>= g)) ≡ (m >>= f >>= g)
bind_assoc none f g = refl
bind_assoc (some x) f g = refl

child_input :
    (index : ℕ) (key : Bytes)
    → length key ≡ 32
    → (do with_key ← set_bytes (replicate 37 0) 1 key; set_bytes with_key 33 (uint32_bytes index))
      ≡ some (0 ∷ (key ++ uint32_bytes index))
child_input index key h =
    let w = (0 ∷ key) ++ replicate 4 0 in
    let l = length-append {0} (0 ∷ key) (replicate 4 0) in
    let e : length (0 ∷ key) ≡ 33 = omega (arith, h) in
    rw
      (
        set_bytes_fits (replicate 37 0) key 1 (omega (arith, h)),
        h,
        set_bytes_fits w (uint32_bytes index) 33 (omega (arith, h, l)),
      )
      (ap₂ (λ (s t : Bytes). some ((s ++ uint32_bytes index) ++ t))
          (ap (λ (n : ℕ). take n w) (sym e) ∙ take_front (0 ∷ key) (replicate 4 0))
          (drop_all 37 w (omega (arith, h, l)))
        ∙ ap some (append-nil (0 ∷ (key ++ uint32_bytes index))))

abbrev Halved : Bytes × Bytes → Type 0
Halved keys = (length keys.0 ≡ 32) × (length keys.1 ≡ 32)

module _ (sha512 : Bytes → Bytes) where
  -- A child key of SLIP-0010: HMAC under the chain code, of a zero byte, the key and the index.
  unfoldable pub child : ℕ → Bytes × Bytes → Bytes × Bytes
  child index keys = halves (rfc_2104 sha512 keys.1 (0 ∷ (keys.0 ++ uint32_bytes index)))

  unfoldable pub master : Bytes → Bytes × Bytes
  master seed = halves (rfc_2104 sha512 (codes "ed25519 seed") seed)

  -- The keys that a path of indices leads to.
  abbrev pub descend : Bytes × Bytes → List ℕ → Bytes × Bytes
  descend = foldl (λ keys index. child index keys)

module _ (sha512 : Bytes → Bytes) (long : (bs : Bytes) → length (sha512 bs) ≡ 64) where
  Halved-halves : (bs : Bytes) → Halved (halves (sha512 bs))
  Halved-halves bs = (
    omega (arith, long bs, length-take {0} 32 (sha512 bs)),
    omega (arith, long bs, length-drop {0} 32 (sha512 bs)),
  )

  at_most_a_block : (bs : Bytes) → length (sha512 bs) ≤ block_size
  at_most_a_block bs = omega (arith, long bs)

  hmac-short :
      (key bytes : Bytes)
      → length key ≤ block_size
      → hmac_sha512 sha512 key bytes ≡ some (rfc_2104 sha512 key bytes)
  hmac-short key bytes h = ground (arith, hmac_sha512_lem sha512 key bytes at_most_a_block, h)

  derive_segment-child :
      (index : ℕ) (keys : Bytes × Bytes)
      → Halved keys
      → derive_segment sha512 index keys ≡ some (child sha512 index keys)
  unfolding derive_segment child
  derive_segment-child index (key, chain) (hk, hc) =
      let finish = λ (input : Bytes). hmac_sha512 sha512 chain input >>= (λ k. some (halves k)) in
      bind_assoc (set_bytes (replicate 37 0) 1 key) (λ w. set_bytes w 33 (uint32_bytes index))
        finish
      ∙ ap (λ (o : Option Bytes). o >>= finish) (child_input index key hk)
      ∙ ap (λ (o : Option Bytes). o >>= (λ k. some (halves k)))
          (hmac-short chain (0 ∷ (key ++ uint32_bytes index)) (omega (arith, hc)))

  Halved-child : (index : ℕ) (keys : Bytes × Bytes) → Halved (child sha512 index keys)
  unfolding child
  Halved-child index keys = Halved-halves _

  Halved-master : (seed : Bytes) → Halved (master sha512 seed)
  unfolding master
  Halved-master seed = Halved-halves _

  derive_segments-descend :
      (segments : List Text) (keys : Bytes × Bytes)
      → Halved keys
      → derive_segments sha512 segments keys
        ≡ some (descend sha512 keys (map segment_index segments))
  unfolding derive_segments
  derive_segments-descend [] keys h = refl
  derive_segments-descend (s ∷ segments) keys h =
      ap (λ o. o >>= derive_segments sha512 segments)
        (derive_segment-child (segment_index s) keys h)
      ∙ derive_segments-descend segments (child sha512 (segment_index s) keys)
          (Halved-child (segment_index s) keys)

  -- With digests of 64 bytes, the key of an account is derived without an error. It is the key that four
  -- hardened steps of SLIP-0010 and one that is not hardened, of the account's index, lead to.
  pub account_key_lem :
      (seed : Bytes) (index : ℕ)
      → derive_ed25519_key sha512 seed (account_path index)
        ≡ some
            (descend sha512
              (master sha512 seed)
              (hardened 44 ∷ hardened 1984 ∷ hardened 0 ∷ hardened 0 ∷ index ∷ [])).0
  unfolding derive_ed25519_key master
  account_key_lem seed index =
      ap
        (λ (o : Option Bytes). o >>= (λ key.
          derive_segments sha512 (drop 1 (split_slash (account_path index))) (halves key)
          >>= (λ keys. some keys.0)))
        (hmac-short (codes "ed25519 seed") seed (omega arith))
      ∙ ap {A = List Text} {B = Option Bytes}
          (λ l.
            derive_segments sha512 l (halves (rfc_2104 sha512 (codes "ed25519 seed") seed))
            >>= (λ keys. some keys.0))
          (path_segments index)
      ∙ ap {A = Option (Bytes × Bytes)} {B = Option Bytes} (λ o. o >>= (λ keys. some keys.0))
          (derive_segments-descend _ (master sha512 seed) (Halved-master seed))
      ∙ ap {A = List ℕ} (λ l. some (descend sha512 (master sha512 seed) l).0) (path_indices index)
