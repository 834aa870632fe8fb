-- ===== src/Security/Address/Plain.antt =====
-- Valid addresses are plain text.
use xv.Prelude.{
  ℕ, zero, suc, ◌≡◌, refl, Bool, true, false, not, ◌&&◌, ◌||◌, Option, none, some, [], ◌∷◌, arith,
  length, all, ltb, ◌==◌, if◌then◌else◌,
}
use xv.Prelude.Text.{Text, codes, trim, strip_prefix, index_of}
use xv.Security.Address.{
  unknown_format, address_required, get_chain_info, detect_chain_from_address, invalid,
  AddressValidationResult, validate_address, valid, is_ton, is_solana, is_bitcoin_legacy,
  is_bitcoin_segwit, is_ethereum, validate_ton_address, validate_solana_address, sultan_characters,
  sultan_length, validate_bitcoin_address, validate_sultan_address_internal,
  validate_ethereum_address, AddressError, ChainType, sultan, ethereum, bitcoin, solana, ton,
  validate_on, behind, counted, is_hex, is_segwit, is_base58, is_url_safe, is_bech32,
}

hex_plain : (c : ℕ) → is_hex c ≡ true → is_url_safe c ≡ true
hex_plain c h = ground (arith, h)

segwit_plain : (c : ℕ) → is_segwit c ≡ true → is_url_safe c ≡ true
segwit_plain c h = ground (arith, h)

base58_plain : (c : ℕ) → is_base58 c ≡ true → is_url_safe c ≡ true
base58_plain c h = ground (arith, h)

all_imp :
    (p q : ℕ → Bool)
    → ((c : ℕ) → p c ≡ true → q c ≡ true)
    → (s : Text) → all p s ≡ true
    → all q s ≡ true
all_imp p q i [] h = refl
all_imp p q i (c ∷ s) h = ground (arith, h, i c, all_imp p q i s)

index_of_plain :
    (q : ℕ → Bool) (c : ℕ) (l : Text) (i : ℕ) → all q l ≡ true → index_of c l ≡ some i → q c ≡ true
index_of_plain q c [] i h e = absurd (ground (arith, e))
index_of_plain q c (d ∷ l) zero h e = ground (arith, h, e)
index_of_plain q c (d ∷ l) (suc i) h e = ground (arith, h, e, index_of_plain q c l i)

bech32_plain : (c : ℕ) → is_bech32 c ≡ true → is_url_safe c ≡ true
bech32_plain c h = by_place (index_of c (codes "qpzry9x8gf2tvdw0s3jn54khce6mua7l")) refl h
  where
    by_place :
        (o : Option ℕ)
        → index_of c (codes "qpzry9x8gf2tvdw0s3jn54khce6mua7l") ≡ o
        → elim o [ none ↦ false | some i ↦ true ] ≡ true
        → is_url_safe c ≡ true
    by_place none e g = absurd (ground (arith, g))
    by_place (some i) e g =
        index_of_plain is_url_safe c (codes "qpzry9x8gf2tvdw0s3jn54khce6mua7l") i refl e

strip_prefix_plain :
    (q : ℕ → Bool) (p s r : Text)
    → strip_prefix p s ≡ some r
    → all q p ≡ true
    → all q r ≡ true
    → all q s ≡ true
strip_prefix_plain q [] s r e hp hr = ground (arith, e, hr)
strip_prefix_plain q (c ∷ p) [] r e hp hr = refl
strip_prefix_plain q (c ∷ p) (d ∷ s) r e hp hr =
    ground (arith, e, hp, hr, strip_prefix_plain q p s r)

behind_plain :
    (prefix : Text) (test : ℕ → Bool) (least most : ℕ) (s : Text)
    → ((c : ℕ) → test c ≡ true → is_url_safe c ≡ true)
    → all is_url_safe prefix ≡ true
    → behind prefix test least most s ≡ true
    → all is_url_safe s ≡ true
behind_plain prefix test least most s imp hp h = by_rest (strip_prefix prefix s) refl h
  where
    by_rest :
        (o : Option Text)
        → strip_prefix prefix s ≡ o
        → (elim o [ none ↦ false | some rest ↦ counted test least most rest ]) ≡ true
        → all is_url_safe s ≡ true
    by_rest none e g = absurd (ground (arith, g))
    by_rest (some r) e g =
        strip_prefix_plain is_url_safe prefix s r e hp
          (all_imp test is_url_safe imp r (ground (arith, g)))

second_of : (a b : Bool) (x : AddressError) → (if a && b then none else some x) ≡ none → b ≡ true
second_of true true x h = refl
second_of true false x h = absurd (ground (arith, h))
second_of false b x h = absurd (ground (arith, h))

not_refused : (b : Bool) (x : AddressError) → (if not b then some x else none) ≡ none → b ≡ true
not_refused true x h = refl
not_refused false x h = absurd (ground (arith, h))

either_of :
    (a b : Bool) (x : AddressError)
    → (if a then none else if b then none else some x) ≡ none
    → a || b ≡ true
either_of true b x h = refl
either_of false true x h = refl
either_of false false x h = absurd (ground (arith, h))

sultan_plain : (s : Text) → validate_on sultan s ≡ none → all is_url_safe s ≡ true
unfolding validate_on validate_sultan_address_internal
sultan_plain s h =
    by_rest (ltb (length s) 39 || ltb 59 (length s)) (strip_prefix (codes "sultan1") s) refl h
  where
    by_rest :
        (b : Bool) (o : Option Text)
        → strip_prefix (codes "sultan1") s ≡ o
        → (if b then some sultan_length else elim o [
          | none ↦ some sultan_characters
          | some rest ↦
              if not (length rest == 0) && all is_bech32 rest then none else some sultan_characters
        ])
          ≡ none
        → all is_url_safe s ≡ true
    by_rest true o e g = absurd (ground (arith, g))
    by_rest false none e g = absurd (ground (arith, g))
    by_rest false (some r) e g = strip_prefix_plain is_url_safe (codes "sultan1") s r e refl (
        all_imp is_bech32 is_url_safe bech32_plain r
          (second_of (not (length r == 0)) (all is_bech32 r) sultan_characters g))

either_plain : (a b : Bool) {P : Type 0} → (a ≡ true → P) → (b ≡ true → P) → a || b ≡ true → P
either_plain true b f g h = f refl
either_plain false b f g h = g h

valid_plain : (c : ChainType) (s : Text) → validate_on c s ≡ none → all is_url_safe s ≡ true
unfolding validate_on validate_ethereum_address validate_bitcoin_address validate_solana_address
    validate_ton_address is_ethereum is_bitcoin_segwit is_bitcoin_legacy is_solana is_ton
valid_plain sultan s h = sultan_plain s h
valid_plain ethereum s h =
    behind_plain (codes "0x") is_hex 40 40 s hex_plain refl (not_refused _ _ h)
valid_plain bitcoin s h =
    either_plain _ _ (behind_plain (codes "bc1") is_segwit 25 87 s segwit_plain refl)
      (either_plain _ _ (behind_plain (codes "1") is_base58 25 34 s base58_plain refl)
        (behind_plain (codes "3") is_base58 25 34 s base58_plain refl))
      (either_of _ _ _ h)
valid_plain solana s h =
    all_imp is_base58 is_url_safe base58_plain s (ground (arith, not_refused _ _ h))
valid_plain ton s h =
    either_plain _ _ (behind_plain (codes "EQ") is_url_safe 46 46 s (λ c e. e) refl)
      (behind_plain (codes "UQ") is_url_safe 46 46 s (λ c e. e) refl) (not_refused _ _ h)

-- The answer after the first test, for what the detection and the validators found.
answer : Bool → Option ChainType → (ChainType → Option AddressError) → AddressValidationResult
answer empty detected check = if empty then invalid address_required else elim detected [
  | none ↦ invalid unknown_format
  | some chain ↦ elim (check chain) [
    | some e ↦ invalid e
    | none ↦ valid chain (get_chain_info chain).name (get_chain_info chain).wrapped_token
  ]
]

answer-valid :
    (empty : Bool) (detected : Option ChainType) (check : ChainType → Option AddressError)
    (c : ChainType) (n t : Text)
    → answer empty detected check ≡ valid c n t
    → (detected ≡ some c)
      × (check c ≡ none)
      × (n ≡ (get_chain_info c).name)
      × (t ≡ (get_chain_info c).wrapped_token)
unfolding answer
answer-valid true detected check c n t h = absurd (ground (arith, h))
answer-valid false none check c n t h = absurd (ground (arith, h))
answer-valid false (some d) check c n t h = by_check (check d) refl h
  where
    by_check :
        (o : Option AddressError)
        → check d ≡ o
        → (elim o [
          | some e ↦ invalid e
          | none ↦ valid d (get_chain_info d).name (get_chain_info d).wrapped_token
        ])
          ≡ valid c n t
        → (some d ≡ some c)
          × (check c ≡ none)
          × (n ≡ (get_chain_info c).name)
          × (t ≡ (get_chain_info c).wrapped_token)
    by_check (some x) e g = absurd (ground (arith, g))
    by_check none e g = (cc g, cc (e, g), cc g, cc g)

-- An address that is accepted, with a chain, a name and a token, is made of letters, digits, dashes and
-- underscores once the blanks around it are taken off; the chain is the one that was detected, and the
-- name and the token are that chain's.
pub valid_address_is_plain :
    (address : Text) (c : ChainType) (n t : Text)
    → validate_address address ≡ valid c n t
    → (all is_url_safe (trim address) ≡ true)
      × (detect_chain_from_address (trim address) ≡ some c)
      × (n ≡ (get_chain_info c).name)
      × (t ≡ (get_chain_info c).wrapped_token)
unfolding validate_address answer
valid_address_is_plain address c n t h =
    let (found, checked, name, token) =
      answer-valid (length address == 0) (detect_chain_from_address (trim address))
        (λ chain. validate_on chain (trim address)) c n t h in
    (valid_plain c (trim address) checked, found, name, token)
