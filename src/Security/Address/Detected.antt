-- ===== src/Security/Address/Detected.antt =====
-- How the detection of a chain and the validators agree.
use xv.Prelude.{
  ◌≡◌, ◌≢◌, ◌⊎◌, refl, sym, Bool, true, false, Option, none, some, arith, length, ◌==◌,
  if◌then◌else◌,
}
use xv.Prelude.Text.{Text, trim}
use xv.Security.Address.{
  detects_ethereum, detects_bitcoin_segwit, detects_bitcoin_legacy, detects_solana, detects_ton,
  is_ton, is_solana, validate_ton_address, is_bitcoin_legacy, validate_solana_address,
  is_bitcoin_segwit, validate_bitcoin_address, is_ethereum, starts_with_sultan,
  validate_ethereum_address, ChainType, sultan, ethereum, bitcoin, solana, ton, detect_trimmed,
  detect_chain_from_address, validate_on,
}

-- The chain that the tests select, by their answers.
abbrev selected : Bool → Bool → Bool → Bool → Bool → Bool → Option ChainType
selected s e w l o t =
    if s
    then some sultan
    else if e
    then some ethereum
    else if w
    then some bitcoin
    else if l
    then some bitcoin
    else if o
    then some solana
    else if t
    then some ton
    else none

-- The test of the chain that was selected has passed.
abbrev Passed : Bool → Bool → Bool → Bool → Bool → Bool → ChainType → Type 0
Passed s e w l o t sultan = s ≡ true
Passed s e w l o t ethereum = e ≡ true
Passed s e w l o t bitcoin = (w ≡ true) ⊎ (l ≡ true)
Passed s e w l o t solana = o ≡ true
Passed s e w l o t ton = t ≡ true

selected-Passed :
    (s e w l o t : Bool) (c : ChainType) → selected s e w l o t ≡ some c → Passed s e w l o t c
selected-Passed s e w l o t sultan h = ground (arith, h)
selected-Passed s e w l o t ethereum h = ground (arith, h)
selected-Passed s e w l o t bitcoin h = ground (arith, h)
selected-Passed s e w l o t solana h = ground (arith, h)
selected-Passed s e w l o t ton h = ground (arith, h)

-- Each pattern of the detection is one of the chain's validator.
ethereum_patterns : (s : Text) → detects_ethereum s ≡ is_ethereum s
unfolding detects_ethereum is_ethereum
ethereum_patterns s = refl

segwit_patterns : (s : Text) → detects_bitcoin_segwit s ≡ is_bitcoin_segwit s
unfolding detects_bitcoin_segwit is_bitcoin_segwit
segwit_patterns s = refl

legacy_patterns : (s : Text) → detects_bitcoin_legacy s ≡ is_bitcoin_legacy s
unfolding detects_bitcoin_legacy is_bitcoin_legacy
legacy_patterns s = refl

solana_patterns : (s : Text) → detects_solana s ≡ is_solana s
unfolding detects_solana is_solana
solana_patterns s = refl

ton_patterns : (s : Text) → detects_ton s ≡ is_ton s
unfolding detects_ton is_ton
ton_patterns s = refl

validated :
    (s : Text) (c : ChainType)
    → Passed
        (starts_with_sultan s)
        (detects_ethereum s)
        (detects_bitcoin_segwit s)
        (detects_bitcoin_legacy s)
        (detects_solana s)
        (detects_ton s)
        c
    → c ≢ sultan
    → validate_on c s ≡ none
unfolding validate_on validate_ethereum_address validate_bitcoin_address validate_solana_address
    validate_ton_address
validated s sultan p n = absurd (n refl)
validated s ethereum p n = rw (sym (ethereum_patterns s), p) refl
validated s bitcoin p n = ground (arith, p, segwit_patterns s, legacy_patterns s)
validated s solana p n = rw (sym (solana_patterns s), p) refl
validated s ton p n = rw (sym (ton_patterns s), p) refl

-- An address of which a chain is detected is valid on that chain, unless it is Sultan's own, where the
-- length and the characters are still to be checked.
pub detected_address_is_valid :
    (address : Text) (c : ChainType)
    → detect_chain_from_address address ≡ some c
    → c ≢ sultan
    → validate_on c (trim address) ≡ none
unfolding detect_chain_from_address detect_trimmed
detected_address_is_valid address c h n =
    let s = trim address in
    validated s c
      (selected-Passed (starts_with_sultan s) (detects_ethereum s) (detects_bitcoin_segwit s)
        (detects_bitcoin_legacy s) (detects_solana s) (detects_ton s) c
        (past_guard (length address == 0) _ c h))
      n
  where
    past_guard :
        (b : Bool) (o : Option ChainType) (d : ChainType)
        → (if b then none else o) ≡ some d
        → o ≡ some d
    past_guard true o d e = absurd (ground (arith, e))
    past_guard false o d e = e
