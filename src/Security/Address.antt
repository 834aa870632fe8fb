-- ===== src/Security/Address.antt =====
-- The addresses of wallet-extension/src/core/security.ts: which chain an address is of, and whether
-- it is valid there. A regular expression is a test of the prefix, of each character and of the
-- number of characters.
pub mod Detected
pub mod Plain
mod Tests
use xv.Prelude.{
  ℕ, ◌-◌, Bool, true, false, not, ◌&&◌, ◌||◌, Option, none, some, [], ◌∷◌, length, all, leb, ltb,
  ◌==◌, if◌then◌else◌,
}
use xv.Prelude.Text.{Text, codes, is_digit, trim, strip_prefix, index_of}

pub data ChainType : Type 0 where
  sultan ethereum bitcoin solana ton : ChainType

pub data AddressError : Type 0 where
  address_required unknown_format sultan_prefix sultan_length sultan_characters : AddressError
  invalid_format : ChainType → AddressError

abbrev between : ℕ → ℕ → ℕ → Bool
between first last c = leb first c && leb c last

-- [a-fA-F0-9]
abbrev pub is_hex : ℕ → Bool
is_hex c = between b'a' b'f' c || between b'A' b'F' c || is_digit c

abbrev upper_base58 : ℕ → Bool
upper_base58 c = between b'A' b'H' c || between b'J' b'N' c || between b'P' b'Z' c

-- [a-zA-HJ-NP-Z0-9]
abbrev pub is_segwit : ℕ → Bool
is_segwit c = between b'a' b'z' c || upper_base58 c || is_digit c

-- [a-km-zA-HJ-NP-Z1-9]
abbrev pub is_base58 : ℕ → Bool
is_base58 c = between b'a' b'k' c || between b'm' b'z' c || upper_base58 c || between b'1' b'9' c

-- [A-Za-z0-9_-]
abbrev pub is_url_safe : ℕ → Bool
is_url_safe c =
    between b'A' b'Z' c || between b'a' b'z' c || is_digit c || (c == b'_') || (c == b'-')

-- [qpzry9x8gf2tvdw0s3jn54khce6mua7l]
abbrev pub is_bech32 : ℕ → Bool
is_bech32 c = elim (index_of c (codes "qpzry9x8gf2tvdw0s3jn54khce6mua7l")) [
  | none ↦ false
  | some i ↦ true
]

-- ^[...]{least,most}$
abbrev pub counted : (ℕ → Bool) → ℕ → ℕ → Text → Bool
counted test least most s = all test s && leb least (length s) && leb (length s) most

-- ^prefix[...]{least,most}$
abbrev pub behind : Text → (ℕ → Bool) → ℕ → ℕ → Text → Bool
behind prefix test least most s = elim (strip_prefix prefix s) [
  | none ↦ false
  | some rest ↦ counted test least most rest
]

unfoldable pub starts_with_sultan : Text → Bool
starts_with_sultan s = elim (strip_prefix (codes "sultan1") s) [ none ↦ false | some rest ↦ true ]

-- The patterns of the detection, which the source writes again in the validators.
unfoldable pub detects_ethereum : Text → Bool
detects_ethereum = behind (codes "0x") is_hex 40 40

unfoldable pub detects_bitcoin_segwit : Text → Bool
detects_bitcoin_segwit = behind (codes "bc1") is_segwit 25 87

unfoldable pub detects_bitcoin_legacy : Text → Bool
detects_bitcoin_legacy s =
    behind (codes "1") is_base58 25 34 s || behind (codes "3") is_base58 25 34 s

unfoldable pub detects_solana : Text → Bool
detects_solana = counted is_base58 32 44

unfoldable pub detects_ton : Text → Bool
detects_ton s = behind (codes "EQ") is_url_safe 46 46 s || behind (codes "UQ") is_url_safe 46 46 s

-- The tests of a text that is not empty, in their order.
unfoldable pub detect_trimmed : Text → Option ChainType
unfolding starts_with_sultan detects_ethereum detects_bitcoin_segwit detects_bitcoin_legacy
    detects_solana detects_ton
detect_trimmed s =
    if starts_with_sultan s
    then some sultan
    else if detects_ethereum s
    then some ethereum
    else if detects_bitcoin_segwit s
    then some bitcoin
    else if detects_bitcoin_legacy s
    then some bitcoin
    else if detects_solana s
    then some solana
    else if detects_ton s
    then some ton
    else none

unfoldable pub detect_chain_from_address : Text → Option ChainType
unfolding detect_trimmed trim
detect_chain_from_address address =
    if length address == 0 then none else detect_trimmed (trim address)

-- `none` is a valid address.
unfoldable pub validate_sultan_address_internal : Text → Option AddressError
validate_sultan_address_internal s =
    if ltb (length s) 39 || ltb 59 (length s)
    then some sultan_length
    else elim (strip_prefix (codes "sultan1") s) [
      | none ↦ some sultan_characters
      | some rest ↦
          if not (length rest == 0) && all is_bech32 rest then none else some sultan_characters
    ]

unfoldable pub validate_sultan_only_address : Text → Option AddressError
unfolding starts_with_sultan validate_sultan_address_internal trim
validate_sultan_only_address address =
    if length address == 0
    then some address_required
    else if not (starts_with_sultan (trim address))
    then some sultan_prefix
    else validate_sultan_address_internal (trim address)

-- The patterns of the validators.
unfoldable pub is_ethereum : Text → Bool
is_ethereum = behind (codes "0x") is_hex 40 40

unfoldable pub is_bitcoin_segwit : Text → Bool
is_bitcoin_segwit = behind (codes "bc1") is_segwit 25 87

unfoldable pub is_bitcoin_legacy : Text → Bool
is_bitcoin_legacy s = behind (codes "1") is_base58 25 34 s || behind (codes "3") is_base58 25 34 s

unfoldable pub is_solana : Text → Bool
is_solana = counted is_base58 32 44

unfoldable pub is_ton : Text → Bool
is_ton s = behind (codes "EQ") is_url_safe 46 46 s || behind (codes "UQ") is_url_safe 46 46 s

unfoldable pub validate_ethereum_address : Text → Option AddressError
unfolding is_ethereum
validate_ethereum_address s = if not (is_ethereum s) then some (invalid_format ethereum) else none

unfoldable pub validate_bitcoin_address : Text → Option AddressError
unfolding is_bitcoin_segwit is_bitcoin_legacy
validate_bitcoin_address s =
    if is_bitcoin_segwit s
    then none
    else if is_bitcoin_legacy s
    then none
    else some (invalid_format bitcoin)

unfoldable pub validate_solana_address : Text → Option AddressError
unfolding is_solana
validate_solana_address s = if not (is_solana s) then some (invalid_format solana) else none

unfoldable pub validate_ton_address : Text → Option AddressError
unfolding is_ton
validate_ton_address s = if not (is_ton s) then some (invalid_format ton) else none

-- The chain's validator.
unfoldable pub validate_on : ChainType → Text → Option AddressError
unfolding validate_sultan_address_internal validate_ethereum_address validate_bitcoin_address
    validate_solana_address validate_ton_address
validate_on sultan s = validate_sultan_address_internal s
validate_on ethereum s = validate_ethereum_address s
validate_on bitcoin s = validate_bitcoin_address s
validate_on solana s = validate_solana_address s
validate_on ton s = validate_ton_address s

pub record ChainInfo : Type 0 where
  pub name : Text
  pub symbol : Text
  pub wrapped_token : Text

unfoldable pub get_chain_info : ChainType → ChainInfo
get_chain_info sultan = record {
  name = codes "Sultan Chain";
  symbol = codes "SLTN";
  wrapped_token = codes "SLTN";
}
get_chain_info ethereum = record {
  name = codes "Ethereum";
  symbol = codes "ETH";
  wrapped_token = codes "sETH";
}
get_chain_info bitcoin = record {
  name = codes "Bitcoin";
  symbol = codes "BTC";
  wrapped_token = codes "sBTC";
}
get_chain_info solana = record {
  name = codes "Solana";
  symbol = codes "SOL";
  wrapped_token = codes "sSOL";
}
get_chain_info ton = record {
  name = codes "TON";
  symbol = codes "TON";
  wrapped_token = codes "sTON";
}

-- What `validateAddress` answers: an error, or the chain with its name and its wrapped token.
pub data AddressValidationResult : Type 0 where
  invalid : AddressError → AddressValidationResult
  valid : ChainType → Text → Text → AddressValidationResult

unfoldable pub validate_address : Text → AddressValidationResult
unfolding detect_chain_from_address validate_on get_chain_info
validate_address address =
    if length address == 0
    then invalid address_required
    else elim (detect_chain_from_address (trim address)) [
      | none ↦ invalid unknown_format
      | some chain ↦ elim (validate_on chain (trim address)) [
        | some e ↦ invalid e
        | none ↦ valid chain (get_chain_info chain).name (get_chain_info chain).wrapped_token
      ]
    ]
