-- ===== src/Security/Address/Tests.antt =====
-- Addresses of several chains.
use xv.Prelude.{true, all, ◌≡◌, ◌≢◌, refl, none, some, arith}
use xv.Prelude.Text.{Text, codes, trim}
use xv.Security.Address.{
  get_chain_info, is_url_safe, sultan, ethereum, sultan_length, invalid, valid, validate_address,
  validate_on, detect_chain_from_address,
}
use xv.Security.Address.Plain.{valid_address_is_plain}
use xv.Security.Address.Detected.{detected_address_is_valid}

abbrev an_ethereum_address : Text
an_ethereum_address = codes " 0x00000000219ab540356cBB839Cbe05303d7705Fa "

found : detect_chain_from_address an_ethereum_address ≡ some ethereum
unfolding detect_chain_from_address
found = refl

not_sultan : ethereum ≢ sultan
not_sultan e = ground (arith, e)

too_short : validate_address (codes "sultan1qpzry") ≡ invalid sultan_length
unfolding validate_address
too_short = refl

accepted : validate_address an_ethereum_address ≡ valid ethereum (codes "Ethereum") (codes "sETH")
unfolding validate_address
accepted = refl

detected_address_is_valid_example : validate_on ethereum (trim an_ethereum_address) ≡ none
detected_address_is_valid_example =
    detected_address_is_valid an_ethereum_address ethereum found not_sultan

plain_sample :
    (all is_url_safe (trim an_ethereum_address) ≡ true)
    × (detect_chain_from_address (trim an_ethereum_address) ≡ some ethereum)
    × (codes "Ethereum" ≡ (get_chain_info ethereum).name)
    × (codes "sETH" ≡ (get_chain_info ethereum).wrapped_token)
plain_sample =
    valid_address_is_plain an_ethereum_address ethereum (codes "Ethereum") (codes "sETH") accepted
