-- ===== src/Screens/Signer.antt =====
-- What the signing screens of wallet-extension/src/screens share: the wallet, the session's PIN and the
-- network, and the entry of the PIN, which each screen spells out in the same way.
pub mod Checked
pub mod Posted
use xv.Prelude.{
  ℕ, zero, suc, Bool, Option, List, [], ◌∷◌, ◌++◌, all, length, not, ◌==◌, if◌then◌else◌,
}
use xv.Prelude.Text.{Text, Bytes, is_digit}
use xv.Prelude.Result.{Result, ok, err}
use xv.Platform.{TextCodec}
use xv.Security.Lockout.{Entry}
use xv.Security.SessionPin.{SessionPinError, verify_session_pin}
use xv.Wallet.Accounts.{
  WalletError, JsonValue, Packages, sign_transaction, SultanWallet, SultanAccount,
}
use xv.Api.Request.{ApiError, Trace}
use xv.Security.Address.{AddressError}
use xv.Prelude.Int.{pos, negsuc, ℤ}
use xv.Security.Amount.{AmountError}
use xv.Prelude.Decimal.{to_string}
use xv.Security.Moniker.{MonikerError}

-- The hook's wallet and account, the module's variable of the session's PIN, the lockout's entry and
-- what the requests did.
pub record Signer : Type 0 where
  pub wallet : Option SultanWallet
  pub current_account : Option SultanAccount
  pub session_pin_hash : Option Text
  pub lockout : Entry
  pub trace : Trace

-- The clock's readings of one confirmation: of the PIN's check, of `txData` and of the API's method.
pub record Readings : Type 0 where
  pub locked_at : ℕ
  pub remaining_at : ℕ
  pub failed_at : ℕ × ℕ × ℕ
  pub signed_at : ℕ
  pub posted_at : ℕ

pub data PinCheck : Type 0 where
  incomplete incorrect verified : PinCheck
  refused : SessionPinError → PinCheck

-- What the screens say: the validation of the form, the PIN, and what the try block throws.
pub data ScreenError : Type 0 where
  bad_recipient : AddressError → ScreenError
  bad_amount : AmountError → ScreenError
  bad_moniker : MonikerError → ScreenError
  validators_unknown validator_unlisted : ScreenError
  pin_needed pin_incorrect not_a_number : ScreenError
  pin_refused : SessionPinError → ScreenError
  wallet_failed : WalletError → ScreenError
  api_failed : ApiError → ScreenError

-- A bigint's text.
abbrev pub bigint_text : ℤ → Text
bigint_text (pos n) = to_string n
bigint_text (negsuc n) = b'-' ∷ to_string (suc n)

abbrev pub or_failed : {A : Type 0} → Result ApiError A → Result ScreenError A
or_failed (err e) = err (api_failed e)
or_failed (ok a) = ok a

-- The fields are signed with the account's key, and the signature is posted.
unfoldable pub sign_and_post :
    {A : Type 0}
    → TextCodec
    → Packages
    → SultanWallet
    → SultanAccount
    → List (Text × JsonValue)
    → (Text → Trace → Trace × Result ApiError A)
    → Trace
    → Trace × Result ScreenError A
unfolding sign_transaction
sign_and_post codec packages w a tx_data post t =
    elim (sign_transaction codec packages tx_data a.index w) [
      | err e ↦ (t, err (wallet_failed e))
      | ok signature ↦ let (t', r) = post signature t in (t', or_failed r)
    ]

abbrev pub empty_pin : List Text
empty_pin = [] ∷ [] ∷ [] ∷ [] ∷ [] ∷ [] ∷ []

-- value.slice(-1)
abbrev pub last_character : Text → Text
last_character [] = []
last_character (c ∷ s) = let rest = last_character s in if length s == 0 then c ∷ [] else rest

-- newPin[index] = value; the index is that of one of the six fields.
abbrev pub with_field : ℕ → Text → List Text → List Text
with_field i value [] = []
with_field zero value (d ∷ pin) = value ∷ pin
with_field (suc i) value (d ∷ pin) = d ∷ with_field i value pin

unfoldable pub handle_pin_change : ℕ → Text → List Text → List Text
handle_pin_change index value pin =
    if all is_digit value then with_field index (last_character value) pin else pin

-- pin.join('')
abbrev pub full_pin : List Text → Text
full_pin [] = []
full_pin (d ∷ pin) = d ++ full_pin pin

abbrev pub check_of : Result SessionPinError Bool → PinCheck
check_of (err e) = refused e
check_of (ok b) = if b then verified else incorrect

unfoldable pub check_pin :
    TextCodec → (Bytes → Bytes) → Readings → List Text → Signer → Signer × PinCheck
check_pin codec sha256 r pin s =
    if not (length (full_pin pin) == 6)
    then (s, incomplete)
    else let (e, answer) =
        verify_session_pin codec sha256 r.locked_at r.remaining_at r.failed_at s.session_pin_hash
          (full_pin pin) s.lockout in
      (record s { lockout = e }, check_of answer)
