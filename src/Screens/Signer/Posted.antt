-- ===== src/Screens/Signer/Posted.antt =====
-- What signing and posting with an account of the wallet does.
use xv.Prelude.{List, some, true, ◌≡◌, refl}
use xv.Wallet.Accounts.Signing.{SignatureLaws, Built, sign_transaction-SignedFields}
use xv.Screens.Signer.{sign_and_post}
use xv.Prelude.Result.{Result, ok}
use xv.Platform.{TextCodec}
use xv.Wallet.Accounts.{
  verify_signature, sign_transaction, JsonValue, get_account, SultanAccount, SultanWallet, Packages,
}
use xv.Prelude.Text.{Text}
use xv.Api.Request.{ApiError, Trace}

module _ (codec : TextCodec) (packages : Packages) (laws : SignatureLaws packages)
    (w : SultanWallet) (built : Built codec packages w) (a : SultanAccount)
    (found : get_account a.index w ≡ some a) where
  pub sign_and_post_lem :
      {A : Type 0} (tx_data : List (Text × JsonValue)) (signature : Text)
      (post : Text → Trace → Trace × Result ApiError A) (t : Trace)
      → sign_transaction codec packages tx_data a.index w ≡ ok signature
      → (sign_and_post codec packages w a tx_data post t).0 ≡ (post signature t).0
  unfolding sign_and_post
  sign_and_post_lem tx_data signature post t signed = rw (signed, sign_and_post) refl

  -- The post is made with a signature of the fields that verifies under the account's public key.
  abbrev pub PostedSigned :
      {A : Type 0}
      → List (Text × JsonValue)
      → (Text → Trace → Trace × Result ApiError A)
      → Trace
      → Trace
      → Type 0
  PostedSigned tx_data post t after =
      (signature : Text) × (verify_signature codec packages
          (packages.sha256 (codec.encode (packages.stringify tx_data))) signature a.public_key
        ≡ true)
      × (after ≡ (post signature t).0)

  pub sign_and_post-PostedSigned :
      {A : Type 0} (tx_data : List (Text × JsonValue))
      (post : Text → Trace → Trace × Result ApiError A) (t : Trace)
      → PostedSigned tx_data post t (sign_and_post codec packages w a tx_data post t).0
  sign_and_post-PostedSigned tx_data post t =
      let (signature, signed, verifies) =
        sign_transaction-SignedFields codec packages laws w built a.index a tx_data found in
      (signature, verifies, sign_and_post_lem tx_data signature post t signed)
