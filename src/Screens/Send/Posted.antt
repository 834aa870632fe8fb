-- ===== src/Screens/Send/Posted.antt =====
-- What a confirmed payment posts.
use xv.Prelude.{[], ◌∷◌, ◌∙◌, ap, none, subst, length, ℕ, some, false, true, ◌≡◌, refl}
use xv.Api.Ledger.Nonces.{
  PostsAfter, nonce_at, after_balance, nonce-balance_of, rest_api-PostsAfter,
}
use xv.Wallet.Accounts.Signing.{SignedFields, SignatureLaws, Built, sign_transaction-SignedFields}
use xv.Screens.Signer.Checked.{after_check, check_pin-passes, PinVerified}
use xv.Prelude.Result.{Result, err, ok}
use xv.Platform.{TextCodec}
use xv.Wallet.Accounts.{
  sign_transaction, verify_signature, SignedTransaction, serialize_transaction, SultanTransaction,
  get_account, SultanAccount, SultanWallet, Packages,
}
use xv.Api.Readers.{Readers}
use xv.Api.Request.{Request, post, nested, str, num, plain, Trace, Network}
use xv.Screens.Send.{
  after_pin_check, executed, transaction_data, Sending, execute_transaction, sent_transaction,
  handle_pin_submit, send_transaction, SendForm,
}
use xv.Prelude.Int.{ℤ, pos}
use xv.Prelude.Decimal.{to_string}
use xv.Prelude.Text.{Text, codes}
use xv.Screens.Signer.{ScreenError, full_pin, Readings, check_pin}
use xv.Api.Ledger.{broadcast_transaction, balance_result, broadcast_request, get_balance, get_nonce}
use xv.Wallet.Amount.{parse_sltn}

module _ {J : Type 0} (codec : TextCodec) (packages : Packages) (readers : Readers J)
    (network : Network J) where
  abbrev pub signed_by : SultanAccount → SultanTransaction → Text → SignedTransaction
  signed_by a tx signature = record {
    transaction = tx;
    signature = signature;
    public_key = a.public_key;
  }

  -- The payment, written out: the transaction, and the request with a signature.
  abbrev pub payment : SendForm → SultanAccount → ℕ → ℕ → ℕ → SultanTransaction
  payment f a units nonce now = record {
    from_address = a.address;
    to_address = f.recipient;
    amount = to_string units;
    memo = some f.memo;
    nonce = nonce;
    timestamp = now;
  }

  abbrev pub payment_request : SendForm → SultanAccount → ℕ → ℕ → ℕ → Text → Request
  payment_request f a units nonce now signature = record {
    endpoint = codes "/tx";
    method = post;
    body = some (
        (
          codes "tx",
          nested (
              (codes "from", str a.address)
              ∷ (codes "to", str f.recipient)
              ∷ (codes "amount", str (to_string units))
              ∷ (codes "memo", str f.memo)
              ∷ (codes "nonce", num (pos nonce))
              ∷ (codes "timestamp", num (pos now))
              ∷ []),
        )
        ∷ (codes "signature", plain (str signature))
        ∷ (codes "public_key", plain (str a.public_key))
        ∷ []);
    timeout_ms = 30000;
  }

  -- It is posted after the balance was asked for, with a signature of it that verifies.
  abbrev pub PaymentPosted :
      {A : Type 0} → SendForm → SultanAccount → ℕ → ℕ → ℕ → Trace → Trace × A → Type 0
  PaymentPosted f a units nonce now t result =
      (signature : Text) × (verify_signature codec packages
          (serialize_transaction codec packages (payment f a units nonce now)) signature
          a.public_key
        ≡ true)
      × PostsAfter (after_balance readers network a.address t)
          (payment_request f a units nonce now signature) result

  send_transaction_lem :
      (now : ℕ) (w : SultanWallet) (a : SultanAccount) (f : SendForm) (t : Trace) (atomic : ℤ)
      (signature : Text)
      → let tx = sent_transaction f a atomic (get_nonce readers network a.address t).1 now in
        parse_sltn f.amount ≡ ok atomic
        → sign_transaction codec packages (transaction_data tx) a.index w ≡ ok signature
        → (send_transaction codec packages readers network now w a f t).0
          ≡ (broadcast_transaction readers network
              (signed_by a tx signature)
              (get_nonce readers network a.address t).0).0
  unfolding send_transaction
  send_transaction_lem now w a f t atomic signature parsed signed =
      rw (parsed, signed, send_transaction) refl

  nonce-get_nonce :
      (address : Text) (t : Trace)
      → (get_nonce readers network address t).1 ≡ nonce_at readers network address t
  unfolding get_nonce get_balance
  nonce-get_nonce address t = nonce-balance_of address (balance_result readers network address t).1

  executed_lem : (r : Result ScreenError Text) (f : SendForm) → (executed r f).is_loading ≡ false
  unfolding executed
  executed_lem (ok hash) f = refl
  executed_lem (err e) f = refl

  execute_lem :
      (now : ℕ) (s : Sending) (w : SultanWallet) (a : SultanAccount)
      → s.signer.wallet ≡ some w
      → s.signer.current_account ≡ some a
      → let sent = send_transaction codec packages readers network now w a s.form s.signer.trace in
        execute_transaction codec packages readers network now s
        ≡ record s { form = executed sent.1 s.form; signer = record s.signer { trace = sent.0 } }
  unfolding execute_transaction
  execute_lem now s w a has_wallet has_account = simp (has_wallet, has_account, execute_transaction)

  -- A confirmation with the right PIN executes the transaction.
  submit_lem :
      (r : Readings) (s : Sending)
      → length (full_pin s.form.pin) ≡ 6
      → PinVerified codec packages.sha256 r s.form.pin s.signer
      → handle_pin_submit codec packages readers network r s
        ≡ execute_transaction codec packages readers network r.signed_at (record s {
          form = record s.form { error = none; is_loading = true };
          signer = after_check codec packages.sha256 r s.form.pin s.signer;
        })
  unfolding handle_pin_submit
  submit_lem r s six right =
      ap (λ c. after_pin_check codec packages readers network r s c.0 c.1)
        (check_pin-passes codec packages.sha256 r s.form.pin s.signer six right)

  module _ (laws : SignatureLaws packages) (w : SultanWallet) (built : Built codec packages w)
      (a : SultanAccount) (found : get_account a.index w ≡ some a) where
    send_transaction-PaymentPosted :
        (now : ℕ) (f : SendForm) (t : Trace) (units : ℕ)
        → parse_sltn f.amount ≡ ok (pos units)
        → PaymentPosted f a units
            (get_nonce readers network a.address t).1
            now
            t
            (send_transaction codec packages readers network now w a f t)
    unfolding serialize_transaction broadcast_transaction get_nonce get_balance
    send_transaction-PaymentPosted now f t units parsed =
        let posted =
          rest_api-PostsAfter readers.read_hash network
            (broadcast_request (signed_by a tx signature))
            (after_balance readers network a.address t) in
        (
          signature,
          verifies,
          (
            posted.0,
            posted.1,
            send_transaction_lem now w a f t (pos units) signature parsed signed ∙ posted.2,
          ),
        )
      where
        tx : SultanTransaction
        tx = sent_transaction f a (pos units) (get_nonce readers network a.address t).1 now

        fields : SignedFields codec packages laws w a.index a (transaction_data tx)
        fields =
            sign_transaction-SignedFields codec packages laws w built a.index a
              (transaction_data tx) found

        signature : Text
        signature = fields.0

        signed : sign_transaction codec packages (transaction_data tx) a.index w ≡ ok signature
        signed = fields.1

        verifies :
            verify_signature codec packages
              (serialize_transaction codec packages tx)
              signature
              a.public_key
            ≡ true
        verifies = fields.2

    -- When signatures behave as their package documents, the account is one of a wallet made from
    -- a mnemonic, the amount parses to a number of units from 0 on, six digits are entered and the
    -- session's check accepts them, submitting posts a transaction at most three times: from the
    -- account to the recipient as it was typed, with the parsed amount in base units, the memo,
    -- the nonce that the node reported (0 when the balance was not to be had) and the time of
    -- signing. Its signature verifies over that transaction under the account's public key, and
    -- the screen stops loading.
    pub confirmed_payment_is_posted :
        (r : Readings) (s : Sending) (units : ℕ)
        → s.signer.wallet ≡ some w
        → s.signer.current_account ≡ some a
        → parse_sltn s.form.amount ≡ ok (pos units)
        → length (full_pin s.form.pin) ≡ 6
        → PinVerified codec packages.sha256 r s.form.pin s.signer
        → let s' = handle_pin_submit codec packages readers network r s in
          PaymentPosted s.form a units
            (nonce_at readers network a.address s.signer.trace)
            r.signed_at
            s.signer.trace
            (s'.signer.trace, tt)
          × (s'.form.is_loading ≡ false)
    unfolding handle_pin_submit check_pin execute_transaction
    confirmed_payment_is_posted r s units has_wallet has_account parsed six right =
        let done =
          submit_lem r s six right ∙ execute_lem r.signed_at _ w a has_wallet has_account in
        let (signature, verifies, (n, bound, posted)) =
          send_transaction-PaymentPosted r.signed_at s.form s.signer.trace units parsed in
        (
          subst
              (λ m.
                PaymentPosted s.form a units m r.signed_at s.signer.trace
                  ((handle_pin_submit codec packages readers network r s).signer.trace, tt))
              (nonce-get_nonce a.address s.signer.trace)
              (signature, verifies, (n, bound, ap (λ (s : Sending). s.signer.trace) done ∙ posted)),
          ap (λ (s : Sending). s.form.is_loading) done ∙ executed_lem _ _,
        )
