-- ===== src/Storage/Vault/Endings.antt =====
-- How a call of `loadWallet` can end, and what each way guarantees.
use xv.Prelude.{
  ◌∷◌, ◌∙◌, sym, if◌then◌else◌, ◌==◌, ◌+◌, ◌<◌, [], ℕ, ◌≡◌, ◌⊎◌, inl, inr, refl, ap, Option, none,
  some, Bool, Bool-cases, Option-cases, true, false, arith, length,
}
use xv.Prelude.Text.{Text, text_eq_iff}
use xv.Prelude.Result.{Result, ok, err}
use xv.Platform.{TextCodec, Base64, WebCrypto}
use xv.Storage.Vault.{
  read_mnemonic, checksum, verified, no_wallet, read_failed, wrong_pin, try_wallet, database_failed,
  too_many_attempts, StorageError, load_wallet, EncryptedJson, Store, StoredWallet, Database,
  unavailable, request_fails, works, wallet_locked, invalid_pin,
}
use xv.Security.Lockout.{clear_failed_attempts, absent, is_locked_out, record_failed_attempt}
use xv.Security.Limits.{lockout_duration_ms}
use xv.Prelude.Optional.{◌>>=◌}
use xv.Security.Lockout.Enforced.{locked_for_the_duration}

abbrev failed : StorageError → Result StorageError Text
failed e = err e

either_error :
    (b : Bool) (x y : StorageError) → (e : StorageError) × ((if b then err x else err y) ≡ failed e)
either_error true x y = (x, refl)
either_error false x y = (y, refl)

locked_of_error :
    (b : Bool) (left : ℕ)
    → (if b then err wallet_locked else err (invalid_pin left)) ≡ failed wallet_locked
    → b ≡ true
locked_of_error true left h = refl
locked_of_error false left h = ground (arith, h)

accepted_cases :
    (a b : Bool) (text m : Text)
    → (if a then some text else if b then some text else none) ≡ some m
    → (text ≡ m) × ((a ≡ true) ⊎ (b ≡ true))
accepted_cases true b text m h = (cc h, inl refl)
accepted_cases false true text m h = (cc h, inr refl)
accepted_cases false false text m h = absurd (ground (arith, h))

empty_of_length : (t : Text) → (length t == 0) ≡ true → t ≡ []
empty_of_length [] h = refl
empty_of_length (c ∷ t) h = ground (arith, h)

of_bind :
    (o : Option Text) (f : Text → Option Text) (m : Text)
    → o >>= f ≡ some m
    → (x : Text) × (o ≡ some x) × (f x ≡ some m)
of_bind none f m h = absurd (ground (arith, h))
of_bind (some x) f m h = (x, refl, h)

module _ (codec : TextCodec) (base64 : Base64) (json : EncryptedJson) (crypto : WebCrypto) where
  data Ending (now : ℕ) (clock : ℕ × ℕ × ℕ) (pin : Text) (s : Store)
      : Store × Result StorageError Text → Type 0 where
    locked_out :
        is_locked_out now s.lockout ≡ true → Ending now clock pin s (s, err too_many_attempts)
    not_opened : Ending now clock pin s (s, err database_failed)
    not_read : Ending now clock pin s (s, err read_failed)
    not_there : Ending now clock pin s (s, err no_wallet)
    wrong : Ending now clock pin s (wrong_pin codec base64 json crypto clock.0 clock.1 clock.2 s)
    opened :
        is_locked_out now s.lockout ≡ false
        → (w : StoredWallet) (m : Text) → s.wallet ≡ some w
        → try_wallet codec base64 json crypto pin w ≡ some m
        → Ending now clock pin s (record s { lockout = absent }, ok m)

  load_wallet-Ending :
      (database : Database) (now : ℕ) (clock : ℕ × ℕ × ℕ) (pin : Text) (s : Store)
      → Ending now clock pin s (load_wallet codec base64 json crypto database now clock pin s)
  unfolding load_wallet clear_failed_attempts
  load_wallet-Ending database now clock pin s = elim (Bool-cases (is_locked_out now s.lockout)) [
    | inl out ↦ rw out (locked_out out)
    | inr free ↦ rw free (reached database free)
  ]
    where
      tried :
          (w : StoredWallet)
          → is_locked_out now s.lockout ≡ false
          → s.wallet ≡ some w
          → Ending now clock pin s (elim (try_wallet codec base64 json crypto pin w) [
            | some m ↦ (record s { lockout = absent }, ok m)
            | none ↦ wrong_pin codec base64 json crypto clock.0 clock.1 clock.2 s
          ])
      tried w free e = elim (Option-cases (try_wallet codec base64 json crypto pin w)) [
        | inl missing ↦ rw missing wrong
        | inr (m, found) ↦ rw found (opened free w m e found)
      ]

      read :
          (o : Option StoredWallet)
          → is_locked_out now s.lockout ≡ false
          → s.wallet ≡ o
          → Ending now clock pin s (elim o [
            | none ↦ (s, err no_wallet)
            | some w ↦ elim (try_wallet codec base64 json crypto pin w) [
              | some m ↦ (record s { lockout = absent }, ok m)
              | none ↦ wrong_pin codec base64 json crypto clock.0 clock.1 clock.2 s
            ]
          ])
      read none free e = not_there
      read (some w) free e = tried w free e

      reached :
          (d : Database)
          → is_locked_out now s.lockout ≡ false
          → Ending now clock pin s (elim d [
            | unavailable ↦ (s, err database_failed)
            | request_fails ↦ (s, err read_failed)
            | works ↦ elim s.wallet [
              | none ↦ (s, err no_wallet)
              | some w ↦ elim (try_wallet codec base64 json crypto pin w) [
                | some m ↦ (record s { lockout = absent }, ok m)
                | none ↦ wrong_pin codec base64 json crypto clock.0 clock.1 clock.2 s
              ]
            ]
          ])
      reached unavailable free = not_opened
      reached request_fails free = not_read
      reached works free = read s.wallet free refl

  wrong_pin-error :
      (t0 t1 t2 : ℕ) (s : Store)
      → (e : StorageError) × ((wrong_pin codec base64 json crypto t0 t1 t2 s).1 ≡ err e)
  unfolding wrong_pin
  wrong_pin-error t0 t1 t2 s = either_error (record_failed_attempt t0 t1 t2 s.lockout).1.locked _ _

  verified-checksum :
      (w : StoredWallet) (text m : Text)
      → verified codec base64 json crypto w text ≡ some m
      → (text ≡ m)
        × ((w.mnemonic_checksum ≡ []) ⊎ (w.mnemonic_checksum ≡ checksum codec base64 json crypto m))
  unfolding verified
  verified-checksum w text m h =
      let (same, passed) = accepted_cases (length w.mnemonic_checksum == 0) _ text m h in
      (
        same,
        elim passed [
          | inl none_stored ↦ inl (empty_of_length w.mnemonic_checksum none_stored)
          | inr equal ↦
              inr (sym ((text_eq_iff _ _).0 equal) ∙ ap (checksum codec base64 json crypto) same)
        ],
      )

  try_wallet-checksum :
      (pin : Text) (w : StoredWallet) (m : Text)
      → try_wallet codec base64 json crypto pin w ≡ some m
      → (w.mnemonic_checksum ≡ []) ⊎ (w.mnemonic_checksum ≡ checksum codec base64 json crypto m)
  unfolding try_wallet
  try_wallet-checksum pin w m h =
      let (text, _, passed) = of_bind (read_mnemonic codec base64 json crypto pin w) _ m h in
      (verified-checksum w text m passed).1

  ok-Ending :
      (now : ℕ) (clock : ℕ × ℕ × ℕ) (pin m : Text) (s : Store)
      (r : Store × Result StorageError Text)
      → Ending now clock pin s r
      → r.1 ≡ ok m
      → (is_locked_out now s.lockout ≡ false)
        × (r.0 ≡ record s { lockout = absent })
        × ((w : StoredWallet) × (s.wallet ≡ some w)
            × ((w.mnemonic_checksum ≡ [])
                ⊎ (w.mnemonic_checksum ≡ checksum codec base64 json crypto m)))
  ok-Ending now clock pin m s _ (locked_out l) h = ground (arith, h)
  ok-Ending now clock pin m s _ not_opened h = ground (arith, h)
  ok-Ending now clock pin m s _ not_read h = ground (arith, h)
  ok-Ending now clock pin m s _ not_there h = ground (arith, h)
  ok-Ending now clock pin m s _ wrong h =
      let (e, q) = wrong_pin-error clock.0 clock.1 clock.2 s in ground (arith, h, q)
  ok-Ending now clock pin m s _ (opened free w n found tried) h =
      (free, refl, (w, found, try_wallet-checksum pin w m (cc (tried, h))))

  -- A load that gives a mnemonic had the lockout's leave and found a wallet whose checksum, where it
  -- has one, is the mnemonic's; it forgets the failed attempts and leaves the wallet.
  pub loaded_mnemonic_is_checked :
      (database : Database) (now : ℕ) (clock : ℕ × ℕ × ℕ) (pin m : Text) (s : Store)
      → (load_wallet codec base64 json crypto database now clock pin s).1 ≡ ok m
      → (is_locked_out now s.lockout ≡ false)
        × ((load_wallet codec base64 json crypto database now clock pin s).0
            ≡ record s { lockout = absent })
        × ((w : StoredWallet) × (s.wallet ≡ some w)
            × ((w.mnemonic_checksum ≡ [])
                ⊎ (w.mnemonic_checksum ≡ checksum codec base64 json crypto m)))
  loaded_mnemonic_is_checked database now clock pin m s h =
      ok-Ending now clock pin m s _ (load_wallet-Ending database now clock pin s) h

  refused_while_locked :
      (database : Database) (now : ℕ) (clock : ℕ × ℕ × ℕ) (pin : Text) (s : Store)
      → is_locked_out now s.lockout ≡ true
      → load_wallet codec base64 json crypto database now clock pin s ≡ (s, err too_many_attempts)
  unfolding load_wallet
  refused_while_locked database now clock pin s h = rw h refl

  locked-Ending :
      (now : ℕ) (clock : ℕ × ℕ × ℕ) (pin : Text) (s : Store) (later : ℕ)
      (r : Store × Result StorageError Text)
      → Ending now clock pin s r
      → r.1 ≡ err wallet_locked
      → later < clock.2 + lockout_duration_ms
      → is_locked_out later r.0.lockout ≡ true
  unfolding wrong_pin
  locked-Ending now clock pin s later _ (locked_out l) h soon = ground (arith, h)
  locked-Ending now clock pin s later _ not_opened h soon = ground (arith, h)
  locked-Ending now clock pin s later _ not_read h soon = ground (arith, h)
  locked-Ending now clock pin s later _ not_there h soon = ground (arith, h)
  locked-Ending now clock pin s later _ wrong h soon =
      let reply = record_failed_attempt clock.0 clock.1 clock.2 s.lockout in
      let locked = locked_of_error reply.1.locked _ h in
      locked_for_the_duration clock.0 clock.1 clock.2 later s.lockout locked ∙ ground (arith, soon)
  locked-Ending now clock pin s later _ (opened free w n found tried) h soon = ground (arith, h)

  -- After a load that reports the lockout, every load before the lockout duration has passed is
  -- refused, with whatever PIN, and changes nothing.
  pub locked_loads_are_refused :
      (first database : Database) (now : ℕ) (clock : ℕ × ℕ × ℕ) (pin : Text) (s : Store)
      → (load_wallet codec base64 json crypto first now clock pin s).1 ≡ err wallet_locked
      → (later : ℕ) (clock' : ℕ × ℕ × ℕ) (guess : Text) → later < clock.2 + lockout_duration_ms
      → load_wallet codec base64 json crypto database later clock' guess
          (load_wallet codec base64 json crypto first now clock pin s).0
        ≡ ((load_wallet codec base64 json crypto first now clock pin s).0, err too_many_attempts)
  locked_loads_are_refused first database now clock pin s h later clock' guess soon =
      refused_while_locked database later clock' guess _
        (locked-Ending now clock pin s later _ (load_wallet-Ending first now clock pin s) h soon)
