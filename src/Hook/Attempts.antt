-- ===== src/Hook/Attempts.antt =====
-- What a wrong PIN costs.
use xv.Prelude.{
  Bool, ◌∙◌, sym, subst, ap, ◌≡◌, ◌≤◌, ◌<◌, ◌+◌, ◌-◌, refl, false, arith, none, some, Option, ℕ,
}
use xv.Prelude.Text.{Text}
use xv.Platform.{TextCodec, Base64, WebCrypto}
use xv.Security.Limits.{max_pin_attempts, lockout_duration_ms}
use xv.Security.Lockout.{LockoutState, saved, is_locked_out, record_failed_attempt}
use xv.Storage.Vault.{
  StorageError, invalid_pin, Store, EncryptedJson, StoredWallet, works, try_wallet, load_wallet,
  wrong_pin,
}
use xv.Wallet.Accounts.{Packages}
use xv.Hook.{storage_error, App, Inputs, attempts_left, unlock, unlock_failed, try_unlock}
use xv.Prelude.Result.{Result, err}

abbrev counted : ℕ → ℕ → LockoutState → LockoutState
counted n now st = record {
  attempts = st.attempts + n;
  last_attempt = now;
  locked_until = st.locked_until;
}

-- A failed attempt within the lockout duration after the one before it, below the limit.
record_failed_attempt-counts :
    (now0 now1 now2 : ℕ) (st : LockoutState)
    → now0 ≤ st.last_attempt + lockout_duration_ms
    → st.attempts + 1 < max_pin_attempts
    → record_failed_attempt now0 now1 now2 (saved st) ≡ (
      saved (counted 1 now1 st),
      record { locked = false; attempts_remaining = max_pin_attempts - (st.attempts + 1) },
    )
unfolding record_failed_attempt
record_failed_attempt-counts now0 now1 now2 st h k = ground (arith, h, k)

-- A lockout that is over does not lock.
lockout_over :
    (now : ℕ) (st : LockoutState) → st.locked_until ≤ now → is_locked_out now (saved st) ≡ false
unfolding is_locked_out
lockout_over now st h = ground (arith, h)

module _ (codec : TextCodec) (base64 : Base64) (json : EncryptedJson) (crypto : WebCrypto)
    (packages : Packages) where
  load_wallet-wrong :
      (now now0 now1 now2 : ℕ) (pin : Text) (s : Store) (w : StoredWallet) (st : LockoutState)
      → s.wallet ≡ some w
      → s.lockout ≡ saved st
      → try_wallet codec base64 json crypto pin w ≡ none
      → st.locked_until ≤ now
      → now0 ≤ st.last_attempt + lockout_duration_ms
      → st.attempts + 1 < max_pin_attempts
      → load_wallet codec base64 json crypto works now (now0, now1, now2) pin s ≡ (
        record s { lockout = saved (counted 1 now1 st) },
        err (invalid_pin (max_pin_attempts - (st.attempts + 1))),
      )
  unfolding load_wallet
  load_wallet-wrong now now0 now1 now2 pin s w st hw hl wrong over recent few =
      rw
        (
          hl,
          lockout_over now st over,
          hw,
          wrong,
          wrong_pin,
          hl,
          record_failed_attempt-counts now0 now1 now2 st recent few,
        )
        (ap
          (λ (o : Option StoredWallet). (
            record s { wallet = o; lockout = saved (counted 1 now1 st) },
            err (invalid_pin (max_pin_attempts - (st.attempts + 1))),
          ))
          hw)

  unlock_failed-counts :
      (i : Inputs) (a : App) (st : LockoutState)
      → a.store.lockout ≡ saved st
      → st.locked_until ≤ i.clock 8
      → i.clock 5 ≤ st.last_attempt + lockout_duration_ms
      → st.attempts + 1 < max_pin_attempts
      → unlock_failed codec base64 json crypto packages i a ≡ record a {
        store = record a.store { lockout = saved (counted 1 (i.clock 6) st) };
        ui = record a.ui { error = some (attempts_left (max_pin_attempts - (st.attempts + 1))) };
      }
  unfolding unlock_failed
  unlock_failed-counts i a st hl over recent few =
      rw
        (
          hl,
          record_failed_attempt-counts (i.clock 5) (i.clock 6) (i.clock 7) st recent few,
          lockout_over (i.clock 8) (counted 1 (i.clock 6) st) over,
        )
        refl

  try_unlock-wrong :
      (i : Inputs) (pin : Text) (a : App) (s : Store) (e : StorageError)
      → load_wallet codec base64 json crypto i.database
          (i.clock 1)
          (i.clock 2, i.clock 3, i.clock 4)
          pin
          a.store
        ≡ (s, err e)
      → try_unlock codec base64 json crypto packages i pin a
        ≡ (record a { store = s }, err (storage_error e))
  unfolding try_unlock
  try_unlock-wrong i pin a s e h =
      rw (h, try_unlock)
        (ap
          (λ (x : Store × Result StorageError Text).
            (record a { store = x.0 }, err (storage_error e)))
          h)

  unlock-wrong :
      (i : Inputs) (pin : Text) (a : App) (s : Store) (e : StorageError)
      → is_locked_out (i.clock 0) a.store.lockout ≡ false
      → load_wallet codec base64 json crypto i.database
          (i.clock 1)
          (i.clock 2, i.clock 3, i.clock 4)
          pin
          a.store
        ≡ (s, err e)
      → unlock codec base64 json crypto packages i pin a
        ≡ (unlock_failed codec base64 json crypto packages i (record a { store = s }), false)
  unfolding unlock
  unlock-wrong i pin a s e unlocked h =
      rw (unlocked, try_unlock-wrong i pin a s e h)
        (ap (λ x. (unlock_failed codec base64 json crypto packages i x.0, false))
          (try_unlock-wrong i pin a s e h))

  -- What a failed attempt leaves and shows when `n` attempts are counted.
  abbrev shown : Inputs → App → LockoutState → ℕ → App × Bool
  shown i a st n = (
    record a {
      store = record a.store {
        lockout =
            saved
              (record { attempts = n; last_attempt = i.clock 6; locked_until = st.locked_until });
      };
      ui = record a.ui { error = some (attempts_left (max_pin_attempts - n)) };
    },
    false,
  )

  two_counted : (n : ℕ) → n + 1 + 1 ≡ n + 2
  two_counted n = omega arith

  -- With a stored wallet that the PIN does not open, no lockout, and few attempts, the last of them not
  -- long ago, unlocking fails and counts two attempts, of which the message takes both away.
  pub wrong_pin_costs_two_attempts :
      (i : Inputs) (pin : Text) (a : App) (w : StoredWallet) (st : LockoutState)
      → i.database ≡ works
      → a.store.wallet ≡ some w
      → a.store.lockout ≡ saved st
      → try_wallet codec base64 json crypto pin w ≡ none
      → ((k : ℕ) → i.clock k ≤ i.clock (k + 1))
      → st.locked_until ≤ i.clock 0
      → i.clock 2 ≤ st.last_attempt + lockout_duration_ms
      → i.clock 5 ≤ i.clock 3 + lockout_duration_ms
      → st.attempts + 2 < max_pin_attempts
      → unlock codec base64 json crypto packages i pin a ≡ (
        record a {
          store = record a.store {
            lockout = saved (record {
              attempts = st.attempts + 2;
              last_attempt = i.clock 6;
              locked_until = st.locked_until;
            });
          };
          ui = record a.ui { error = some (attempts_left (max_pin_attempts - (st.attempts + 2))) };
        },
        false,
      )
  unfolding unlock
  wrong_pin_costs_two_attempts i pin a w st hd hw hl wrong mono h0 h2 h5 few =
      let loaded = record a {
        store = record a.store { lockout = saved (counted 1 (i.clock 3) st) };
      } in
      let by_load =
        load_wallet-wrong (i.clock 1) (i.clock 2) (i.clock 3) (i.clock 4) pin a.store w st hw hl
          wrong (omega (arith, h0, mono 0)) h2 (omega (arith, few)) in
      let by_catch =
        unlock_failed-counts i loaded (counted 1 (i.clock 3) st) refl
          (omega (arith, h0, mono 0, mono 1, mono 2, mono 3, mono 4, mono 5, mono 6, mono 7)) h5
          (omega (arith, few)) in
      unlock-wrong i pin a loaded.store _
        (subst (λ e. is_locked_out (i.clock 0) e ≡ false) (sym hl) (lockout_over (i.clock 0) st h0))
        (subst
          (λ d.
            load_wallet codec base64 json crypto d (i.clock 1) (i.clock 2, i.clock 3, i.clock 4) pin
              a.store
            ≡ (loaded.store, err (invalid_pin (max_pin_attempts - (st.attempts + 1)))))
          (sym hd) by_load)
      ∙ ap (λ b. (b, false)) by_catch
      ∙ ap (shown i a st) (two_counted st.attempts)
