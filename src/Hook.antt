-- ===== src/Hook.antt =====
-- The hook of wallet-extension/src/hooks/useWallet.tsx: the state that the screens show, over the memory
-- of the session, the stored wallet and the lockout. Each action takes effect where its awaits are over,
-- but for the derivation of an account, which has two parts.
-- What an action reads from outside, the database, the clock and random bytes, is its `Inputs`; the
-- reads are numbered in the order of the calls. The functions that `startSession` is given are known by
-- numbers: they run between the actions, destroy the wallet and clear the session, and that is not
-- part of the actions here.
pub mod Actions
pub mod Attempts
pub mod Locked
mod Tests
use xv.Prelude.{
  ◌==◌, not, ◌&&◌, ◌+◌, Option, none, some, List, [], Bool, true, false, ℕ, length, if◌then◌else◌,
}
use xv.Prelude.Text.{Text, Bytes}
use xv.Prelude.Result.{Result, ok, err}
use xv.Platform.{TextCodec, Base64, WebCrypto}
use xv.Security.Pin.{PinError, validate_pin}
use xv.Security.Lockout.{
  is_locked_out, get_lockout_remaining, record_failed_attempt, clear_failed_attempts,
}
use xv.Security.SessionPin.{hash_pin_for_verification}
use xv.Security.Session.{start_session}
use xv.Storage.Memory.{Memory, set_session_pin, clear_session, get_session_pin}
use xv.Storage.Vault.{
  EncryptedJson, Database, Store, StorageError, save_wallet, load_wallet, has_wallet,
}
use xv.Wallet.Accounts.{
  SultanWallet, SultanAccount, WalletError, Packages, from_mnemonic, get_accounts,
}

-- The message of an error that the screens show.
pub data HookError : Type 0 where
  pin_error : PinError → HookError
  wallet_error : WalletError → HookError
  storage_error : StorageError → HookError
  too_many_failed_attempts attempts_left : ℕ → HookError
  session_expired wiping_failed not_open : HookError

pub record WalletState : Type 0 where
  pub is_loading : Bool
  pub is_initialized : Bool
  pub is_locked : Bool
  pub wallet : Option SultanWallet
  pub accounts : List SultanAccount
  pub active_account_index : ℕ
  pub error : Option HookError
  pub lockout_remaining_seconds : ℕ

-- The hook's state, the session's secrets, the hash of the PIN for transactions, and what is stored.
pub record App : Type 0 where
  pub ui : WalletState
  pub memory : Memory
  pub pin_hash : Option Text
  pub store : Store

pub record Inputs : Type 0 where
  pub database : Database
  pub clock : ℕ → ℕ
  pub draw : ℕ → ℕ → Bytes

-- The state at the start.
abbrev pub initial_state : WalletState
initial_state = record {
  is_loading = true;
  is_initialized = false;
  is_locked = true;
  wallet = none;
  accounts = [];
  active_account_index = 0;
  error = none;
  lockout_remaining_seconds = 0;
}

-- The state with a new wallet, or with a restored one.
abbrev pub open_state : SultanWallet → WalletState
open_state w = record {
  is_loading = false;
  is_initialized = true;
  is_locked = false;
  wallet = some w;
  accounts = get_accounts w;
  active_account_index = 0;
  error = none;
  lockout_remaining_seconds = 0;
}

-- The state without a wallet in memory.
abbrev pub closed_state : Bool → WalletState → WalletState
closed_state exists s = record s { is_loading = false; is_initialized = exists; is_locked = true }

abbrev pub show_error : HookError → App → App
show_error e a = record a { ui = record a.ui { error = some e } }

-- The timers' callbacks that `startSession` is given; the one of `unlock` clears the hash too.
abbrev pub on_expire_new : ℕ
on_expire_new = 1

abbrev pub on_expire_unlocked : ℕ
on_expire_unlocked = 2

module _ (codec : TextCodec) (base64 : Base64) (json : EncryptedJson) (crypto : WebCrypto)
    (packages : Packages) where
  -- SultanWallet.fromMnemonic(mnemonic)
  abbrev pub wallet_of : Inputs → Text → Result WalletError SultanWallet
  wallet_of i mnemonic =
      from_mnemonic codec packages (i.draw 0 (length (codec.encode mnemonic))) [] mnemonic none

  -- setSessionPin(pin), then startSession(callback)
  unfoldable pub begin_session : Inputs → ℕ → Text → Memory → Option Memory
  begin_session i on_expire pin m =
      elim (set_session_pin codec (λ k. i.draw (1 + k)) (i.draw 5 (length (codec.encode pin))) pin
        m) [
          | none ↦ none
          | some m' ↦ some (record m' {
            session = start_session (i.clock 2) (i.clock 3) (i.draw 6 32) on_expire m'.session;
          })
        ]

  -- `importWallet`. `createWallet` is the same with a generated mnemonic.
  unfoldable pub import_wallet : Inputs → Text → Text → App → App × Result {0, 0} HookError Unit
  unfolding begin_session
  import_wallet i mnemonic pin a = elim (validate_pin pin) [
    | some e ↦ (show_error (pin_error e) a, err (pin_error e))
    | none ↦ elim (wallet_of i mnemonic) [
      | err e ↦ (show_error (wallet_error e) a, err (wallet_error e))
      | ok w ↦
          let (s, r) =
            save_wallet codec base64 json crypto i.database (i.draw 7 32) (i.draw 8 12) (i.clock 0)
              (i.clock 1) mnemonic pin a.store in
          let kept = record a { store = s } in
          elim r [
            | err e ↦ (show_error (storage_error e) kept, err (storage_error e))
            | ok _ ↦ elim (begin_session i on_expire_new pin a.memory) [
              | none ↦ (show_error wiping_failed kept, err wiping_failed)
              | some m ↦ (record kept { memory = m; ui = open_state w }, ok tt)
            ]
          ]
    ]
  ]

  unfoldable pub create_wallet : Inputs → Text → Text → App → App × Result HookError Text
  unfolding import_wallet
  create_wallet i generated pin a =
      let (a', r) = import_wallet i generated pin a in
      (a', elim r [ err e ↦ err e | ok _ ↦ ok generated ])

  -- The try block of `unlock`, without the change of the hook's state.
  unfoldable pub try_unlock : Inputs → Text → App → App × Result HookError SultanWallet
  unfolding begin_session
  try_unlock i pin a =
      let (s, r) =
        load_wallet codec base64 json crypto i.database (i.clock 1)
          (i.clock 2, i.clock 3, i.clock 4) pin a.store in
      let loaded = record a { store = s } in
      elim r [
        | err e ↦ (loaded, err (storage_error e))
        | ok mnemonic ↦ elim (wallet_of i mnemonic) [
          | err e ↦ (loaded, err (wallet_error e))
          | ok w ↦
              let cleared = record a {
                store = record s { lockout = clear_failed_attempts s.lockout };
              } in
              elim (begin_session i on_expire_unlocked pin a.memory) [
                | none ↦ (cleared, err wiping_failed)
                | some m ↦ (
                  record cleared {
                    memory = m;
                    pin_hash = some (hash_pin_for_verification codec packages.sha256 pin);
                  },
                  ok w,
                )
              ]
        ]
      ]

  -- The catch block of `unlock`.
  unfoldable pub unlock_failed : Inputs → App → App
  unlock_failed i a =
      let (e, reply) = record_failed_attempt (i.clock 5) (i.clock 6) (i.clock 7) a.store.lockout in
      let remaining = get_lockout_remaining (i.clock 9) e in
      let counted = record a { store = record a.store { lockout = e } } in
      if is_locked_out (i.clock 8) e
      then record counted {
        ui = record a.ui {
          error = some (too_many_failed_attempts remaining);
          lockout_remaining_seconds = remaining;
        };
      }
      else show_error (attempts_left reply.attempts_remaining) counted

  -- Whether the wallet is open then.
  unfoldable pub unlock : Inputs → Text → App → App × Bool
  unfolding try_unlock unlock_failed
  unlock i pin a =
      let remaining = get_lockout_remaining (i.clock 1) a.store.lockout in
      if is_locked_out (i.clock 0) a.store.lockout
      then (
        record a {
          ui = record a.ui {
            error = some (too_many_failed_attempts remaining);
            lockout_remaining_seconds = remaining;
          };
        },
        false,
      )
      else let (a', r) = try_unlock i pin a in
        elim r [
          | err e ↦ (unlock_failed i a', false)
          | ok w ↦ (
            record a' {
              ui = record a.ui {
                is_locked = false;
                wallet = some w;
                accounts = get_accounts w;
                error = none;
                lockout_remaining_seconds = 0;
              };
            },
            true,
          )
        ]

  -- The part of `checkWallet` with a PIN in memory. `none` is a throw of the wiping.
  unfoldable pub restore_session : Inputs → Text → App → Option App
  restore_session i pin a =
      let (s, r) =
        load_wallet codec base64 json crypto i.database (i.clock 0)
          (i.clock 1, i.clock 2, i.clock 3) pin a.store in
      let cleared = elim (clear_session i.draw a.memory) as (λ _. Option App) [
        | none ↦ none
        | some m ↦ some (record a { store = s; memory = m; ui = closed_state true a.ui })
      ] in
      elim r [
        | err e ↦ cleared
        | ok mnemonic ↦ elim (wallet_of i mnemonic) [
          | err e ↦ cleared
          | ok w ↦ some (record a { store = s; ui = open_state w })
        ]
      ]

  -- `checkWallet`, when the hook is mounted.
  unfoldable pub check_wallet : Inputs → App → Option App
  unfolding restore_session
  check_wallet i a =
      let closed = record a { ui = closed_state (has_wallet i.database a.store) a.ui } in
      elim (get_session_pin codec a.memory) [
        | none ↦ some closed
        | some pin ↦
            if has_wallet i.database a.store && not (length pin == 0)
            then restore_session i pin a
            else some closed
      ]
