-- ===== src/Hook/Tests.antt =====
-- Examples for the hook.
use xv.Prelude.{◌⊎◌, ℕ, ◌≡◌, refl, ◌+◌, ◌∷◌, [], none, some, true, false, arith, replicate}
use xv.Prelude.Text.{codes}
use xv.Platform.Samples.{one_byte, plain_base64, tagging}
use xv.Security.Lockout.{
  is_locked_out, record_failed_attempt, get_lockout_remaining, LockoutState, saved,
}
use xv.Storage.Memory.{empty, get_session_pin}
use xv.Storage.Vault.{load_wallet, has_wallet, StoredWallet, Store, works, try_wallet}
use xv.Storage.Vault.Samples.{lengths}
use xv.Wallet.Accounts.Samples.{toy_packages, first_account}
use xv.Hook.{
  too_many_failed_attempts, App, Inputs, initial_state, closed_state, attempts_left, check_wallet,
  unlock,
}
use xv.Hook.Actions.{unlocks, act, account_derived}
use xv.Hook.Locked.{Reachable, mounted, acted, locked_app_is_empty}
use xv.Hook.Attempts.{wrong_pin_costs_two_attempts}

-- A stored wallet that no PIN opens.
abbrev damaged : StoredWallet
damaged = record {
  encrypted_mnemonic = [];
  mnemonic_checksum = [];
  accounts = [];
  created_at = 1;
  updated_at = 1;
  version = 1;
  security_version = 2;
}

abbrev tried : ℕ → LockoutState
tried n = record { attempts = n; last_attempt = 1000; locked_until = 0 }

abbrev stored : ℕ → Store
stored n = record { wallet = some damaged; lockout = saved (tried n) }

abbrev calm : Inputs
calm = record { database = works; clock = λ k. 2000 + k; draw = λ k n. replicate n 0 }

abbrev shown_app : ℕ → App
shown_app n = record {
  ui = closed_state true initial_state;
  memory = empty;
  pin_hash = none;
  store = stored n;
}

third_wrong_pin_locks :
    (unlock one_byte plain_base64 lengths tagging toy_packages calm
      (codes "271828")
      (shown_app 4)).0.ui.error
    ≡ some (too_many_failed_attempts 300)
unfolding unlock is_locked_out load_wallet record_failed_attempt get_lockout_remaining
third_wrong_pin_locks = refl

wrong_pin_costs_two_attempts_example :
    unlock one_byte plain_base64 lengths tagging toy_packages calm (codes "271828") (shown_app 0)
    ≡ (
      record (shown_app 0) {
        store = record {
          wallet = some damaged;
          lockout = saved (record { attempts = 2; last_attempt = 2006; locked_until = 0 });
        };
        ui = record (closed_state true initial_state) { error = some (attempts_left 3) };
      },
      false,
    )
unfolding try_wallet
wrong_pin_costs_two_attempts_example =
    wrong_pin_costs_two_attempts one_byte plain_base64 lengths tagging toy_packages calm
      (codes "271828") (shown_app 0) damaged (tried 0) refl refl refl refl (λ k. omega arith)
      (omega arith) (omega arith) (omega arith) (omega arith)

-- The hook, mounted over the damaged wallet, after an attempt to open it.
abbrev attempted : App
attempted =
    (unlock one_byte plain_base64 lengths tagging toy_packages calm (codes "271828")
      (shown_app 0)).0

attempted-Reachable :
    Reachable one_byte plain_base64 lengths tagging toy_packages [] false attempted
unfolding act check_wallet get_session_pin has_wallet
attempted-Reachable =
    acted [] false calm (unlocks (codes "271828")) (shown_app 0) attempted
      (mounted calm (stored 0) (shown_app 0) refl) refl

attempted_is_locked : attempted.ui.is_locked ≡ true
unfolding unlock is_locked_out load_wallet record_failed_attempt
attempted_is_locked = refl

locked_app_is_empty_example :
    (attempted.ui.wallet ≡ none)
    × ((false ≡ true) ⊎ (attempted.ui.accounts ≡ []))
    × (get_session_pin one_byte attempted.memory ≡ none)
locked_app_is_empty_example =
    locked_app_is_empty one_byte plain_base64 lengths tagging toy_packages [] false attempted
      attempted-Reachable attempted_is_locked

-- A derivation that ends on a locked screen leaves an account there.
abbrev late_app : App
late_app = account_derived first_account attempted

account_on_locked_screen :
    (late_app.ui.is_locked ≡ true) × (late_app.ui.accounts ≡ first_account ∷ [])
unfolding account_derived unlock is_locked_out load_wallet record_failed_attempt
account_on_locked_screen = (refl, refl)
