-- ===== src/Hook/Actions.antt =====
-- The actions of useWallet.tsx on a mounted hook that are no login: locking, deleting, the
-- interval of the session, accounts and errors; and all actions as one, which takes effect where
-- its awaits are over, but for a derivation, in two parts.
use xv.Prelude.{
  ◌&&◌, not, ◌+◌, Option, none, some, [], ◌∷◌, ◌++◌, Bool, true, false, ℕ, length, if◌then◌else◌,
}
use xv.Prelude.Text.{Text}
use xv.Prelude.Result.{Result, ok, err}
use xv.Platform.{TextCodec, Base64, WebCrypto}
use xv.Security.Lockout.{is_locked_out, get_lockout_remaining, clear_failed_attempts}
use xv.Security.Session.{end_session, record_activity, check_session_timeout}
use xv.Storage.Memory.{clear_session}
use xv.Storage.Vault.{EncryptedJson}
use xv.Storage.Deleting.{delete_wallet}
use xv.Wallet.Accounts.{SultanAccount, Packages, derive_account, destroy_wallet}
use xv.Hook.{
  HookError, wallet_error, storage_error, session_expired, not_open, WalletState, App, Inputs,
  initial_state, show_error, import_wallet, create_wallet, unlock,
}

-- state.wallet?.destroy(): whether it succeeds; the hook drops the wallet after it.
unfoldable pub destroy_shown : Inputs → WalletState → Bool
destroy_shown i s = elim s.wallet [
  | none ↦ true
  | some w ↦ elim w.secure_mnemonic [
    | none ↦ true
    | some m ↦ elim (destroy_wallet (i.draw 10 (length m.masked)) (i.draw 11 (length m.key)) w) [
      | none ↦ false
      | some v ↦ true
    ]
  ]
]

abbrev pub lock_state : WalletState → WalletState
lock_state s = record s { is_locked = true; wallet = none; accounts = [] }

-- `none` is a throw of the wiping, here and below.
unfoldable pub lock : Inputs → App → Option App
unfolding destroy_shown
lock i a =
    if destroy_shown i a.ui
    then elim (clear_session i.draw a.memory) [
      | none ↦ none
      | some m ↦ some (record a {
        memory = record m { session = end_session m.session };
        pin_hash = none;
        ui = lock_state a.ui;
      })
    ]
    else none

-- The interval's function, which the hook has set while the wallet is open.
unfoldable pub on_interval : Inputs → App → Option App
unfolding destroy_shown
on_interval i a = elim a.ui.wallet [
  | none ↦ some a
  | some w ↦
      if not a.ui.is_locked && check_session_timeout (i.clock 0) a.memory.session
      then if destroy_shown i a.ui
        then elim (clear_session i.draw a.memory) [
          | none ↦ none
          | some m ↦ some (record a {
            memory = record m { session = end_session m.session };
            ui = record (lock_state a.ui) { error = some session_expired };
          })
        ]
        else none
      else some a
]

-- The listener of mouse, keys and scrolling, which does nothing when the wallet is not open.
unfoldable pub on_activity : Inputs → App → App
on_activity i a = elim a.ui.wallet [
  | none ↦ a
  | some w ↦ if a.ui.is_locked then a else record a {
    memory = record a.memory { session = record_activity (i.clock 0) (i.clock 1) a.memory.session };
  }
]

-- `updateLockout`, when an error has changed and the wallet is locked out.
unfoldable pub update_lockout : Inputs → App → App
update_lockout i a =
    if is_locked_out (i.clock 0) a.store.lockout
    then record a {
      ui = record a.ui {
        lockout_remaining_seconds = get_lockout_remaining (i.clock 1) a.store.lockout;
      };
    }
    else a

unfoldable pub delete_wallet_data : Inputs → App → Option (App × Result {0, 0} HookError Unit)
unfolding destroy_shown
delete_wallet_data i a = elim (delete_wallet i.draw i.database a.memory a.store) [
  | none ↦ none
  | some (m, (s, r)) ↦
      let deleted = record a { memory = m; store = s } in
      elim r [
        | err e ↦ some (show_error (storage_error e) deleted, err (storage_error e))
        | ok _ ↦
            elim (clear_session (λ k. i.draw (4 + k))
              (record m { session = end_session m.session })) [
                | none ↦ none
                | some m' ↦
                    if destroy_shown i a.ui
                    then some (
                      record {
                        ui = record initial_state { is_loading = false };
                        memory = m';
                        pin_hash = none;
                        store = record s { lockout = clear_failed_attempts s.lockout };
                      },
                      ok tt,
                    )
                    else none
              ]
      ]
]

unfoldable pub set_active_account : ℕ → App → App
set_active_account index a = record a { ui = record a.ui { active_account_index = index } }

unfoldable pub clear_error : App → App
clear_error a = record a { ui = record a.ui { error = none } }

-- The end of `deriveNewAccount`, after its await: the account is added to those of the state as it
-- is then.
unfoldable pub account_derived : SultanAccount → App → App
account_derived account a = record a {
  ui = record a.ui { accounts = a.ui.accounts ++ (account ∷ []) };
}

module _ (codec : TextCodec) (packages : Packages) where
  -- `deriveNewAccount` up to its await: the keys are derived of the wallet that is there, and the
  -- account is on its way. The wallet's own list, which the hook does not read meanwhile, has it
  -- from here on.
  unfoldable pub derive_new_account : Option Text → App → App × Result HookError SultanAccount
  unfolding derive_account
  derive_new_account name a = elim a.ui.wallet [
    | none ↦ (a, err not_open)
    | some w ↦
        let (w', r) = derive_account codec packages (length a.ui.accounts) name w in
        (
          record a { ui = record a.ui { wallet = some w' } },
          elim r [ err e ↦ err (wallet_error e) | ok account ↦ ok account ],
        )
  ]

-- What the screens and the browser call, but for the derivation of an account, which has two parts.
pub data Action : Type 0 where
  creates imports : Text → Text → Action
  unlocks : Text → Action
  locks deletes ticks moves refreshes clears : Action
  selects : ℕ → Action

module _ (codec : TextCodec) (base64 : Base64) (json : EncryptedJson) (crypto : WebCrypto)
    (packages : Packages) where
  unfoldable pub act : Inputs → Action → App → Option App
  unfolding create_wallet import_wallet unlock lock on_interval on_activity update_lockout
      delete_wallet_data set_active_account clear_error
  act i (creates generated pin) a =
      some (create_wallet codec base64 json crypto packages i generated pin a).0
  act i (imports mnemonic pin) a =
      some (import_wallet codec base64 json crypto packages i mnemonic pin a).0
  act i (unlocks pin) a = some (unlock codec base64 json crypto packages i pin a).0
  act i locks a = lock i a
  act i deletes a = elim (delete_wallet_data i a) [ none ↦ none | some (b, r) ↦ some b ]
  act i ticks a = on_interval i a
  act i moves a = some (on_activity i a)
  act i refreshes a = some (update_lockout i a)
  act i clears a = some (clear_error a)
  act i (selects index) a = some (set_active_account index a)
