-- ===== src/Hook/Locked.antt =====
-- A locked wallet leaves nothing to show.
use xv.Prelude.{
  ◌⊎◌, inl, inr, Bool, false, List, ◌∷◌, ◌++◌, ◌||◌, ◌+◌, ℕ, subst, ◌≡◌, refl, true, arith, none,
  some, [], Option,
}
use xv.Prelude.Result.{Result, ok, err}
use xv.Platform.{TextCodec, Base64, WebCrypto}
use xv.Storage.Memory.{Memory, clear_session, empty, get_session_pin}
use xv.Storage.Vault.{StorageError, Database, EncryptedJson, Store}
use xv.Wallet.Accounts.{Packages, SultanAccount}
use xv.Hook.{HookError, unlock, import_wallet, App, Inputs, initial_state, check_wallet}
use xv.Hook.Actions.{
  creates, imports, unlocks, locks, deletes, ticks, moves, refreshes, clears, selects,
  account_derived, on_interval, derive_new_account, delete_wallet_data, lock, Action, act,
}
use xv.Prelude.Text.{Bytes, Text}
use xv.Storage.Deleting.{delete_wallet}

-- The hook before it is mounted, on a page that was just loaded.
abbrev pub before_mount : Store → App
before_mount s = record { ui = initial_state; memory = empty; pin_hash = none; store = s }

-- While it is locked there is no wallet and no PIN in memory; and no account, unless a derivation
-- ended late.
abbrev IsEmptyLocked : Bool → App → Type 0
IsEmptyLocked late a =
    a.ui.is_locked ≡ true
    → (a.ui.wallet ≡ none)
      × ((late ≡ true) ⊎ (a.ui.accounts ≡ []))
      × (a.memory.session_pin_secure ≡ none)

-- Clearing the session leaves no PIN.
clear_session-pin :
    (draw : ℕ → ℕ → Bytes) (m m' : Memory)
    → clear_session draw m ≡ some m'
    → m'.session_pin_secure ≡ none
unfolding clear_session
clear_session-pin draw m m' e = grind (arith, e)

lock-IsEmptyLocked :
    (late : Bool) (i : Inputs) (a b : App) → lock i a ≡ some b → IsEmptyLocked late b
unfolding lock
lock-IsEmptyLocked late i a b e = grind (arith, e, clear_session-pin i.draw a.memory)

on_interval-IsEmptyLocked :
    (late : Bool) (i : Inputs) (a b : App)
    → IsEmptyLocked late a
    → on_interval i a ≡ some b
    → IsEmptyLocked late b
unfolding on_interval
on_interval-IsEmptyLocked late i a b h e = grind (arith, h, e, clear_session-pin i.draw a.memory)

-- A deletion that fails has cleared the session all the same.
delete_wallet-pin :
    (draw : ℕ → ℕ → Bytes) (database : Database) (m : Memory) (s : Store)
    (result : Memory × (Store × Result {0, 0} StorageError Unit))
    → delete_wallet draw database m s ≡ some result
    → result.0.session_pin_secure ≡ none
unfolding delete_wallet
delete_wallet-pin draw database m s result e = grind (arith, e, clear_session-pin draw m)

delete_wallet_data-IsEmptyLocked :
    (late : Bool) (i : Inputs) (a b : App) (r : Result {0, 0} HookError Unit)
    → IsEmptyLocked late a
    → delete_wallet_data i a ≡ some (b, r)
    → IsEmptyLocked late b
unfolding delete_wallet_data
delete_wallet_data-IsEmptyLocked late i a b r h e = grind (
  arith,
  h,
  e,
  delete_wallet-pin i.draw i.database a.memory a.store,
  clear_session-pin (λ k. i.draw (4 + k)),
)

module _ (codec : TextCodec) (base64 : Base64) (json : EncryptedJson) (crypto : WebCrypto)
    (packages : Packages) where
  -- The accounts that are on their way, after a derivation has begun.
  abbrev pub on_the_way : Result HookError SultanAccount → List SultanAccount → List SultanAccount
  on_the_way (err e) l = l
  on_the_way (ok account) l = account ∷ l

  -- A mounted hook, and what actions make of it, with the accounts that are on their way and with
  -- whether a derivation has ended while the wallet was locked.
  pub data Reachable : List SultanAccount → Bool → App → Type 0 where
    mounted :
        (i : Inputs) (s : Store) (a : App)
        → check_wallet codec base64 json crypto packages i (before_mount s) ≡ some a
        → Reachable [] false a
    acted :
        (l : List SultanAccount) (late : Bool) (i : Inputs) (x : Action) (a b : App)
        → Reachable l late a
        → act codec base64 json crypto packages i x a ≡ some b
        → Reachable l late b
    derivation_begins :
        (l : List SultanAccount) (late : Bool) (name : Option Text) (a : App)
        → Reachable l late a
        → Reachable
            (on_the_way (derive_new_account codec packages name a).1 l)
            late
            (derive_new_account codec packages name a).0
    derivation_ends :
        (before after : List SultanAccount) (late : Bool) (account : SultanAccount) (a : App)
        → Reachable (before ++ (account ∷ after)) late a
        → Reachable (before ++ after) (late || a.ui.is_locked) (account_derived account a)

  carry : (P : App → Type 0) (a b : App) → some a ≡ some b → P a → P b
  carry P a b e = subst P (cc e)

  mounted-IsEmptyLocked :
      (late : Bool) (i : Inputs) (s : Store) (a : App)
      → check_wallet codec base64 json crypto packages i (before_mount s) ≡ some a
      → IsEmptyLocked late a
  unfolding check_wallet get_session_pin
  mounted-IsEmptyLocked late i s a e =
      carry (IsEmptyLocked late) _ a e (λ l. (refl, inr refl, refl))

  import_wallet-IsEmptyLocked :
      (late : Bool) (i : Inputs) (m p : Text) (a : App)
      → IsEmptyLocked late a
      → IsEmptyLocked late (import_wallet codec base64 json crypto packages i m p a).0
  unfolding import_wallet
  import_wallet-IsEmptyLocked late i m p a h = grind (arith, h)

  unlock-IsEmptyLocked :
      (late : Bool) (i : Inputs) (p : Text) (a : App)
      → IsEmptyLocked late a
      → IsEmptyLocked late (unlock codec base64 json crypto packages i p a).0
  unfolding unlock
  unlock-IsEmptyLocked late i p a h = grind (arith, h)

  derive-IsEmptyLocked :
      (late : Bool) (name : Option Text) (a : App)
      → IsEmptyLocked late a
      → IsEmptyLocked late (derive_new_account codec packages name a).0
  unfolding derive_new_account
  derive-IsEmptyLocked late name a h = grind (arith, h)

  account_derived-IsEmptyLocked :
      (late : Bool) (account : SultanAccount) (a : App)
      → IsEmptyLocked late a
      → IsEmptyLocked (late || a.ui.is_locked) (account_derived account a)
  unfolding account_derived
  account_derived-IsEmptyLocked late account a h = λ locked.
      let (no_wallet, no_accounts, no_pin) = h locked in
      (no_wallet, inl (ground (arith, locked)), no_pin)

  act-IsEmptyLocked :
      (late : Bool) (i : Inputs) (x : Action) (a b : App)
      → IsEmptyLocked late a
      → act codec base64 json crypto packages i x a ≡ some b
      → IsEmptyLocked late b
  unfolding act
  act-IsEmptyLocked late i (creates m p) a b h e =
      carry (IsEmptyLocked late) _ b e (import_wallet-IsEmptyLocked late i m p a h)
  act-IsEmptyLocked late i (imports m p) a b h e =
      carry (IsEmptyLocked late) _ b e (import_wallet-IsEmptyLocked late i m p a h)
  act-IsEmptyLocked late i (unlocks p) a b h e =
      carry (IsEmptyLocked late) _ b e (unlock-IsEmptyLocked late i p a h)
  act-IsEmptyLocked late i locks a b h e = lock-IsEmptyLocked late i a b e
  act-IsEmptyLocked late i deletes a b h e =
      grind (arith, e, delete_wallet_data-IsEmptyLocked late i a b)
  act-IsEmptyLocked late i ticks a b h e = on_interval-IsEmptyLocked late i a b h e
  act-IsEmptyLocked late i moves a b h e = carry (IsEmptyLocked late) _ b e (grind (arith, h))
  act-IsEmptyLocked late i refreshes a b h e = carry (IsEmptyLocked late) _ b e (grind (arith, h))
  act-IsEmptyLocked late i clears a b h e = carry (IsEmptyLocked late) _ b e h
  act-IsEmptyLocked late i (selects index) a b h e = carry (IsEmptyLocked late) _ b e h

  Reachable-IsEmptyLocked :
      (l : List SultanAccount) (late : Bool) (a : App) → Reachable l late a → IsEmptyLocked late a
  Reachable-IsEmptyLocked _ _ a (mounted i s _ e) = mounted-IsEmptyLocked false i s a e
  Reachable-IsEmptyLocked _ _ b (acted l late i x a _ r e) =
      act-IsEmptyLocked late i x a b (Reachable-IsEmptyLocked l late a r) e
  Reachable-IsEmptyLocked _ _ _ (derivation_begins l late name a r) =
      derive-IsEmptyLocked late name a (Reachable-IsEmptyLocked l late a r)
  Reachable-IsEmptyLocked _ _ _ (derivation_ends before after late account a r) =
      account_derived-IsEmptyLocked late account a
        (Reachable-IsEmptyLocked (before ++ (account ∷ after)) late a r)

  -- After mounting the hook on a fresh page, and any actions, each of which takes effect where its
  -- awaits are over, with derivations of accounts that begin and end among them in any order,
  -- whatever the database, the clock and the random bytes: while the wallet is locked, the screens
  -- have no wallet, and no PIN is in memory; and they have no account, unless a derivation has
  -- ended while the wallet was locked.
  pub locked_app_is_empty :
      (l : List SultanAccount) (late : Bool) (a : App)
      → Reachable l late a
      → a.ui.is_locked ≡ true
      → (a.ui.wallet ≡ none)
        × ((late ≡ true) ⊎ (a.ui.accounts ≡ []))
        × (get_session_pin codec a.memory ≡ none)
  unfolding get_session_pin
  locked_app_is_empty l late a r locked =
      let (no_wallet, no_accounts, no_pin) = Reachable-IsEmptyLocked l late a r locked in
      (no_wallet, no_accounts, rw no_pin refl)
