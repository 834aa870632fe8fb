-- ===== src/Totp/TwoFactor.antt =====
-- The second factor's state of wallet-extension/src/core/totp.ts, in localStorage, and its check.
pub mod Once
mod Tests
use xv.Prelude.{
  remove_at, all, keep, ℕ, zero, suc, ◌+◌, ◌-◌, ◌*◌, ◌/◌, ◌%◌, ◌^◌, ◌≤◌, ◌<◌, ◌≡◌, refl, ap, ◌≢◌,
  ◌↔◌, ◌⊎◌, inl, inr, Bool, true, false, not, ◌&&◌, ◌||◌, Option, none, some, List, [], ◌∷◌, ◌++◌,
  map, arith, length, ltb, leb, ◌==◌, if◌then◌else◌,
}
use xv.Prelude.Text.{Text, Bytes, is_space, is_digit}
use xv.Prelude.Result.{Result, ok, err}
use xv.Totp.Base32.{DecodeError, base32_encode}
use xv.Totp.Backup.{verify_backup_code, generate_backup_codes}
use xv.Totp.Code.{verify_totp}

abbrev pub totp_time_step : ℕ
totp_time_step = 30

abbrev pub totp_digits : ℕ
totp_digits = 6

pub record TwoFactorState : Type 0 where
  pub enabled : Bool
  pub secret : Text
  pub backup_codes : List Text
  pub created_at : ℕ
  pub last_used_at : Option ℕ

-- localStorage's entry: there is none, it does not parse, or it holds a state that was saved.
pub data Entry : Type 0 where
  absent unreadable : Entry
  saved : TwoFactorState → Entry

unfoldable pub load_2fa_state : Entry → Option TwoFactorState
load_2fa_state absent = none
load_2fa_state unreadable = none
load_2fa_state (saved s) = some s

unfoldable pub is_2fa_enabled : Entry → Bool
unfolding load_2fa_state
is_2fa_enabled e = elim (load_2fa_state e) [ none ↦ false | some s ↦ s.enabled ]

-- `random` is what `crypto.getRandomValues` put into the array of 20 bytes.
unfoldable pub generate_totp_secret : Bytes → Text
unfolding base32_encode
generate_totp_secret random = base32_encode random

-- The new state is saved, and the secret and the codes are returned.
unfoldable pub enable_2fa : Bytes → (ℕ → ℕ) → ℕ → Entry × (Text × List Text)
unfolding generate_totp_secret generate_backup_codes
enable_2fa random draw now =
    let secret = generate_totp_secret random in
    let backup_codes = generate_backup_codes draw in
    (
      saved (record {
        enabled = true;
        secret = secret;
        backup_codes = backup_codes;
        created_at = now;
        last_used_at = none;
      }),
      (secret, backup_codes),
    )

unfoldable pub disable_2fa : Entry → Entry
disable_2fa e = absent

unfoldable pub get_remaining_backup_codes : Entry → ℕ
unfolding load_2fa_state
get_remaining_backup_codes e = elim (load_2fa_state e) [ none ↦ 0 | some s ↦ length s.backup_codes ]

-- code.replace(/[\s-]/g, '')
abbrev pub without_separators : Text → Text
without_separators = keep (λ c. not (is_space c || (c == b'-')))

-- The second part of `verify2FA`.
unfoldable pub try_backup_code : Text → ℕ → TwoFactorState → Entry → Entry × Result DecodeError Bool
try_backup_code code now state e = elim (verify_backup_code code state.backup_codes) [
  | none ↦ (e, ok false)
  | some i ↦ (
    saved (record state { backup_codes = remove_at i state.backup_codes; last_used_at = some now }),
    ok true,
  )
]

-- `totp_ms` is the clock when the code is checked, and `now` when the use is noted.
unfoldable pub verify_enabled :
    (Bytes → Bytes → Bytes)
    → Text
    → ℕ
    → ℕ
    → TwoFactorState
    → Entry
    → Entry × Result DecodeError Bool
verify_enabled hmac_sha1 code totp_ms now state e =
    let normalized = without_separators code in
    if (length normalized == totp_digits) && all is_digit normalized
    then elim (verify_totp hmac_sha1 state.secret normalized totp_ms totp_time_step totp_digits 1) [
      | err x ↦ (e, err x)
      | ok is_valid ↦
          if is_valid
          then (saved (record state { last_used_at = some now }), ok true)
          else try_backup_code code now state e
    ]
    else try_backup_code code now state e

unfoldable pub verify_2fa :
    (Bytes → Bytes → Bytes) → Text → ℕ → ℕ → Entry → Entry × Result DecodeError Bool
unfolding load_2fa_state
verify_2fa hmac_sha1 code totp_ms now e = elim (load_2fa_state e) [
  | none ↦ (e, ok true)
  | some state ↦
      if state.enabled then verify_enabled hmac_sha1 code totp_ms now state e else (e, ok true)
]
