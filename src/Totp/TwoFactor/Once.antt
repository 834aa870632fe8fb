-- ===== src/Totp/TwoFactor/Once.antt =====
-- What a check of the second factor consumes.
use xv.Prelude.{
  ◌∙◌, remove_at, all, length-remove_at, Option-cases, subst, ℕ, suc, ◌<◌, ◌≡◌, refl, ◌≢◌, ◌⊎◌, inl,
  inr, Bool, true, false, ◌&&◌, none, some, List, arith, length, ◌==◌, if◌then◌else◌,
}
use xv.Prelude.Text.{Text, Bytes, is_digit}
use xv.Prelude.Result.{Result, ok, err}
use xv.Totp.Base32.{DecodeError}
use xv.Totp.Backup.{normalize, verify_backup_code}
use xv.Totp.TwoFactor.{
  absent, unreadable, verify_2fa, totp_time_step, totp_digits, without_separators, saved,
  TwoFactorState, get_remaining_backup_codes, verify_enabled, try_backup_code, Entry,
}
use xv.Totp.Backup.Matching.{
  NoMatch-remove, find_code-none, Distinct, verify_backup_code_lem, Verdict, FirstAt-lt,
}
use xv.Totp.Code.{verify_totp}

index-lt : (code : Text) (l : List Text) (i : ℕ) → verify_backup_code code l ≡ some i → i < length l
index-lt code l i h =
    FirstAt-lt (normalize code) l i
      (subst (Verdict (normalize code) l) h (verify_backup_code_lem code l))

-- What a check leaves: an answer other than yes leaves the entry, and a yes takes one code at most.
record Frugal (e : Entry) (r : Entry × Result DecodeError Bool) : Type 0 where
  refused : r.1 ≢ ok true → r.0 ≡ e
  at_most_one :
      (get_remaining_backup_codes r.0 ≡ get_remaining_backup_codes e)
      ⊎ (suc (get_remaining_backup_codes r.0) ≡ get_remaining_backup_codes e)

Frugal-backup :
    (code : Text) (now : ℕ) (s : TwoFactorState)
    → Frugal (saved s) (try_backup_code code now s (saved s))
unfolding try_backup_code get_remaining_backup_codes
Frugal-backup code now s = elim (Option-cases (verify_backup_code code s.backup_codes)) [
  | inl missing ↦
      rw (missing, try_backup_code) (record { refused = λ _. refl; at_most_one = inl refl })
  | inr (i, found) ↦
      rw (found, try_backup_code)
        (record {
          refused = λ h. absurd (h refl);
          at_most_one =
              inr (length-remove_at i s.backup_codes (index-lt code s.backup_codes i found));
        })
]

Frugal-enabled :
    (hmac_sha1 : Bytes → Bytes → Bytes) (code : Text) (totp_ms now : ℕ) (s : TwoFactorState)
    → Frugal (saved s) (verify_enabled hmac_sha1 code totp_ms now s (saved s))
unfolding verify_enabled get_remaining_backup_codes
Frugal-enabled hmac_sha1 code totp_ms now s =
    by_answer (length n == totp_digits && all is_digit n)
      (verify_totp hmac_sha1 s.secret n totp_ms totp_time_step totp_digits 1)
  where
    n : Text
    n = without_separators code

    by_answer :
        (digits : Bool) (r : Result DecodeError Bool)
        → Frugal (saved s) (
            if digits
            then elim r [
              | err x ↦ (saved s, err x)
              | ok is_valid ↦
                  if is_valid
                  then (saved (record s { last_used_at = some now }), ok true)
                  else try_backup_code code now s (saved s)
            ]
            else try_backup_code code now s (saved s))
    by_answer false r = Frugal-backup code now s
    by_answer true (err x) = record { refused = λ _. refl; at_most_one = inl refl }
    by_answer true (ok true) = record { refused = λ h. absurd (h refl); at_most_one = inl refl }
    by_answer true (ok false) = Frugal-backup code now s

Frugal-if :
    (b : Bool) (e : Entry) {m : Entry × Result DecodeError Bool}
    → Frugal e m
    → Frugal e (if b then m else (e, ok true))
Frugal-if true e f = f
Frugal-if false e f = record { refused = λ _. refl; at_most_one = inl refl }

-- A check that does not answer yes (it answers no, or the stored secret does not decode) leaves the
-- stored entry as it was, and any check takes away one backup code at most and adds none.
pub check_is_frugal :
    (hmac_sha1 : Bytes → Bytes → Bytes) (code : Text) (totp_ms now : ℕ) (e : Entry)
    → ((verify_2fa hmac_sha1 code totp_ms now e).1 ≢ ok true
        → (verify_2fa hmac_sha1 code totp_ms now e).0 ≡ e)
      × ((get_remaining_backup_codes (verify_2fa hmac_sha1 code totp_ms now e).0
            ≡ get_remaining_backup_codes e)
          ⊎ (suc (get_remaining_backup_codes (verify_2fa hmac_sha1 code totp_ms now e).0)
              ≡ get_remaining_backup_codes e))
unfolding verify_2fa
check_is_frugal hmac_sha1 code totp_ms now absent = ((λ _. refl), inl refl)
check_is_frugal hmac_sha1 code totp_ms now unreadable = ((λ _. refl), inl refl)
check_is_frugal hmac_sha1 code totp_ms now (saved s) =
    let f = Frugal-if s.enabled (saved s) (Frugal-enabled hmac_sha1 code totp_ms now s) in
    (f.refused, f.at_most_one)

-- Six digits, once blanks and dashes are taken away: such an input is tried as a one-time code.
abbrev pub looks_like_totp : Text → Bool
looks_like_totp code =
    (length (without_separators code) == totp_digits) && all is_digit (without_separators code)

if_true : {A : Type 0} {b : Bool} (x y : A) → b ≡ true → (if b then x else y) ≡ x
if_true x y h = rw h

if_false : {A : Type 0} {b : Bool} (x y : A) → b ≡ false → (if b then x else y) ≡ y
if_false x y h = rw h

only_backup :
    (hmac_sha1 : Bytes → Bytes → Bytes) (code : Text) (totp_ms now : ℕ) (s : TwoFactorState)
    → s.enabled ≡ true
    → looks_like_totp code ≡ false
    → verify_2fa hmac_sha1 code totp_ms now (saved s) ≡ try_backup_code code now s (saved s)
unfolding verify_2fa verify_enabled
only_backup hmac_sha1 code totp_ms now s on other = if_true _ _ on ∙ if_false _ _ other

accepted_at :
    (code : Text) (now : ℕ) (s : TwoFactorState)
    → (try_backup_code code now s (saved s)).1 ≡ ok true
    → (i : ℕ) × (verify_backup_code code s.backup_codes ≡ some i)
      × (try_backup_code code now s (saved s) ≡ (
        saved (record s { backup_codes = remove_at i s.backup_codes; last_used_at = some now }),
        ok true,
      ))
unfolding try_backup_code
accepted_at code now s h = elim (Option-cases (verify_backup_code code s.backup_codes)) [
  | inl missing ↦ absurd (ground (arith, missing, h))
  | inr (i, found) ↦ (i, found, rw (found, try_backup_code))
]

second_try :
    (code : Text) (l : List Text) (i : ℕ)
    → Distinct l
    → verify_backup_code code l ≡ some i
    → verify_backup_code code (remove_at i l) ≡ none
second_try code l i d h =
    let first = subst (Verdict (normalize code) l) h (verify_backup_code_lem code l) in
    unfold verify_backup_code in
    find_code-none (normalize code) (remove_at i l) (NoMatch-remove (normalize code) l i d first)

refused_when_missing :
    (code : Text) (now : ℕ) (s : TwoFactorState)
    → verify_backup_code code s.backup_codes ≡ none
    → try_backup_code code now s (saved s) ≡ (saved s, ok false)
unfolding try_backup_code
refused_when_missing code now s h = rw (h, try_backup_code)

-- With the second factor on and backup codes that differ, an input that is no six-digit code and is
-- accepted has used up a backup code: one code fewer is left, and the same input is refused from
-- then on, whatever the clock says, and refusing it changes nothing.
pub backup_code_works_once :
    (hmac_sha1 : Bytes → Bytes → Bytes) (code : Text) (ms now ms' now' : ℕ) (s : TwoFactorState)
    → s.enabled ≡ true
    → Distinct s.backup_codes
    → looks_like_totp code ≡ false
    → (verify_2fa hmac_sha1 code ms now (saved s)).1 ≡ ok true
    → (suc (get_remaining_backup_codes (verify_2fa hmac_sha1 code ms now (saved s)).0)
        ≡ get_remaining_backup_codes (saved s))
      × (verify_2fa hmac_sha1 code ms' now' (verify_2fa hmac_sha1 code ms now (saved s)).0
          ≡ ((verify_2fa hmac_sha1 code ms now (saved s)).0, ok false))
backup_code_works_once hmac_sha1 code ms now ms' now' s on d other h =
    let e = only_backup hmac_sha1 code ms now s on other in
    let (i, found, r) = accepted_at code now s (subst (λ t. t.1 ≡ ok true) e h) in
    let s' = record s { backup_codes = remove_at i s.backup_codes; last_used_at = some now } in
    let missing = second_try code s.backup_codes i d found in
    rw (e ∙ r) (
      unfold get_remaining_backup_codes in
          length-remove_at i s.backup_codes (index-lt code s.backup_codes i found),
      only_backup hmac_sha1 code ms' now' s' on other ∙ refused_when_missing code now' s' missing,
    )
