-- ===== src/Totp/TwoFactor/Tests.antt =====
-- A second factor that is on, with two backup codes left.
use xv.Prelude.{get_or, suc, ◌≡◌, refl, ap, ◌≢◌, ◌⊎◌, true, false, none, some, [], ◌∷◌, ◌++◌, arith}
use xv.Prelude.Text.{Text, Bytes, codes}
use xv.Prelude.Result.{ok}
use xv.Totp.TwoFactor.{
  try_backup_code, verify_enabled, saved, get_remaining_backup_codes, verify_2fa, TwoFactorState,
}
use xv.Totp.Backup.Matching.{Distinct}
use xv.Totp.TwoFactor.Once.{check_is_frugal, backup_code_works_once}
use xv.Totp.Code.{generate_hotp, text_constant_time_equal, try_windows, verify_totp}
use xv.Totp.Backup.{verify_backup_code}
use xv.Totp.Base32.{base32_decode}

abbrev copying : Bytes → Bytes → Bytes
copying key message = message ++ message ++ key

abbrev two_left : TwoFactorState
two_left = record {
  enabled = true;
  secret = codes "MZXW6";
  backup_codes = codes "ABCD-2345" ∷ codes "WXYZ-6789" ∷ [];
  created_at = 5;
  last_used_at = none;
}

accepted : (verify_2fa copying (codes "wxyz 6789") 1000000 1000001 (saved two_left)).1 ≡ ok true
unfolding verify_2fa verify_enabled try_backup_code verify_backup_code text_constant_time_equal
accepted = refl

code_taken :
    verify_2fa copying (codes "361 327") 1000000 1000001 (saved two_left)
    ≡ (saved (record two_left { last_used_at = some 1000001 }), ok true)
unfolding verify_2fa verify_enabled verify_totp try_windows generate_hotp base32_decode
    text_constant_time_equal
code_taken = refl

frugal_sample :
    ((verify_2fa copying (codes "nonsense") 7 8 (saved two_left)).1 ≢ ok true
      → (verify_2fa copying (codes "nonsense") 7 8 (saved two_left)).0 ≡ saved two_left)
    × ((get_remaining_backup_codes (verify_2fa copying (codes "nonsense") 7 8 (saved two_left)).0
          ≡ get_remaining_backup_codes (saved two_left))
        ⊎ (suc (
              get_remaining_backup_codes
                (verify_2fa copying (codes "nonsense") 7 8 (saved two_left)).0)
            ≡ get_remaining_backup_codes (saved two_left)))
frugal_sample = check_is_frugal copying (codes "nonsense") 7 8 (saved two_left)

heads_differ : (a b : Text) → get_or a 0 0 ≡ 65 → get_or b 0 0 ≡ 87 → a ≢ b
heads_differ a b ha hb e = omega (arith, ha, hb, ap (λ t. get_or t 0 0) e)

differ : Distinct two_left.backup_codes
differ = (((λ e. heads_differ _ _ refl refl e), tt), (tt, tt))

backup_code_works_once_example :
    (suc (
        get_remaining_backup_codes
          (verify_2fa copying (codes "wxyz 6789") 1000000 1000001 (saved two_left)).0)
      ≡ get_remaining_backup_codes (saved two_left))
    × (verify_2fa copying
          (codes "wxyz 6789")
          2000000
          2000001
          (verify_2fa copying (codes "wxyz 6789") 1000000 1000001 (saved two_left)).0
        ≡ ((verify_2fa copying (codes "wxyz 6789") 1000000 1000001 (saved two_left)).0, ok false))
backup_code_works_once_example =
    backup_code_works_once copying (codes "wxyz 6789") 1000000 1000001 2000000 2000001 two_left refl
      differ refl accepted
