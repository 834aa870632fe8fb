-- ===== src/Totp/Backup/Tests.antt =====
-- The codes of a fixed source of random bytes.
use xv.Prelude.{get_or, ℕ, ◌*◌, ◌%◌, ◌≤◌, ◌≡◌, refl, some, [], ◌∷◌, arith, length}
use xv.Prelude.Text.{codes}
use xv.Totp.Backup.{verify_backup_code, backup_code_count, normalize, generate_backup_codes}
use xv.Totp.Backup.Matching.{verify_backup_code_lem, Verdict}
use xv.Totp.Backup.Generated.{generated_codes_are_recognised}

abbrev counting : ℕ → ℕ
counting n = (n * 7) % 256

first_code : get_or (generate_backup_codes counting) 0 [] ≡ codes "AHQX-6DLT"
unfolding generate_backup_codes
first_code = refl

checked_sample :
    Verdict
      (normalize (codes "abcd2345"))
      (codes "ABCD-2345" ∷ [])
      (verify_backup_code (codes "abcd2345") (codes "ABCD-2345" ∷ []))
checked_sample = verify_backup_code_lem (codes "abcd2345") (codes "ABCD-2345" ∷ [])

generated_sample :
    (length (generate_backup_codes counting) ≡ backup_code_count)
    × (length (get_or (generate_backup_codes counting) 3 []) ≡ 9)
    × ((j : ℕ) × (j ≤ 3)
        × (verify_backup_code
              (get_or (generate_backup_codes counting) 3 [])
              (generate_backup_codes counting)
            ≡ some j))
generated_sample = generated_codes_are_recognised counting 3 (omega arith)
