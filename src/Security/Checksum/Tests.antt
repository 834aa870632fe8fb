-- ===== src/Security/Checksum/Tests.antt =====
-- Checksums under a toy digest.
use xv.Prelude.{◌≡◌, ◌↔◌, true, some, take, arith}
use xv.Prelude.Text.{codes}
use xv.Platform.Samples.{one_byte, sum_digest, hex_kept}
use xv.Security.Checksum.{create_checksum, verify_checksum}
use xv.Security.Checksum.Verified.{verify-create_checksum}

sum_is_verified :
    (verify_checksum one_byte sum_digest
        (codes "zoo")
        (create_checksum one_byte sum_digest (codes "ooz"))
      ≡ some true)
    ↔ (take 4 (sum_digest (one_byte.encode (codes "zoo")))
        ≡ take 4 (sum_digest (one_byte.encode (codes "ooz"))))
sum_is_verified =
    verify-create_checksum one_byte sum_digest (λ bs. (omega arith, tt)) hex_kept (codes "zoo")
      (codes "ooz")
