-- ===== src/Security/Limits.antt =====
-- The constants of wallet-extension/src/core/security.ts.
use xv.Prelude.{ℕ, ◌*◌}

abbrev pub min_pin_length : ℕ
min_pin_length = 6

abbrev pub max_pin_length : ℕ
max_pin_length = 12

abbrev pub max_pin_attempts : ℕ
max_pin_attempts = 5

abbrev pub lockout_duration_ms : ℕ
lockout_duration_ms = 5 * 60 * 1000

abbrev pub session_timeout_ms : ℕ
session_timeout_ms = 5 * 60 * 1000
