-- ===== src/Security/Pin/Tests.antt =====
-- PINs that the tests of the repository name, and an accepted one.
use xv.Prelude.{ℕ, ◌≡◌, refl, ◌↔◌, none, some, ◌∷◌}
use xv.Prelude.Text.{Text, codes}
use xv.Security.Pin.{not_digits, too_short, repeated, sequential, validate_pin}
use xv.Security.Pin.Accepted.{validate_pin_iff, IsGoodPin}

verdicts :
    (validate_pin (codes "123456") ≡ some sequential)
    × (validate_pin (codes "111111") ≡ some repeated)
    × (validate_pin (codes "12345") ≡ some too_short)
    × (validate_pin (codes "12ab56") ≡ some not_digits)
    × (validate_pin (codes "654321") ≡ none)
unfolding validate_pin
verdicts = (refl, refl, refl, refl, refl)

validate_pin_iff_example :
    (validate_pin (codes "654321") ≡ none)
    ↔ ((c : ℕ) × (s : Text) × (codes "654321" ≡ c ∷ s) × IsGoodPin c s)
validate_pin_iff_example = validate_pin_iff (codes "654321")
