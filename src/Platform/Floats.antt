-- ===== src/Platform/Floats.antt =====
-- JavaScript's numbers where the sources compute in floating point: the type and the functions that
-- they call, with what is relied on.
use xv.Prelude.{false, ◌++◌, length, ◌<◌, Bool, ℕ, all, ◌∷◌, true, ◌≡◌}
use xv.Prelude.Text.{is_digit, Text}

pub record Floats (F : Type 0) : Type 0 where
  pub parse_float : Text → F
  pub number : Text → F
  pub of_ℕ : ℕ → F
  pub to_text : F → Text
  pub is_nan : F → Bool
  pub gt : F → F → Bool
  pub le : F → F → Bool
  pub eq : F → F → Bool

-- parseFloat reads up to the first character that cannot go on the number, and a comma cannot.
pub record StopsAtComma {F : Type 0} (floats : Floats F) : Type 0 where
  pub parse_float-comma :
      (s t : Text)
      → all is_digit s ≡ true
      → 0 < length s
      → floats.parse_float (s ++ (b',' ∷ t)) ≡ floats.parse_float s

-- Number of a text with a comma is NaN, and NaN is neither above nor below anything.
pub record CommaIsNaN {F : Type 0} (floats : Floats F) : Type 0 where
  pub number-comma : (s t : Text) → floats.is_nan (floats.number (s ++ (b',' ∷ t))) ≡ true
  pub gt-nan : (x y : F) → floats.is_nan x ≡ true → floats.gt x y ≡ false
  pub nan-gt : (x y : F) → floats.is_nan y ≡ true → floats.gt x y ≡ false
