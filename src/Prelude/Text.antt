-- ===== src/Prelude/Text.antt =====
-- JavaScript strings as lists of UTF-16 code units, typed arrays of bytes, and the string methods
-- that the sources use. Case mapping and `\w` are those of ASCII text.
use Prim.Native.Nat.{ℕ, zero, suc, ◌-◌, ◌<◌, ◌≤◌}
use Prim.Native.Char.{code}
use Prim.Native.String.{String}
use mathlib.Core.Path.{◌≡◌}
use mathlib.Core.Bool.{Bool, true, false, ◌&&◌, ◌||◌}
use mathlib.Core.Logic.{◌↔◌}
use mathlib.Core.Option.{Option, none, some}
use mathlib.Core.List.{List, [], ◌∷◌, ◌++◌, reverse}
use native.Mathlib.Omega.{arith}
use xv.Prelude.Tests.{leb, ◌==◌, if◌then◌else◌}
use xv.Prelude.Lists.{length, replicate, length-append, length-replicate}
use xv.Prelude.{◌+◌, map}

abbrev pub Text : Type 0
Text = List ℕ

abbrev pub Bytes : Type 0
Bytes = List ℕ

-- The code units of a literal in the Basic Multilingual Plane.
abbrev pub codes : String → Text
codes String.[] = []
codes (String.◌∷◌ c s) = code c ∷ codes s

-- a === b
abbrev pub text_eq : Text → Text → Bool
text_eq [] [] = true
text_eq [] (d ∷ t) = false
text_eq (c ∷ s) [] = false
text_eq (c ∷ s) (d ∷ t) = (c == d) && text_eq s t

pub text_eq_iff : (s t : Text) → (text_eq s t ≡ true) ↔ (s ≡ t)
text_eq_iff [] [] = ground arith
text_eq_iff [] (d ∷ t) = ground arith
text_eq_iff (c ∷ s) [] = ground arith
text_eq_iff (c ∷ s) (d ∷ t) = ground (arith, text_eq_iff s t)

-- /\d/
abbrev pub is_digit : ℕ → Bool
is_digit c = leb b'0' c && leb c b'9'

-- /\s/, the white space that `trim` removes too.
abbrev pub is_space : ℕ → Bool
is_space c =
    (leb 9 c && leb c 13)
    || (c == 32)
    || (c == 0xa0)
    || (c == 0x1680)
    || (leb 0x2000 c && leb c 0x200a)
    || (c == 0x2028)
    || (c == 0x2029)
    || (c == 0x202f)
    || (c == 0x205f)
    || (c == 0x3000)
    || (c == 0xfeff)

-- The letter's upper case, in ASCII.
abbrev pub to_upper : ℕ → ℕ
to_upper c = if leb b'a' c && leb c b'z' then c - 32 else c

abbrev pub trim_start : Text → Text
trim_start [] = []
trim_start (c ∷ s) = let rest = trim_start s in elim (is_space c) [ true ↦ rest | false ↦ c ∷ s ]

unfoldable pub trim : Text → Text
trim s = reverse (trim_start (reverse (trim_start s)))

-- s.startsWith(prefix), returning what follows the prefix
abbrev pub strip_prefix : Text → Text → Option Text
strip_prefix [] s = some s
strip_prefix (p ∷ ps) [] = none
strip_prefix (p ∷ ps) (c ∷ s) = if p == c then strip_prefix ps s else none

-- s.padStart(n, c) for one code unit `c`
abbrev pub pad_start : ℕ → ℕ → Text → Text
pad_start n c s = replicate (n - length s) c ++ s

-- s.padEnd(n, c)
abbrev pub pad_end : ℕ → ℕ → Text → Text
pad_end n c s = s ++ replicate (n - length s) c

-- A text no longer than `n` is padded to exactly `n`.
pub length-pad_start : (n c : ℕ) (s : Text) → length s ≤ n → length (pad_start n c s) ≡ n
length-pad_start n c s h =
    omega (
      arith,
      length-append {0} (replicate (n - length s) c) s,
      length-replicate {0} (n - length s) c,
    )

-- Array.prototype.indexOf on code units
abbrev pub index_of : ℕ → Text → Option ℕ
index_of c [] = none
index_of c (d ∷ s) =
    let rest = index_of c s in
    if d == c then some 0 else elim rest [ none ↦ none | some i ↦ some (suc i) ]

pub index_of-lt : (c : ℕ) (s : Text) (i : ℕ) → index_of c s ≡ some i → i < length s
index_of-lt c [] i h = ground arith
index_of-lt c (d ∷ s) zero h = omega arith
index_of-lt c (d ∷ s) (suc i) h = ground (arith, index_of-lt c s i)

-- s.toLowerCase(), in ASCII
abbrev pub lower_case : Text → Text
lower_case = map (λ c. if leb b'A' c && leb c b'Z' then c + 32 else c)

-- s.includes(search)
abbrev pub includes : Text → Text → Bool
includes [] search = length search == 0
includes (c ∷ s) search =
    let rest = includes s search in
    elim (strip_prefix search (c ∷ s)) [ none ↦ rest | some after ↦ true ]
