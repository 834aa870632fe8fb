-- ===== src/Security/Amount/Balance.antt =====
-- What an amount is compared with when the balance has commas.
use xv.Prelude.{
  append-nil, ◌==◌, Bool-cases, inr, inl, [], ◌%◌, ◌++◌, ◌/◌, ◌^◌, ℕ, ◌∷◌, ◌≡◌, sym, refl,
}
use xv.Prelude.Text.{Text, pad_start}
use xv.Prelude.Decimal.{to_string}
use xv.Prelude.Int.{pos}
use xv.Platform.Floats.{Floats}
use xv.Wallet.Amount.{sultan_decimals, trim_zeros, to_locale_string, format_sltn}

-- The print of an amount begins with that of its whole part.
pub format_sltn-front :
    (b : ℕ) → (t : Text) × (format_sltn (pos b) ≡ to_locale_string (b / 10 ^ 9) ++ t)
unfolding format_sltn
format_sltn-front b = elim (Bool-cases (b % 10 ^ 9 == 0)) [
  | inl whole ↦ ([], rw whole (sym (append-nil (to_locale_string (b / 10 ^ 9)))))
  | inr more ↦
      (b'.' ∷ trim_zeros (pad_start sultan_decimals b'0' (to_string (b % 10 ^ 9))), rw more refl)
]
