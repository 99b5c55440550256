-- ===== src/Std/Number/Decimal.antt =====
-- The value of a decimal print, and its first digit.
use fips_shield.Base.{
  ℕ, zero, suc, ◌+◌, ◌-◌, ◌*◌, ◌/◌, ◌<◌, ◌≡◌, refl, Bool, true, false, [], ◌∷◌, ◌++◌, ltb, ◌==◌,
  arith, Bool-cases, inl, inr,
}
use fips_shield.Std.Text.{Text}
use fips_shield.Std.Number.{to_text, digits}

unfoldable pub decimal : ℕ → Text → ℕ
decimal n [] = n
decimal n (c ∷ s) = decimal (n * 10 + (c - b'0')) s

decimal-append : (n : ℕ) (s t : Text) → decimal n (s ++ t) ≡ decimal (decimal n s) t
unfolding decimal
decimal-append n [] t = refl
decimal-append n (c ∷ s) t = decimal-append (n * 10 + (c - b'0')) s t

decimal-digits : (fuel n : ℕ) → n < fuel → decimal 0 (digits fuel n) ≡ n
unfolding decimal digits
decimal-digits zero n h = absurd (omega arith)
decimal-digits (suc fuel) n h = elim (Bool-cases (ltb n 10)) [
  | inl e ↦ rw (e, digits) (omega arith)
  | inr e ↦
      rw (e, digits, decimal-append, decimal-digits fuel (n / 10) (ground arith)) (omega arith)
]

abbrev pub starts_with_zero : Text → Bool
starts_with_zero [] = true
starts_with_zero (c ∷ s) = c == b'0'

starts_with_zero-append :
    (s t : Text) → starts_with_zero s ≡ false → starts_with_zero (s ++ t) ≡ false
starts_with_zero-append [] t h = absurd (ground arith)
starts_with_zero-append (c ∷ s) t h = h

starts_with_zero-digits : (fuel n : ℕ) → 0 < n → n < fuel → starts_with_zero (digits fuel n) ≡ false
unfolding digits
starts_with_zero-digits zero n p h = absurd (omega arith)
starts_with_zero-digits (suc fuel) n p h = elim (Bool-cases (ltb n 10)) [
  | inl e ↦ rw (e, digits) (ground arith)
  | inr e ↦
      rw (e, digits)
        (starts_with_zero-append (digits fuel (n / 10)) _
          (starts_with_zero-digits fuel (n / 10) (ground arith) (ground arith)))
]

pub decimal-to_text : (n : ℕ) → decimal 0 (to_text n) ≡ n
unfolding to_text
decimal-to_text n = decimal-digits (suc n) n (omega arith)

-- Only the print of 0 starts with a zero.
pub starts_with_zero-to_text : (n : ℕ) → 0 < n → starts_with_zero (to_text n) ≡ false
unfolding to_text
starts_with_zero-to_text n p = starts_with_zero-digits (suc n) n p (omega arith)
