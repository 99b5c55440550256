-- ===== src/Std/Number.antt =====
-- Numbers in decimal and in hexadecimal: `to_string`, `parse`, `from_str_radix`.
pub mod Decimal
use fips_shield.Base.{
  ℕ, zero, suc, ◌+◌, ◌-◌, ◌*◌, ◌/◌, ◌%◌, ◌^◌, ◌≤◌, ◌<◌, ◌≡◌, ◌≢◌, refl, true, false, ◌&&◌, Option,
  none, some, [], ◌∷◌, ◌++◌, arith, leb, ltb, ◌==◌, if◌then◌else◌, Bool-cases, inl, inr, All,
  All-append, ◌∙◌,
}
use fips_shield.Std.Text.{Text}

abbrev pub u64_max : ℕ
u64_max = 2 ^ 64 - 1

abbrev pub usize_max : ℕ
usize_max = 2 ^ 64 - 1

abbrev pub u32_max : ℕ
u32_max = 2 ^ 32 - 1

abbrev pub u8_max : ℕ
u8_max = 255

-- `fuel` above the number of digits is enough, and `n + 1` is above it.
unfoldable pub digits : ℕ → ℕ → Text
digits zero n = []
digits (suc fuel) n = elim (ltb n 10) [
  | true ↦ (b'0' + n) ∷ []
  | false ↦ digits fuel (n / 10) ++ ((b'0' + n % 10) ∷ [])
]

-- `n.to_string()`, for an unsigned integer
unfoldable pub to_text : ℕ → Text
unfolding digits
to_text n = digits (suc n) n

-- `(c as char).to_digit(radix)`
unfoldable pub to_digit : ℕ → ℕ → Option ℕ
to_digit radix c =
    let d =
      if leb b'0' c && leb c b'9'
      then c - b'0'
      else if leb b'a' c && leb c b'z'
      then c - b'a' + 10
      else if leb b'A' c && leb c b'Z'
      then c - b'A' + 10
      else radix in
    if ltb d radix then some d else none

-- `checked_mul` and `checked_add` fail exactly when the result is above the type's `max`.
unfoldable pub scan : ℕ → ℕ → Text → ℕ → Option ℕ
unfolding to_digit
scan radix max [] n = some n
scan radix max (c ∷ s) n = elim (to_digit radix c) [
  | none ↦ none
  | some d ↦ elim (ltb max (n * radix + d)) [
    | true ↦ none
    | false ↦ scan radix max s (n * radix + d)
  ]
]

-- `from_str_radix` of an unsigned type: a leading `+` is taken, a lone sign is not.
unfoldable pub from_str_radix : ℕ → ℕ → Text → Option ℕ
unfolding scan
from_str_radix radix max [] = none
from_str_radix radix max (c ∷ []) = if c == b'+' then none else scan radix max (c ∷ []) 0
from_str_radix radix max (c ∷ d ∷ s) =
    if c == b'+' then scan radix max (d ∷ s) 0 else scan radix max (c ∷ d ∷ s) 0

-- `s.parse::<u64>().ok()`
unfoldable pub parse_u64 : Text → Option ℕ
unfolding from_str_radix
parse_u64 s = from_str_radix 10 u64_max s

-- `s.parse::<u32>().ok()`
unfoldable pub parse_u32 : Text → Option ℕ
unfolding from_str_radix
parse_u32 s = from_str_radix 10 u32_max s

-- `s.parse::<usize>().ok()`, on a 64-bit target
unfoldable pub parse_usize : Text → Option ℕ
unfolding from_str_radix
parse_usize s = from_str_radix 10 usize_max s

abbrev pub IsDigit : ℕ → Type 0
IsDigit c = (b'0' ≤ c) × (c ≤ b'9')

digits-IsDigit : (fuel n : ℕ) → All IsDigit (digits fuel n)
unfolding digits
digits-IsDigit zero n = tt
digits-IsDigit (suc fuel) n = elim (Bool-cases (ltb n 10)) [
  | inl e ↦ rw (e, digits) (ground arith)
  | inr e ↦
      rw (e, digits)
        (All-append IsDigit (digits fuel (n / 10)) _ (digits-IsDigit fuel (n / 10)) (ground arith))
]

-- The decimal print holds digits only.
pub to_text-IsDigit : (n : ℕ) → All IsDigit (to_text n)
unfolding to_text
to_text-IsDigit n = digits-IsDigit (suc n) n

scan_one :
    (max n m d : ℕ) → m ≡ n * 10 + d → d < 10 → m ≤ max → scan 10 max ((b'0' + d) ∷ []) n ≡ some m
unfolding scan
scan_one max n m d e h l = ground arith

scan-append :
    (radix max : ℕ) (s t : Text) (n m : ℕ)
    → scan radix max s n ≡ some m
    → scan radix max (s ++ t) n ≡ scan radix max t m
unfolding scan
scan-append radix max [] t n m h = ground arith
scan-append radix max (c ∷ s) t n m h = ground (
  arith,
  scan-append radix max s t (n * radix + (c - b'0')) m,
  scan-append radix max s t (n * radix + (c - b'a' + 10)) m,
  scan-append radix max s t (n * radix + (c - b'A' + 10)) m,
  scan-append radix max s t (n * radix + radix) m,
)

scan-digits : (max fuel n : ℕ) → n < fuel → n ≤ max → scan 10 max (digits fuel n) 0 ≡ some n
unfolding digits
scan-digits max zero n h l = absurd (omega arith)
scan-digits max (suc fuel) n h l = elim (Bool-cases (ltb n 10)) [
  | inl e ↦ rw (e, digits) (scan_one max 0 n n (omega arith) (ground arith) l)
  | inr e ↦
      rw (e, digits)
        (scan-append 10 max (digits fuel (n / 10)) _ 0 (n / 10)
            (scan-digits max fuel (n / 10) (ground arith) (omega arith))
          ∙ scan_one max (n / 10) n (n % 10) (omega arith) (omega arith) l)
]

from_str_radix-scan :
    (radix max : ℕ) (s : Text)
    → s ≢ []
    → All IsDigit s
    → from_str_radix radix max s ≡ scan radix max s 0
unfolding from_str_radix
from_str_radix-scan radix max [] h d = absurd (h refl)
from_str_radix-scan radix max (c ∷ []) h d = let e : (c == b'+') ≡ false = ground arith in rw e
from_str_radix-scan radix max (c ∷ e ∷ s) h d = let e : (c == b'+') ≡ false = ground arith in rw e

append-ne-nil : (s : Text) (c : ℕ) → s ++ (c ∷ []) ≢ []
append-ne-nil [] c h = cc
append-ne-nil (d ∷ s) c h = cc

pub to_text-ne-nil : (n : ℕ) → to_text n ≢ []
unfolding to_text
to_text-ne-nil n = elim (Bool-cases (ltb n 10)) [
  | inl e ↦ rw (e, to_text, digits) (λ h. cc)
  | inr e ↦ rw (e, to_text, digits) (append-ne-nil (digits n (n / 10)) _)
]

-- Reading a decimal print gives the number back.
pub parse_u64-to_text : (n : ℕ) → n ≤ u64_max → parse_u64 (to_text n) ≡ some n
unfolding parse_u64
parse_u64-to_text n h =
    from_str_radix-scan 10 u64_max (to_text n) (to_text-ne-nil n) (to_text-IsDigit n)
    ∙ unfold to_text in scan-digits u64_max (suc n) n (omega arith) h
