-- ===== src/Guard/Build/Versions.antt =====
-- Which names have a version for guard/build.rs, and which names `clang_candidates` tries.
use fips_shield.Base.{
  ℕ, ◌+◌, ◌-◌, ◌*◌, ◌≤◌, ◌≡◌, ◌≢◌, ◌↔◌, ◌⊎◌, refl, sym, ap, ◌∙◌, subst, false, Option, none, some,
  [], ◌∷◌, ◌++◌, All, In, arith, ◌==◌, Bool-cases, Option-cases, inl, inr,
}
use fips_shield.Std.Text.{Text, codes, strip_prefix}
use fips_shield.Std.Number.{IsDigit, u32_max, to_digit, scan, from_str_radix, parse_u32}
use fips_shield.Std.Number.Decimal.{decimal}
use fips_shield.Guard.Build.{Env, Builder, version_of, path_dirs, clang_candidates}
use fips_shield.Guard.Build.Found.{HasVersion, IsAmong, clang_candidates-HasVersion}

-- `clang-` and a decimal number that fits in 32 bits, with a plus sign or without one. Leading zeros
-- are taken.
abbrev pub IsVersioned : Text → Type 0
IsVersioned name =
    (sign : Text) × (number : Text) × (name ≡ codes "clang-" ++ (sign ++ number))
    × ((sign ≡ []) ⊎ (sign ≡ codes "+"))
    × (number ≢ [])
    × All IsDigit number
    × (decimal 0 number ≤ u32_max)

to_digit-some : (c d : ℕ) → to_digit 10 c ≡ some d → IsDigit c × (d ≡ c - b'0')
unfolding to_digit
to_digit-some c d h = ground arith

to_digit-IsDigit : (c : ℕ) → IsDigit c → to_digit 10 c ≡ some (c - b'0')
unfolding to_digit
to_digit-IsDigit c h = ground arith

decimal_ge : (n : ℕ) (s : Text) → n ≤ decimal n s
unfolding decimal
decimal_ge n [] = omega arith
decimal_ge n (c ∷ s) = omega (arith, decimal_ge (n * 10 + (c - b'0')) s)

scan-some :
    (max : ℕ) (s : Text) (n m : ℕ)
    → scan 10 max s n ≡ some m
    → n ≤ max
    → All IsDigit s × (decimal n s ≤ max)
unfolding scan decimal
scan-some max [] n m h k = (tt, k)
scan-some max (c ∷ s) n m h k = elim (Option-cases (to_digit 10 c)) [
  | inl e ↦ absurd (ground arith)
  | inr (d, e) ↦
      let (digit, q) = to_digit-some c d e in
      let (digits, le) = scan-some max s (n * 10 + d) m (ground arith) (ground arith) in
      ((digit, digits), subst (λ x. decimal (n * 10 + x) s ≤ max) q le)
]

scan-decimal :
    (max : ℕ) (s : Text) (n : ℕ)
    → All IsDigit s
    → decimal n s ≤ max
    → scan 10 max s n ≡ some (decimal n s)
unfolding scan decimal
scan-decimal max [] n h k = refl
scan-decimal max (c ∷ s) n (h, hs) k =
    let next = n * 10 + (c - b'0') in
    ground (arith, to_digit-IsDigit c h, decimal_ge next s, scan-decimal max s next hs k)

-- What `parse::<u32>` takes.
abbrev IsNumber : Text → Type 0
IsNumber s =
    (sign : Text) × (number : Text) × (s ≡ sign ++ number)
    × ((sign ≡ []) ⊎ (sign ≡ codes "+"))
    × (number ≢ [])
    × All IsDigit number
    × (decimal 0 number ≤ u32_max)

parse_u32-IsNumber : (s : Text) (n : ℕ) → parse_u32 s ≡ some n → IsNumber s
unfolding parse_u32
parse_u32-IsNumber [] n h = absurd (ground arith)
parse_u32-IsNumber (c ∷ []) n h =
    let (digits, le) = scan-some u32_max (c ∷ []) 0 n (ground arith) (omega arith) in
    ([], c ∷ [], refl, inl refl, (λ e. cc), digits, le)
parse_u32-IsNumber (c ∷ d ∷ s) n h = elim (Bool-cases (c == b'+')) [
  | inl e ↦
      let (digits, le) = scan-some u32_max (d ∷ s) 0 n (ground arith) (omega arith) in
      (codes "+", d ∷ s, ground arith, inr refl, (λ q. cc), digits, le)
  | inr e ↦
      let (digits, le) = scan-some u32_max (c ∷ d ∷ s) 0 n (ground arith) (omega arith) in
      ([], c ∷ d ∷ s, refl, inl refl, (λ q. cc), digits, le)
]

from_str_radix-number :
    (s : Text)
    → s ≢ []
    → All IsDigit s
    → decimal 0 s ≤ u32_max
    → from_str_radix 10 u32_max s ≡ some (decimal 0 s)
unfolding from_str_radix
from_str_radix-number [] h d k = absurd (h refl)
from_str_radix-number (c ∷ []) h d k =
    let e : (c == b'+') ≡ false = ground arith in rw e (scan-decimal u32_max (c ∷ []) 0 d k)
from_str_radix-number (c ∷ e ∷ s) h d k =
    let q : (c == b'+') ≡ false = ground arith in rw q (scan-decimal u32_max (c ∷ e ∷ s) 0 d k)

from_str_radix-plus :
    (s : Text)
    → s ≢ []
    → All IsDigit s
    → decimal 0 s ≤ u32_max
    → from_str_radix 10 u32_max (b'+' ∷ s) ≡ some (decimal 0 s)
unfolding from_str_radix
from_str_radix-plus [] h d k = absurd (h refl)
from_str_radix-plus (c ∷ s) h d k = scan-decimal u32_max (c ∷ s) 0 d k

strip_prefix-append : (p s : Text) → strip_prefix (p ++ s) p ≡ some s
unfolding strip_prefix
strip_prefix-append [] [] = refl
strip_prefix-append [] (c ∷ s) = refl
strip_prefix-append (c ∷ p) s = ground (arith, strip_prefix-append p s)

strip_prefix-some : (s p t : Text) → strip_prefix s p ≡ some t → s ≡ p ++ t
unfolding strip_prefix
strip_prefix-some [] [] t h = cc
strip_prefix-some (c ∷ s) [] t h = cc
strip_prefix-some [] (p ∷ ps) t h = cc
strip_prefix-some (c ∷ s) (p ∷ ps) t h = elim (Bool-cases (c == p)) [
  | inl e ↦
      let same : c ≡ p = ground arith in
      ap (λ x. x ∷ s) same ∙ ap (λ x. p ∷ x) (strip_prefix-some s ps t (ground arith))
  | inr e ↦ absurd (ground arith)
]

-- The version, by what follows the prefix.
abbrev version_at : Option Text → Option ℕ
version_at none = none
version_at (some s) = parse_u32 s

HasVersion-IsVersioned : (name : Text) → HasVersion name ↔ IsVersioned name
unfolding version_of parse_u32
HasVersion-IsVersioned name = (
  λ (n, h). elim (Option-cases (strip_prefix name (codes "clang-"))) [
    | inl e ↦ absurd (ground arith)
    | inr (s, e) ↦
        let (sign, number, q, signs, ne, digits, le) =
          parse_u32-IsNumber s n (sym (ap version_at e) ∙ h) in
        (
          sign,
          number,
          strip_prefix-some name (codes "clang-") s e ∙ ap (λ t. codes "clang-" ++ t) q,
          signs,
          ne,
          digits,
          le,
        )
  ],
  λ (sign, number, e, signs, ne, digits, le). (
    decimal 0 number,
    ap version_of e
        ∙ ap version_at (strip_prefix-append (codes "clang-") (sign ++ number))
        ∙ elim signs [
          | inl p ↦ ap (λ t. parse_u32 (t ++ number)) p ∙ from_str_radix-number number ne digits le
          | inr p ↦ ap (λ t. parse_u32 (t ++ number)) p ∙ from_str_radix-plus number ne digits le
        ],
  ),
)

-- A name is tried exactly if it is plain `clang`, or an entry of a readable directory of PATH that
-- consists of `clang-` and a decimal number below 2 ^ 32, which may have a plus sign.
pub clang_candidates_lem :
    (m : Builder) (name : Text) (env : Env)
    → In name (clang_candidates m env)
      ↔ ((name ≡ codes "clang") ⊎ (IsVersioned name × IsAmong m (path_dirs env) name))
clang_candidates_lem m name env =
    let (to, from) = clang_candidates-HasVersion m name env in
    let (vt, vf) = HasVersion-IsVersioned name in
    (
      λ h. elim (to h) [ inl p ↦ inl p | inr (v, a) ↦ inr (vt v, a) ],
      λ h. elim h [ inl p ↦ from (inl p) | inr (v, a) ↦ from (inr (vf v, a)) ],
    )
