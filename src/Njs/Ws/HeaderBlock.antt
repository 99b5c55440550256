-- ===== src/Njs/Ws/HeaderBlock.antt =====
-- What `headerBlockEnd` and `hasBareLf` of core/njs/shield_ws.js find, against what they look for.
use fips_shield.Base.{
  ℕ, suc, ◌+◌, ◌≤◌, ◌≡◌, ◌≢◌, refl, ap, subst, ◌∙◌, Bool, true, false, not, ◌&&◌, ◌⊎◌, none, some,
  [], ◌∷◌, ◌++◌, arith, length, take, ◌==◌, Bool-cases, Option-cases, inl, inr,
}
use fips_shield.Std.Utf8.{Bytes}
use fips_shield.Njs.Ws.{block_end, header_block_end, bare_lf, has_bare_lf}

-- An LF, and behind it an empty line, which may end with CR and LF, and ends after so many bytes.
abbrev pub EndsAt : Bytes → ℕ → Type 0
EndsAt s n =
    (p : Bytes) × (r : Bytes) × (((s ≡ p ++ (10 ∷ 10 ∷ r)) × (n ≡ length p + 2))
      ⊎ ((s ≡ p ++ (10 ∷ 13 ∷ 10 ∷ r)) × (n ≡ length p + 3)))

-- It is the first one.
abbrev pub IsFirstEnd : Bytes → ℕ → Type 0
IsFirstEnd s n = EndsAt s n × ((m : ℕ) → EndsAt s m → n ≤ m)

-- Whether the last byte is a CR; `cr` tells of the byte before these.
abbrev pub after_cr : Bool → Bytes → Bool
after_cr cr [] = cr
after_cr cr (c ∷ p) = after_cr (c == 13) p

-- An LF that stands at the start or behind another byte than CR.
abbrev pub HasBareLf : Bytes → Type 0
HasBareLf s = (p : Bytes) × (r : Bytes) × (s ≡ p ++ (10 ∷ r)) × (after_cr false p ≡ false)

bare_lf-true :
    (cr : Bool) (s : Bytes)
    → bare_lf cr s ≡ true
    → (p : Bytes) × (r : Bytes) × (s ≡ p ++ (10 ∷ r)) × (after_cr cr p ≡ false)
unfolding bare_lf
bare_lf-true cr [] h = absurd (ground arith)
bare_lf-true cr (c ∷ s) h = elim (Bool-cases (c == 10 && not cr)) [
  | inl e ↦ ([], s, ground arith, ground arith)
  | inr e ↦
      let (p, r, q, a) = bare_lf-true (c == 13) s (ground arith) in (c ∷ p, r, ap (λ t. c ∷ t) q, a)
]

bare_lf-at : (cr : Bool) (p r : Bytes) → after_cr cr p ≡ false → bare_lf cr (p ++ (10 ∷ r)) ≡ true
unfolding bare_lf
bare_lf-at cr [] r h = ground arith
bare_lf-at cr (c ∷ p) r h = ground (arith, bare_lf-at (c == 13) p r h)

pub has_bare_lf-true : (s : Bytes) (n : ℕ) → has_bare_lf s n ≡ true → HasBareLf (take n s)
unfolding has_bare_lf
has_bare_lf-true s n h = bare_lf-true false (take n s) h

pub has_bare_lf-false : (s : Bytes) (n : ℕ) → has_bare_lf s n ≡ false → ¬ HasBareLf (take n s)
unfolding has_bare_lf
has_bare_lf-false s n h (p, r, e, a) =
    let found : bare_lf false (take n s) ≡ true = ap (bare_lf false) e ∙ bare_lf-at false p r a in
    ground arith

-- An end is at the front or further on.
data EndCases (c : ℕ) (s : Bytes) (n : ℕ) : Type 0 where
  lf : (r : Bytes) → c ∷ s ≡ 10 ∷ 10 ∷ r → n ≡ 2 → EndCases c s n
  crlf : (r : Bytes) → c ∷ s ≡ 10 ∷ 13 ∷ 10 ∷ r → n ≡ 3 → EndCases c s n
  later : (m : ℕ) → n ≡ suc m → EndsAt s m → EndCases c s n

no_end_of_nil : (n : ℕ) → ¬ EndsAt [] n
no_end_of_nil n ([], r, inl (e, q)) = cc
no_end_of_nil n ([], r, inr (e, q)) = cc
no_end_of_nil n (c ∷ p, r, inl (e, q)) = cc
no_end_of_nil n (c ∷ p, r, inr (e, q)) = cc

end_cases : (c : ℕ) (s : Bytes) (n : ℕ) → EndsAt (c ∷ s) n → EndCases c s n
end_cases c s n ([], r, inl (e, q)) = lf r e (omega (arith, q))
end_cases c s n ([], r, inr (e, q)) = crlf r e (omega (arith, q))
end_cases c s n (d ∷ p, r, inl (e, q)) =
    later (length p + 2) (omega (arith, q)) (p, r, inl (cc, refl))
end_cases c s n (d ∷ p, r, inr (e, q)) =
    later (length p + 3) (omega (arith, q)) (p, r, inr (cc, refl))

end_later : (c : ℕ) (s : Bytes) (n : ℕ) → EndsAt s n → EndsAt (c ∷ s) (suc n)
end_later c s n (p, r, inl (e, q)) = (c ∷ p, r, inl (ap (λ t. c ∷ t) e, omega (arith, q)))
end_later c s n (p, r, inr (e, q)) = (c ∷ p, r, inr (ap (λ t. c ∷ t) e, omega (arith, q)))

-- A search in vain.
block_end-none : (s : Bytes) (i : ℕ) → block_end i s ≡ none → (n : ℕ) → ¬ EndsAt s n
unfolding block_end
block_end-none [] i h n x = no_end_of_nil n x
block_end-none (a ∷ []) i h n x = elim (end_cases a [] n x) [
  | lf r e q ↦ cc
  | crlf r e q ↦ cc
  | later m q y ↦ no_end_of_nil m y
]
block_end-none (a ∷ b ∷ []) i h n x = elim (end_cases a (b ∷ []) n x) [
  | lf r e q ↦ let x : a ≡ 10 = cc in let y : b ≡ 10 = cc in ground arith
  | crlf r e q ↦ cc
  | later m q y ↦ block_end-none (b ∷ []) i (unfold block_end in refl) m y
]
block_end-none (a ∷ b ∷ c ∷ s) i h n x = elim (end_cases a (b ∷ c ∷ s) n x) [
  | lf r e q ↦ let x : a ≡ 10 = cc in let y : b ≡ 10 = cc in ground arith
  | crlf r e q ↦ let x : a ≡ 10 = cc in let y : b ≡ 13 = cc in let z : c ≡ 10 = cc in ground arith
  | later m q y ↦ block_end-none (b ∷ c ∷ s) (i + 1) (ground arith) m y
]

-- No end is shorter than two bytes, and one of two bytes is two LF.
end_ge : (s : Bytes) (n : ℕ) → EndsAt s n → 2 ≤ n
end_ge s n (p, r, inl (e, q)) = omega (arith, q)
end_ge s n (p, r, inr (e, q)) = omega (arith, q)

first_lf : (a b : ℕ) (s : Bytes) → (a == 10) ≡ true → (b == 10) ≡ true → IsFirstEnd (a ∷ b ∷ s) 2
first_lf a b s f g =
    let x : a ≡ 10 = ground arith in
    let y : b ≡ 10 = ground arith in (([], s, inl (cc, omega arith)), λ m z. end_ge (a ∷ b ∷ s) m z)

first_crlf :
    (a b c : ℕ) (s : Bytes)
    → (a == 10) ≡ true
    → (b == 13 && c == 10) ≡ true
    → IsFirstEnd (a ∷ b ∷ c ∷ s) 3
first_crlf a b c s f g =
    let x : a ≡ 10 = ground arith in
    let y : b ≡ 13 = ground arith in
    let w : c ≡ 10 = ground arith in
    (
      ([], s, inr (cc, omega arith)),
      λ m z. elim (end_cases a (b ∷ c ∷ s) m z) [
        | lf r e q ↦ let v : b ≡ 10 = cc in absurd (omega (arith, v, y))
        | crlf r e q ↦ omega (arith, q)
        | later k q u ↦ omega (arith, q, end_ge (b ∷ c ∷ s) k u)
      ],
    )

-- The first end of bytes whose front is none.
first_later :
    (c : ℕ) (s : Bytes) (n : ℕ)
    → ((r : Bytes) → c ∷ s ≢ 10 ∷ 10 ∷ r)
    → ((r : Bytes) → c ∷ s ≢ 10 ∷ 13 ∷ 10 ∷ r)
    → IsFirstEnd s n
    → IsFirstEnd (c ∷ s) (suc n)
first_later c s n f g (x, least) = (
  end_later c s n x,
  λ m y. elim (end_cases c s m y) [
    | lf r e q ↦ absurd (f r e)
    | crlf r e q ↦ absurd (g r e)
    | later k q z ↦ omega (arith, q, least k z)
  ],
)

-- What a search finds.
block_end-some :
    (s : Bytes) (i e : ℕ) → block_end i s ≡ some e → (n : ℕ) × (e ≡ i + n) × IsFirstEnd s n
unfolding block_end
block_end-some [] i e h = absurd (ground arith)
block_end-some (a ∷ []) i e h = absurd (ground arith)
block_end-some (a ∷ b ∷ []) i e h = (2, ground arith, first_lf a b [] (ground arith) (ground arith))
block_end-some (a ∷ b ∷ c ∷ s) i e h = elim (Bool-cases (a == 10)) [
  | inr f ↦
      let (n, q, x) = block_end-some (b ∷ c ∷ s) (i + 1) e (ground arith) in
      (
        suc n,
        omega (arith, q),
        first_later a (b ∷ c ∷ s) n (λ r p. let x : a ≡ 10 = cc in ground arith)
            (λ r p. let x : a ≡ 10 = cc in ground arith) x,
      )
  | inl f ↦ elim (Bool-cases (b == 10)) [
    | inl g ↦ (2, ground arith, first_lf a b (c ∷ s) f g)
    | inr g ↦ elim (Bool-cases (b == 13 && c == 10)) [
      | inl k ↦ (3, ground arith, first_crlf a b c s f k)
      | inr k ↦
          let (n, q, x) = block_end-some (b ∷ c ∷ s) (i + 1) e (ground arith) in
          (
            suc n,
            omega (arith, q),
            first_later a (b ∷ c ∷ s) n (λ r p. let x : b ≡ 10 = cc in ground arith)
                (λ r p. let x : b ≡ 13 = cc in let y : c ≡ 10 = cc in ground arith) x,
          )
    ]
  ]
]

-- The search of all bytes.
pub header_block_end-some : (s : Bytes) (n : ℕ) → header_block_end s 0 ≡ some n → IsFirstEnd s n
unfolding header_block_end
header_block_end-some s n h =
    let (m, q, x) = block_end-some s 0 n h in subst (IsFirstEnd s) (omega (arith, q)) x

pub header_block_end-none : (s : Bytes) (n : ℕ) → header_block_end s 0 ≡ none → ¬ EndsAt s n
unfolding header_block_end
header_block_end-none s n h = block_end-none s 0 h n

-- Without an end the search is in vain.
pub header_block_end-vain : (s : Bytes) → ((n : ℕ) → ¬ EndsAt s n) → header_block_end s 0 ≡ none
header_block_end-vain s h = elim (Option-cases (header_block_end s 0)) [
  | inl e ↦ e
  | inr (n, e) ↦ absurd (h n (header_block_end-some s n e).0)
]
