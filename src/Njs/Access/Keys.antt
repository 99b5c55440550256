-- ===== src/Njs/Access/Keys.antt =====
-- The keys of the counters of connections: different connections that are counted apart have
-- different keys.
use fips_shield.Base.{
  ℕ, ◌≡◌, ◌≢◌, refl, subst, [], ◌∷◌, ◌++◌, All, arith, ◌==◌, Bool-cases, inl, inr,
}
use fips_shield.Std.Text.{Text}
use fips_shield.Std.Number.{to_text, to_text-IsDigit, IsDigit}
use fips_shield.Njs.Access.{window_text, conn_key}

-- A character of a port: neither a colon nor an underscore.
abbrev pub IsPortChar : ℕ → Type 0
IsPortChar c = (c ≢ b':') × (c ≢ b'_')

-- No colon stands in a text.
abbrev NoColon : Text → Type 0
NoColon s = All (λ c. c ≢ b':') s

digits-NoColon : (s : Text) → All IsDigit s → NoColon s
digits-NoColon [] h = tt
digits-NoColon (c ∷ s) h = (λ e. omega (arith, h.0, e), digits-NoColon s h.1)

pub port-NoColon : (s : Text) → All IsPortChar s → NoColon s
port-NoColon [] h = tt
port-NoColon (c ∷ s) h = (h.0.0, port-NoColon s h.1)

pub window_text-NoColon : (now window : ℕ) → NoColon (window_text now window)
unfolding window_text
window_text-NoColon now window = elim (Bool-cases (window == 0)) [
  | inl e ↦ rw e (ground arith)
  | inr e ↦ rw e (digits-NoColon (to_text _) (to_text-IsDigit _))
]

-- The first colon.
first_colon :
    (p q r s : Text) → NoColon p → NoColon q → p ++ (b':' ∷ r) ≡ q ++ (b':' ∷ s) → (p ≡ q) × (r ≡ s)
first_colon [] [] r s hp hq e = (refl, cc)
first_colon [] (d ∷ q) r s hp hq e = let x : d ≡ b':' = cc in absurd (hq.0 x)
first_colon (c ∷ p) [] r s hp hq e = let x : c ≡ b':' = cc in absurd (hp.0 x)
first_colon (c ∷ p) (d ∷ q) r s hp hq e =
    let rest : p ++ (b':' ∷ r) ≡ q ++ (b':' ∷ s) = cc in
    let (pq, rs) = first_colon p q r s hp.1 hq.1 rest in (cc, rs)

-- A text with a colon in it has one.
colon_inside : (a w : Text) → ¬ NoColon (a ++ (b':' ∷ w))
colon_inside [] w h = h.0 refl
colon_inside (c ∷ a) w h = colon_inside a w h.1

-- The last colon.
last_colon :
    (a b v w : Text) → NoColon v → NoColon w → a ++ (b':' ∷ v) ≡ b ++ (b':' ∷ w) → (a ≡ b) × (v ≡ w)
last_colon [] [] v w hv hw e = (refl, cc)
last_colon [] (d ∷ b) v w hv hw e =
    let x : v ≡ b ++ (b':' ∷ w) = cc in absurd (colon_inside b w (subst NoColon x hv))
last_colon (c ∷ a) [] v w hv hw e =
    let x : w ≡ a ++ (b':' ∷ v) = cc in absurd (colon_inside a v (subst NoColon x hw))
last_colon (c ∷ a) (d ∷ b) v w hv hw e =
    let rest : a ++ (b':' ∷ v) ≡ b ++ (b':' ∷ w) = cc in
    let (ab, vw) = last_colon a b v w hv hw rest in (cc, vw)

-- A key says its port, its address and its window.
pub conn_key_inj :
    (p q a b v w : Text)
    → All IsPortChar p
    → All IsPortChar q
    → NoColon v
    → NoColon w
    → conn_key p a v ≡ conn_key q b w
    → (p ≡ q) × ((a ≡ b) × (v ≡ w))
unfolding conn_key
conn_key_inj p q a b v w hp hq hv hw e =
    let (pq, rest) =
      first_colon p q (a ++ (b':' ∷ v)) (b ++ (b':' ∷ w)) (port-NoColon p hp) (port-NoColon q hq)
        e in
    (pq, last_colon a b v w hv hw rest)

colon_apart : ¬ (◌≡◌ {A = ℕ} b':' b'_')
colon_apart e = omega (arith, e)

-- A key is not that of a warning.
pub conn_key_ne : (p a w k : Text) → All IsPortChar p → conn_key p a w ≢ b'_' ∷ k
unfolding conn_key
conn_key_ne [] a w k hp e = absurd (colon_apart cc)
conn_key_ne (c ∷ p) a w k hp e = let x : c ≡ b'_' = cc in absurd (hp.0.1 x)
