-- ===== src/Guard/Classifier/Rate.antt =====
-- How many packets of a source the token bucket of guard/bpf/shield_guard.bpf.c passes.
use fips_shield.Base.{
  ℕ, ◌+◌, ◌-◌, ◌*◌, ◌/◌, ◌%◌, ◌≤◌, ◌<◌, ◌≡◌, refl, ltb, ◌==◌, List, [], ◌∷◌, arith, if◌then◌else◌,
  Bool-cases, inl, inr, ◌⊎◌,
}
use native.Mathlib.Nat.{add-mul, mul-le-mul_right}
use fips_shield.Guard.Kernel.{Bucket}
use fips_shield.Guard.Classifier.{refill, take_token, u64_mod}

abbrev pub millis : ℕ → ℕ → ℕ
millis from to = (to - from) / 1_000_000

-- The packets of one source that pass, at the times given, and the bucket after them.
abbrev pub take_tokens : ℕ → ℕ → Bucket → List ℕ → ℕ × Bucket
take_tokens rate cap b [] = (0, b)
take_tokens rate cap b (now ∷ times) =
    let (passes, b1) = take_token rate cap now b in
    let (n, b2) = take_tokens rate cap b1 times in ((if passes then 1 else 0) + n, b2)

-- Times in order, from one to another.
abbrev pub Ascending : ℕ → List ℕ → ℕ → Type 0
Ascending from [] to = from ≤ to
Ascending from (t ∷ times) to = (from ≤ t) × Ascending t times to

wrapped_le : (x y : ℕ) → (x + y % u64_mod) % u64_mod ≤ x + y
wrapped_le x y = omega arith

-- What a refill does: nothing, or credit for the time up to now.
refill_cases :
    (rate cap now : ℕ) (b : Bucket)
    → b.last_ns ≤ now
    → now < u64_mod
    → (refill rate cap now b ≡ b)
      ⊎ (((refill rate cap now b).last_ns ≡ now)
          × ((refill rate cap now b).tokens_milli ≤ b.tokens_milli + millis b.last_ns now * rate))
unfolding refill
refill_cases rate cap now b h l =
    let e : (now + u64_mod - b.last_ns) % u64_mod ≡ now - b.last_ns = omega arith in
    rw (e, refill)
      (elim (Bool-cases (millis b.last_ns now == 0)) [
        | inl z ↦ inl (rw z refl)
        | inr n ↦
            inr
              (rw n (refl, ground (arith, wrapped_le b.tokens_milli (millis b.last_ns now * rate))))
      ])

spent :
    (rate cap now : ℕ) (b : Bucket)
    → ((if (take_token rate cap now b).0 then 1 else 0) * 1000
          + (take_token rate cap now b).1.tokens_milli
        ≡ (refill rate cap now b).tokens_milli)
      × ((take_token rate cap now b).1.last_ns ≡ (refill rate cap now b).last_ns)
unfolding take_token
spent rate cap now b = elim (Bool-cases (ltb (refill rate cap now b).tokens_milli 1000)) [
  | inl e ↦ rw (e, take_token) (omega arith, refl)
  | inr e ↦ rw (e, take_token) (ground arith, refl)
]

-- One packet takes no more credit than there was and than the time gave.
take_token_le :
    (rate cap now : ℕ) (b : Bucket)
    → b.last_ns ≤ now
    → now < u64_mod
    → ((if (take_token rate cap now b).0 then 1 else 0) * 1000
          + (take_token rate cap now b).1.tokens_milli
        ≤ b.tokens_milli + millis b.last_ns (take_token rate cap now b).1.last_ns * rate)
      × (b.last_ns ≤ (take_token rate cap now b).1.last_ns)
      × ((take_token rate cap now b).1.last_ns ≤ now)
take_token_le rate cap now b h l =
    let (p, q) = spent rate cap now b in
    rw (p, q)
      (elim (refill_cases rate cap now b h l) [
        | inl e ↦ rw e (omega arith, omega arith, h)
        | inr (e, t) ↦ rw e (t, h, omega arith)
      ])

millis-add :
    (a b c rate : ℕ) → a ≤ b → b ≤ c → millis a b * rate + millis b c * rate ≤ millis a c * rate
millis-add a b c rate h k =
    let le : millis a b + millis b c ≤ millis a c = omega arith in
    omega (arith, add-mul (millis a b) (millis b c) rate, mul-le-mul_right rate le)

le_of_Ascending : (from to : ℕ) (times : List ℕ) → Ascending from times to → from ≤ to
le_of_Ascending from to [] h = h
le_of_Ascending from to (t ∷ times) (h, hs) = omega (arith, le_of_Ascending t to times hs)

Ascending-weaken :
    (from from' to : ℕ) (times : List ℕ)
    → from' ≤ from
    → Ascending from times to
    → Ascending from' times to
Ascending-weaken from from' to [] l h = omega arith
Ascending-weaken from from' to (t ∷ times) l (h, hs) = (omega arith, hs)

-- Over any sequence of packets of one source, at times in order that a u64 holds, the packets
-- that pass and the credit left are paid for by the credit at the start and `rate_pps` thousandths
-- of a packet for each whole millisecond that passed.
pub take_tokens-le :
    (rate cap to : ℕ) (b : Bucket) (times : List ℕ)
    → Ascending b.last_ns times to
    → to < u64_mod
    → (take_tokens rate cap b times).0 * 1000 + (take_tokens rate cap b times).1.tokens_milli
      ≤ b.tokens_milli + millis b.last_ns to * rate
take_tokens-le rate cap to b [] h l = omega arith
take_tokens-le rate cap to b (now ∷ times) (h, hs) l =
    let (p, q, r) =
      take_token_le rate cap now b h (omega (arith, le_of_Ascending now to times hs)) in
    let b1 = (take_token rate cap now b).1 in
    let rest = Ascending-weaken now b1.last_ns to times r hs in
    omega (
      arith,
      p,
      take_tokens-le rate cap to b1 times rest l,
      millis-add b.last_ns b1.last_ns to rate q (le_of_Ascending b1.last_ns to times rest),
    )
