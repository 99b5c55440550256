-- ===== src/Njs/Bucket.antt =====
-- The token buckets of core/njs/shield_ws.js. Credit is counted in thousandths of a token, so that
-- the milliseconds of the clock and a whole rate make whole numbers.
use fips_shield.Base.{ℕ, ◌+◌, ◌-◌, ◌*◌, ◌≡◌, refl, Bool, true, false, leb, ltb, if◌then◌else◌}
use fips_shield.Base.Int.{ℤ, pos, negsuc, pos_part, neg_part, sub_ℕ}

pub record Bucket : Type 0 where
  pub rate : ℕ
  pub burst : ℕ
  pub credit : ℤ
  pub t : ℕ

unfoldable pub bucket : ℕ → ℕ → ℕ → Bucket
bucket rate burst now = record { rate = rate; burst = burst; credit = pos (1000 * burst); t = now }

-- `Math.min(n, c)`
abbrev pub at_most : ℕ → ℤ → ℤ
at_most n (pos c) = if leb n c then pos n else pos c
at_most n (negsuc c) = negsuc c

-- The clock may have been set back; then credit is taken away.
unfoldable pub refill : ℕ → Bucket → ℤ
refill now b =
    at_most (1000 * b.burst)
      (sub_ℕ (pos_part b.credit + (now - b.t) * b.rate) (neg_part b.credit + (b.t - now) * b.rate))

-- Whether a token was there, and the bucket after that.
unfoldable pub take_token : ℕ → Bucket → Bool × Bucket
unfolding refill
take_token now b =
    let c = refill now b in
    if ltb (pos_part c) 1000
    then (false, record b { credit = c; t = now })
    else (true, record b { credit = pos (pos_part c - 1000); t = now })

spends :
    take_token 500 (bucket 4 2 0)
    ≡ (true, record { rate = 4; burst = 2; credit = pos 1000; t = 500 })
unfolding take_token bucket
spends = refl
