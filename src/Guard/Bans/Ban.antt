-- ===== src/Guard/Bans/Ban.antt =====
-- What a ban leaves in the map (`cmd_ban`).
use fips_shield.Guard.Bans.Prune.{prune_inv}
use fips_shield.Guard.Bans.{
  parse_v6, Text, ban_address, cmd_ban, prune_expired, ban_value, sweep, insert_ban,
}
use fips_shield.Base.{
  zero, suc, ℕ, ◌+◌, ◌≤◌, ◌≡◌, inl, inr, refl, none, some, arith, if◌then◌else◌, Result, ok, err,
  Option-cases,
}
use fips_shield.Base.Int.{ℤ, pos, negsuc, is_nonpos, magnitude}
use fips_shield.Guard.Kernel.{Addr6, BanVal, Platform}
use fips_shield.Guard.Cmd.{World, mono_at, epoch_at, Error, saturating_add, saturating_mul}

-- The map that an insertion went into: the one at hand, or that after a sweep.
pub data Into {P : Platform} (bans : P.Bans) (w : World P) (m0 : P.Bans) : Type 0 where
  at_once : m0 ≡ bans → Into bans w m0
  after_sweep :
      (n : ℕ) (w1 : World P) → prune_expired {P = P} bans w ≡ (ok (n, m0), w1) → Into bans w m0

module _ {P : Platform} where
  pub sweep_inv :
      (bans m : P.Bans) (n : ℕ) (w w' : World P)
      → sweep {P = P} bans w ≡ (ok (n, m), w')
      → prune_expired {P = P} bans w ≡ (ok (n, m), w')
  unfolding sweep
  sweep_inv bans m n w w' h = go (prune_expired {P = P} bans w) refl
    where
      go :
          (r : Result Error (ℕ × P.Bans) × World P)
          → prune_expired {P = P} bans w ≡ r
          → prune_expired {P = P} bans w ≡ (ok (n, m), w')
      go (ok p, v) e = ground arith
      go (err f, v) e = ground arith

  readings_of_sweep :
      (bans m : P.Bans) (n : ℕ) (w w' : World P)
      → sweep {P = P} bans w ≡ (ok (n, m), w')
      → w'.readings ≡ w.readings + 1
  readings_of_sweep bans m n w w' h =
      let (_, _, _, _, _, r) = prune_inv P bans m n w w' (sweep_inv bans m n w w' h) in r

  insert_ban_inv :
      (key : Addr6) (val : BanVal) (bans : P.Bans) (w w' : World P)
      → insert_ban {P = P} key val bans w ≡ (ok tt, w')
      → (m m0 : P.Bans) × (P.ban_insert m0 key val ≡ some m)
        × (w'.pins.bans ≡ some m)
        × Into {P = P} bans w m0
        × (w.readings ≤ w'.readings)
  unfolding insert_ban
  insert_ban_inv key val bans w w' h = elim (Option-cases (P.ban_insert bans key val)) [
    | inr (m, e) ↦ (m, bans, e, ground arith, at_once refl, ground arith)
    | inl e ↦ go e (sweep {P = P} bans w) refl
  ]
    where
      go :
          P.ban_insert bans key val ≡ none
          → (r : Result Error (ℕ × P.Bans) × World P) → sweep {P = P} bans w ≡ r
          → (m m0 : P.Bans) × (P.ban_insert m0 key val ≡ some m)
            × (w'.pins.bans ≡ some m)
            × Into {P = P} bans w m0
            × (w.readings ≤ w'.readings)
      go i (ok (n, m0), v) e = elim (Option-cases (P.ban_insert m0 key val)) [
        | inr (m, j) ↦ (
          m,
          m0,
          j,
          ground arith,
          after_sweep n v (sweep_inv bans m0 n w v e),
          ground (arith, readings_of_sweep bans m0 n w v e),
        )
        | inl j ↦ absurd (ground arith)
      ]
      go i (err f, v) e = absurd (ground arith)

  -- The value that a ban of so many seconds stores, from the clocks at a reading.
  abbrev pub value_at : World P → ℤ → BanVal
  value_at w seconds =
      if is_nonpos seconds then record { expires_mono_ns = 0; expires_epoch_s = 0 } else record {
        expires_mono_ns =
            saturating_add (mono_at P w.readings)
              (saturating_mul (magnitude seconds) 1_000_000_000);
        expires_epoch_s = saturating_add (epoch_at P (w.readings + 1)) (magnitude seconds);
      }

  pub ban_value_lem :
      (seconds : ℤ) (w : World P)
      → ((ban_value {P = P} seconds w).0 ≡ ok (value_at w seconds))
        × ((ban_value {P = P} seconds w).1.pins ≡ w.pins)
        × (w.readings ≤ (ban_value {P = P} seconds w).1.readings)
  unfolding ban_value
  ban_value_lem (pos zero) w = ground arith
  ban_value_lem (pos (suc n)) w = ground arith
  ban_value_lem (negsuc n) w = ground arith

  -- What a successful ban of an IPv6 address has done.
  pub cmd_ban_inv :
      (ip : Text) (seconds : ℤ) (a : Addr6) (w w' : World P)
      → parse_v6 ip ≡ ok (some a)
      → cmd_ban {P = P} ip seconds w ≡ (ok tt, w')
      → (bans m m0 : P.Bans) × (w1 : World P) × (w.pins.bans ≡ some bans)
        × (P.ban_insert m0 a (value_at w seconds) ≡ some m)
        × (w'.pins.bans ≡ some m)
        × Into {P = P} bans w1 m0
        × (w1.readings ≤ w'.readings)
  unfolding cmd_ban ban_address
  cmd_ban_inv ip seconds a w w' p h = elim (Option-cases w.pins.bans) [
    | inl e ↦ absurd (ground arith)
    | inr (bans, e) ↦
        go bans e (insert_ban {P = P} a (value_at w seconds) bans (ban_value {P = P} seconds w).1)
          refl
  ]
    where
      go :
          (bans : P.Bans)
          → w.pins.bans ≡ some bans
          → (r : Result Error (Unit {0}) × World P)
          → insert_ban {P = P} a (value_at w seconds) bans (ban_value {P = P} seconds w).1 ≡ r
          → (bans m m0 : P.Bans) × (w1 : World P) × (w.pins.bans ≡ some bans)
            × (P.ban_insert m0 a (value_at w seconds) ≡ some m)
            × (w'.pins.bans ≡ some m)
            × Into {P = P} bans w1 m0
            × (w1.readings ≤ w'.readings)
      go bans e (ok u, w2) q =
          let (m, m0, i, b, into, le) =
            insert_ban_inv a (value_at w seconds) bans (ban_value {P = P} seconds w).1 w2 q in
          (
            bans,
            m,
            m0,
            (ban_value {P = P} seconds w).1,
            e,
            i,
            ground (arith, ban_value_lem seconds w),
            into,
            ground (arith, ban_value_lem seconds w),
          )
      go bans e (err f, w2) q = absurd (ground (arith, ban_value_lem seconds w))
