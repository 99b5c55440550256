-- ===== src/Guard/Enforce.antt =====
-- The ban commands of guard/src/main.rs against the verdicts of guard/bpf/shield_guard.bpf.c, which
-- read the same map of bans.
use fips_shield.Base.{
  zero, suc, ℕ, ◌≤◌, ◌≡◌, refl, Bool, false, ◌||◌, Option, none, some, arith, ltb, ◌==◌,
  if◌then◌else◌, ok,
}
use fips_shield.Base.Int.{pos, negsuc, ℤ, is_nonpos, magnitude}
use fips_shield.Std.Text.{Text, text_eq_refl}
use fips_shield.Guard.Kernel.{Addr6, BanVal, Platform, BansLaws, addr_eq, st_dropped_ban}
use fips_shield.Guard.Cmd.{World, mono_at, parse_v6, saturating_add, saturating_mul}
use fips_shield.Guard.Bans.{is_expired, cmd_ban}
use fips_shield.Guard.Bans.Prune.{unexpired, get-prune}
use fips_shield.Guard.Bans.Ban.{Into, at_once, after_sweep, value_at, cmd_ban_inv}
use fips_shield.Guard.Classifier.{
  Packet, Loaded, act_shot, eth_p_ipv6, shield_guard, is_banned, unbanned_packet,
}

-- A packet over IPv6 from `a`.
abbrev pub packet_from : Addr6 → Packet
packet_from a = record { protocol = eth_p_ipv6; saddr = some a }

-- Whether a ban of `seconds`, made when the monotonic clock said `start`, holds at `now`.
abbrev pub lasts : ℤ → ℕ → ℕ → Bool
lasts seconds start now =
    is_nonpos seconds
    || ltb now (saturating_add start (saturating_mul (magnitude seconds) 1_000_000_000))

value_at-lasts :
    (P : Platform) (w : World P) (seconds : ℤ) (now : ℕ)
    → ((value_at {P = P} w seconds).expires_mono_ns == 0
        || ltb now (value_at {P = P} w seconds).expires_mono_ns)
      ≡ lasts seconds (mono_at P w.readings) now
value_at-lasts P w (pos zero) now = refl
value_at-lasts P w (pos (suc n)) now = ground arith
value_at-lasts P w (negsuc n) now = refl

-- The classifier's test of an entry.
abbrev pub blocks : ℕ → Option BanVal → Bool
blocks now o = elim o [
  | none ↦ false
  | some v ↦ v.expires_mono_ns == 0 || ltb now v.expires_mono_ns
]

pub blocks-unexpired :
    (t now : ℕ) (o : Option BanVal) → t ≤ now → blocks now (unexpired t o) ≡ blocks now o
unfolding is_expired
blocks-unexpired t now none h = refl
blocks-unexpired t now (some v) h = ground arith

module _ (P : Platform) (L : BansLaws P) where
  get-Into :
      (bans m0 : P.Bans) (w1 : World P) (j : Addr6) (now : ℕ)
      → Into {P = P} bans w1 m0
      → mono_at P w1.readings ≤ now
      → blocks now (P.ban_get m0 j) ≡ blocks now (P.ban_get bans j)
  get-Into bans m0 w1 j now (at_once e) h = rw e
  get-Into bans m0 w1 j now (after_sweep n w2 e) h =
      rw (get-prune P L bans m0 n w1 w2 j e)
        (blocks-unexpired (mono_at P w1.readings) now (P.ban_get bans j) h)

module _ (P : Platform) (L : BansLaws P) (ip : Text) (seconds : ℤ) (a : Addr6)
    (w w' : World P) where
  -- The verdict on the ban, by the map that the ban leaves.
  pub cmd_ban-is_banned :
      parse_v6 ip ≡ ok (some a)
      → cmd_ban {P = P} ip seconds w ≡ (ok tt, w')
      → (m : P.Bans) × (w'.pins.bans ≡ some m)
        × ((k : Loaded P) (now : ℕ)
            → k.bans ≡ m
            → is_banned {P = P} a now k ≡ lasts seconds (mono_at P w.readings) now)
  unfolding is_banned
  cmd_ban-is_banned p h =
      let (bans, m, m0, w1, e, i, b, into, le) = cmd_ban_inv ip seconds a w w' p h in
      (
        m,
        b,
        λ k now q.
            let g : P.ban_get k.bans a ≡ some (value_at {P = P} w seconds) =
              rw (q, L.get-insert m0 a a (value_at {P = P} w seconds) m i, text_eq_refl a) in
            rw (is_banned, g) (value_at-lasts P w seconds now),
      )

  -- After a ban of an IPv6 address that reports success, a classifier that reads the pinned map of
  -- bans drops every packet from that address, and counts it as dropped for a ban, as long as the
  -- ban lasts by the command's first reading of the monotonic clock; afterwards it treats the
  -- packet as one from an address that has no ban.
  pub cmd_ban-shield_guard :
      (k : Loaded P) (now : ℕ)
      → parse_v6 ip ≡ ok (some a)
      → cmd_ban {P = P} ip seconds w ≡ (ok tt, w')
      → w'.pins.bans ≡ some k.bans
      → shield_guard {P = P} (packet_from a) now k ≡ (
          if lasts seconds (mono_at P w.readings) now
          then (act_shot, record k { stats = P.stats_bump k.stats st_dropped_ban })
          else unbanned_packet {P = P} a now k)
  unfolding shield_guard
  cmd_ban-shield_guard k now p h kb =
      let (m, b, verdict) = cmd_ban-is_banned p h in
      let banned : is_banned {P = P} a now k ≡ lasts seconds (mono_at P w.readings) now =
        verdict k now (ground arith) in
      rw banned

  -- After a ban of an IPv6 address that reports success, the classifier's verdict on the ban of
  -- every other address is what it was before the command, at any time that is not before a
  -- reading of the clock made so far, whether or not the command had to sweep the map.
  pub cmd_ban-is_banned_ne :
      (j : Addr6) (now : ℕ) (k k' : Loaded P)
      → parse_v6 ip ≡ ok (some a)
      → cmd_ban {P = P} ip seconds w ≡ (ok tt, w')
      → addr_eq j a ≡ false
      → ((i : ℕ) → i ≤ w'.readings → mono_at P i ≤ now)
      → w.pins.bans ≡ some k.bans
      → w'.pins.bans ≡ some k'.bans
      → is_banned {P = P} j now k' ≡ is_banned {P = P} j now k
  unfolding is_banned
  cmd_ban-is_banned_ne j now k k' p h ne clock before after =
      let (bans, m, m0, w1, e, i, b, into, le) = cmd_ban_inv ip seconds a w w' p h in
      let at_m : P.ban_get m j ≡ P.ban_get m0 j =
        rw (L.get-insert m0 a j (value_at {P = P} w seconds) m i, ne) in
      ground (arith, at_m, e, b, get-Into P L bans m0 w1 j now into (clock w1.readings le))
