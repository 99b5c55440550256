-- ===== src/Guard/Classifier/Counts.antt =====
-- What one call of the classifier (guard/bpf/shield_guard.bpf.c) does to its maps.
use fips_shield.Base.{
  ℕ, ◌≡◌, ◌<◌, refl, Bool, true, ◌||◌, some, ◌==◌, arith, Bool-cases, Option-cases, inl, inr,
  if◌then◌else◌,
}
use fips_shield.Guard.Kernel.{
  Addr6, Config, Platform, st_passed, st_dropped_ban, st_dropped_throttle, st_not_ipv6,
  st_parse_failed,
}
use fips_shield.Guard.Classifier.{
  Action, act_ok, act_shot, Packet, eth_p_ipv6, Loaded, take_token, burst_cap, throttle_packet,
  unbanned_packet, is_banned, shield_guard,
}

-- The slots that count drops.
abbrev pub counts_drop : ℕ → Bool
counts_drop slot = slot == st_dropped_ban || slot == st_dropped_throttle

module _ {P : Platform} where
  -- One counter went up, and the verdict goes with it; bans and configuration are as they were.
  abbrev pub Counted : Loaded P → Action × Loaded P → Type 0
  Counted k r =
      (slot : ℕ) × (slot < 5)
      × (r.1.stats ≡ P.stats_bump k.stats slot)
      × (r.0 ≡ (if counts_drop slot then act_shot else act_ok))
      × (r.1.bans ≡ k.bans)
      × (r.1.config ≡ k.config)

  throttle_packet-Counted :
      (src : Addr6) (now : ℕ) (cfg : Config) (k : Loaded P)
      → Counted k (throttle_packet {P = P} src now cfg k)
  unfolding throttle_packet
  throttle_packet-Counted src now cfg k = elim (Option-cases (P.throttle_get k.throttle src)) [
    | inl e ↦ rw (e, throttle_packet) (st_passed, omega arith, refl, refl, refl, refl)
    | inr (b, e) ↦ elim (Bool-cases (take_token cfg.rate_pps (burst_cap cfg) now b).0) [
      | inl p ↦ rw (e, p, throttle_packet) (st_passed, omega arith, refl, refl, refl, refl)
      | inr p ↦
          rw (e, p, throttle_packet) (st_dropped_throttle, omega arith, refl, refl, refl, refl)
    ]
  ]

  unbanned_packet-Counted :
      (src : Addr6) (now : ℕ) (k : Loaded P) → Counted k (unbanned_packet {P = P} src now k)
  unfolding unbanned_packet
  unbanned_packet-Counted src now k = elim (Option-cases (P.config_get k.config)) [
    | inl e ↦ rw (e, unbanned_packet) (st_passed, omega arith, refl, refl, refl, refl)
    | inr (cfg, e) ↦ elim (Bool-cases (cfg.rate_pps == 0)) [
      | inl z ↦ rw (e, z, unbanned_packet) (st_passed, omega arith, refl, refl, refl, refl)
      | inr z ↦ rw (e, z, unbanned_packet) (throttle_packet-Counted src now cfg k)
    ]
  ]

  ipv6_packet-Counted :
      (src : Addr6) (now : ℕ) (skb : Packet) (k : Loaded P)
      → (skb.protocol == eth_p_ipv6) ≡ true
      → skb.saddr ≡ some src
      → Counted k (shield_guard {P = P} skb now k)
  unfolding shield_guard
  ipv6_packet-Counted src now skb k i e = elim (Bool-cases (is_banned {P = P} src now k)) [
    | inl b ↦ rw (i, e, b, shield_guard) (st_dropped_ban, omega arith, refl, refl, refl, refl)
    | inr b ↦ rw (i, e, b, shield_guard) (unbanned_packet-Counted src now k)
  ]

-- Every packet is counted in one of the five slots, and is dropped exactly if that is the slot of drops for a
-- ban or that of drops by the throttle; the maps of bans and of the configuration do not change.
pub shield_guard-Counted :
    (P : Platform) (skb : Packet) (now : ℕ) (k : Loaded P)
    → Counted k (shield_guard {P = P} skb now k)
unfolding shield_guard
shield_guard-Counted P skb now k = elim (Bool-cases (skb.protocol == eth_p_ipv6)) [
  | inr i ↦ rw (i, shield_guard) (st_not_ipv6, omega arith, refl, refl, refl, refl)
  | inl i ↦ elim (Option-cases skb.saddr) [
    | inl e ↦ rw (i, e, shield_guard) (st_parse_failed, omega arith, refl, refl, refl, refl)
    | inr (src, e) ↦ ipv6_packet-Counted src now skb k i e
  ]
]
