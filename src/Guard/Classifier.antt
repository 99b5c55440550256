-- ===== src/Guard/Classifier.antt =====
-- The classifier, guard/bpf/shield_guard.bpf.c: one call for each inbound packet.
pub mod Rate
pub mod Counts
use fips_shield.Base.{
  ℕ, ◌+◌, ◌-◌, ◌*◌, ◌/◌, ◌%◌, ◌^◌, Bool, true, false, ◌||◌, Option, none, some, ltb, ◌==◌,
  if◌then◌else◌,
}
use fips_shield.Guard.Kernel.{
  Addr6, Bucket, Config, Platform, st_passed, st_dropped_ban, st_dropped_throttle, st_not_ipv6,
  st_parse_failed,
}

pub data Action : Type 0 where
  act_ok act_shot : Action

-- `protocol` is in network byte order; `saddr` is what `load_saddr` reads, or its failure.
pub record Packet : Type 0 where
  pub protocol : ℕ
  pub saddr : Option Addr6

-- `__builtin_bswap16(ETH_P_IPV6)`
abbrev pub eth_p_ipv6 : ℕ
eth_p_ipv6 = 0xdd86

abbrev pub u64_mod : ℕ
u64_mod = 2 ^ 64

-- The credit after a refill of `rate_pps` for each whole millisecond, at most `cap`; u64 arithmetic.
unfoldable pub refill : ℕ → ℕ → ℕ → Bucket → Bucket
refill rate cap now b =
    let elapsed_ms = (now + u64_mod - b.last_ns) % u64_mod / 1_000_000 in
    let tokens = (b.tokens_milli + elapsed_ms * rate % u64_mod) % u64_mod in
    if elapsed_ms == 0
    then b
    else record { tokens_milli = if ltb cap tokens then cap else tokens; last_ns = now }

-- The bucket of a source's first packet, which passes.
unfoldable pub fresh_bucket : ℕ → ℕ → Bucket
fresh_bucket cap now = record {
  tokens_milli = if ltb 1000 cap then cap - 1000 else 0;
  last_ns = now;
}

-- A later packet: whether it passes, and the bucket after it.
unfoldable pub take_token : ℕ → ℕ → ℕ → Bucket → Bool × Bucket
unfolding refill
take_token rate cap now b =
    let r = refill rate cap now b in
    if ltb r.tokens_milli 1000
    then (false, r)
    else (true, record r { tokens_milli = r.tokens_milli - 1000 })

abbrev pub burst_cap : Config → ℕ
burst_cap cfg = cfg.burst_pkts * 1000 % u64_mod

module _ (P : Platform) where
  -- The maps of the loaded program.
  pub record Loaded : Type 0 where
    pub bans : P.Bans
    pub throttle : P.Throttle
    pub config : P.Configs
    pub stats : P.Stats

module _ {P : Platform} where
  abbrev bump : ℕ → Loaded P → Loaded P
  bump slot k = record k { stats = P.stats_bump k.stats slot }

  -- The throttle, for a source that is not banned.
  unfoldable pub throttle_packet : Addr6 → ℕ → Config → Loaded P → Action × Loaded P
  unfolding fresh_bucket take_token
  throttle_packet src now cfg k = elim (P.throttle_get k.throttle src) [
    | none ↦ (
      act_ok,
      bump st_passed (record k {
        throttle = P.throttle_update k.throttle src (fresh_bucket (burst_cap cfg) now);
      }),
    )
    | some b ↦
        let (passes, b') = take_token cfg.rate_pps (burst_cap cfg) now b in
        let k' : Loaded P = record k { throttle = P.throttle_store k.throttle src b' } in
        if passes then (act_ok, bump st_passed k') else (act_shot, bump st_dropped_throttle k')
  ]

  unfoldable pub unbanned_packet : Addr6 → ℕ → Loaded P → Action × Loaded P
  unfolding throttle_packet
  unbanned_packet src now k = elim (P.config_get k.config) [
    | none ↦ (act_ok, bump st_passed k)
    | some cfg ↦
        if cfg.rate_pps == 0 then (act_ok, bump st_passed k) else throttle_packet src now cfg k
  ]

  -- `bpf_map_lookup_elem` of the ban, and the test of its expiry
  unfoldable pub is_banned : Addr6 → ℕ → Loaded P → Bool
  is_banned src now k = elim (P.ban_get k.bans src) [
    | none ↦ false
    | some v ↦ v.expires_mono_ns == 0 || ltb now v.expires_mono_ns
  ]

  unfoldable pub shield_guard : Packet → ℕ → Loaded P → Action × Loaded P
  unfolding is_banned
  shield_guard skb now k =
      if skb.protocol == eth_p_ipv6
      then elim skb.saddr [
        | none ↦ (act_ok, bump st_parse_failed k)
        | some src ↦
            if is_banned src now k
            then (act_shot, bump st_dropped_ban k)
            else unbanned_packet src now k
      ]
      else (act_ok, bump st_not_ipv6 k)
