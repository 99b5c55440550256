-- ===== src/Guard/Stats.antt =====
-- `cmd_stats` of guard/src/main.rs.
use fips_shield.Base.{
  ℕ, ◌+◌, ◌-◌, ◌%◌, ◌^◌, List, [], ◌∷◌, ◌++◌, ltb, if◌then◌else◌, unwrap_or, length,
}
use fips_shield.Std.Text.{Text, codes}
use fips_shield.Std.Number.{to_text}
use fips_shield.Guard.Kernel.{
  Config, Platform, st_passed, st_dropped_ban, st_dropped_throttle, st_not_ipv6, st_parse_failed,
}
use fips_shield.Guard.Cmd.{
  cannot_read, Cmd, ◌>>=◌, ◌>>◌, pure, or_fail, println, bans_map, config_map, stats_map,
}
use fips_shield.Guard.Bans.{prune_expired}

-- `.iter().sum()` of u64
unfoldable pub sum_u64 : List ℕ → ℕ
sum_u64 [] = 0
sum_u64 (n ∷ ns) = (n + sum_u64 ns) % 2 ^ 64

-- The lines, by what they report.
unfoldable pub line_passed : ℕ → Text
line_passed n = codes "passed             " ++ to_text n

unfoldable pub line_dropped_ban : ℕ → Text
line_dropped_ban n = codes "dropped (ban)      " ++ to_text n

unfoldable pub line_dropped_throttle : ℕ → Text
line_dropped_throttle n = codes "dropped (throttle) " ++ to_text n

unfoldable pub line_not_ipv6 : ℕ → Text
line_not_ipv6 n = codes "not ipv6           " ++ to_text n

unfoldable pub line_parse_failed : ℕ → Text
line_parse_failed n = codes "parse failed       " ++ to_text n

unfoldable pub line_throttle : Config → Text
line_throttle cfg =
    if ltb 0 cfg.rate_pps
    then codes "throttle           "
      ++ (to_text cfg.rate_pps ++ (codes " pkt/s per source, burst " ++ to_text cfg.burst_pkts))
    else codes "throttle           disabled"

unfoldable pub line_bans : ℕ → ℕ → ℕ → Text
line_bans active capacity stale =
    codes "bans               "
    ++ (to_text active
        ++ (b'/'
            ∷ (to_text capacity
                ++ (codes " active (" ++ (to_text stale ++ codes " expired reclaimed)")))))

module _ {P : Platform} where
  -- `stats.get(&slot, 0)?.iter().sum()`
  unfoldable pub counter : P.Stats → ℕ → Cmd P ℕ
  unfolding sum_u64
  counter stats slot = do
    values ← or_fail (cannot_read (codes "shield_stats")) (P.stats_get stats slot)
    pure (sum_u64 values)

  unfoldable pub cmd_stats : Cmd P (Unit {0})
  unfolding counter stats_map config_map bans_map
  cmd_stats = do
    stats ← stats_map
    passed ← counter stats st_passed
    println (line_passed passed)
    dropped_ban ← counter stats st_dropped_ban
    println (line_dropped_ban dropped_ban)
    dropped_throttle ← counter stats st_dropped_throttle
    println (line_dropped_throttle dropped_throttle)
    not_ipv6 ← counter stats st_not_ipv6
    println (line_not_ipv6 not_ipv6)
    parse_failed ← counter stats st_parse_failed
    println (line_parse_failed parse_failed)
    configs ← config_map
    cfg ← or_fail (cannot_read (codes "shield_config")) (P.config_get configs)
    println (line_throttle cfg)
    bans ← bans_map
    let capacity = unwrap_or 0 (P.max_entries bans)
    let total = length (P.ban_iter bans)
    pruned ← prune_expired bans
    println (line_bans (total - pruned.0) capacity pruned.0)
