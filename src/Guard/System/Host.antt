-- ===== src/Guard/System/Host.antt =====
-- The commands of guard/src/main.rs that only read the map of bans, or do not open it, against the
-- ban of an address.
use fips_shield.Guard.Cmd.{
  config_map, stats_map, still_attached, PinsOf, Error, World, Cmd, println, ◌>>=◌, ◌>>◌,
  cannot_read, get_world, not_present_after_attach, cannot_create_dir, load_failed, cannot_attach,
}
use fips_shield.Guard.Lifecycle.{
  qdisc_detach, qdisc_add_clsact, on_host, ignore, classifier_attached, write_heartbeat, cmd_status,
  set_config, load_object, cmd_health, cmd_load, attach_classifier, announce, repair, cmd_watchdog,
  cmd_unload, running_config,
}
use fips_shield.Base.{ℕ, ◌≡◌, refl, false, Option, none, some, ◌++◌, arith, unwrap_or, ◌-◌, length}
use fips_shield.Std.Text.{Text, codes}
use fips_shield.Guard.Kernel.{
  Addr6, Platform, PinLaws, BansLaws, st_passed, st_dropped_ban, st_dropped_throttle, st_not_ipv6,
  st_parse_failed,
}
use fips_shield.Guard.Bans.{prune_expired}
use fips_shield.Guard.System.Bans.{KeepsFor-pruned}
use fips_shield.Guard.Stats.{
  line_passed, line_dropped_ban, line_dropped_throttle, line_not_ipv6, line_parse_failed,
  line_throttle, line_bans, counter, cmd_stats,
}
use fips_shield.Guard.Main.{throttle_now}
use fips_shield.Guard.System.Kept.{
  Kept, Keeps, quiet, quiet_cmd, Keeps-bind, ◌then_keeps◌, Keeps-or_fail, Keeps-if, Keeps-bans_map,
  Keeps-println, Keeps-eprintln, Keeps-pure, Keeps-bail,
}

module _ (P : Platform) (a : Addr6) where
  Keeps-on_host : (e : Error) (f : P.Host → Option P.Host) → Keeps P a (on_host {P = P} e f)
  Keeps-on_host e f = record { at = λ w. go w (f w.host) refl }
    where
      go : (w : World P) (o : Option P.Host) → f w.host ≡ o → Kept P a w (on_host {P = P} e f w).1
      go w none q = rw (q, on_host) (quiet P a w w refl (omega arith))
      go w (some h) q = rw (q, on_host) (quiet P a w (record w { host = h }) refl (omega arith))

  Keeps-ignore : {A : Type 0} (m : Cmd P A) → Keeps P a m → Keeps P a (ignore {P = P} m)
  Keeps-ignore m h = record { at = λ w. h.at w }

  classifier_attached-Keeps : (iface : Text) → Keeps P a (classifier_attached {P = P} iface)
  unfolding classifier_attached
  classifier_attached-Keeps iface = quiet_cmd P a (λ w. ground arith) (λ w. ground arith)

  write_heartbeat-Keeps : Keeps P a (write_heartbeat {P = P})
  unfolding write_heartbeat
  write_heartbeat-Keeps = quiet_cmd P a (λ w. ground arith) (λ w. ground arith)

  set_config-Keeps : (rate burst : ℕ) → Keeps P a (set_config {P = P} rate burst)
  unfolding set_config
  set_config-Keeps rate burst = quiet_cmd P a (λ w. ground arith) (λ w. ground arith)

  pub cmd_health-Keeps : (max_age : ℕ) → Keeps P a (cmd_health {P = P} max_age)
  unfolding cmd_health
  cmd_health-Keeps max_age = quiet_cmd P a (λ w. ground arith) (λ w. ground arith)

  announce-Keeps :
      (pin_dir iface : Text) (rate burst : ℕ)
      → Keeps P a (announce {P = P} pin_dir iface rate burst)
  unfolding announce
  announce-Keeps pin_dir iface rate burst = quiet_cmd P a (λ w. ground arith) (λ w. ground arith)

  pub throttle_now-Keeps :
      (pin_dir : Text) (render : Error → Text) (rate burst : ℕ)
      → Keeps P a (throttle_now {P = P} pin_dir render rate burst)
  unfolding throttle_now set_config
  throttle_now-Keeps pin_dir render rate burst =
      quiet_cmd P a (λ w. ground arith) (λ w. ground arith)

  pub cmd_status-Keeps : (iface : Text) → Keeps P a (cmd_status {P = P} iface)
  unfolding cmd_status classifier_attached write_heartbeat
  cmd_status-Keeps iface = quiet_cmd P a (λ w. ground arith) (λ w. ground arith)

  pub cmd_unload-Keeps : (pin_dir iface : Text) → Keeps P a (cmd_unload {P = P} pin_dir iface false)
  unfolding cmd_unload
  cmd_unload-Keeps pin_dir iface = quiet_cmd P a (λ w. ground arith) (λ w. ground arith)

module _ (P : Platform) (L : PinLaws P) (a : Addr6) where
  load_object-Keeps : Keeps P a (load_object {P = P})
  unfolding load_object
  load_object-Keeps = record { at = λ w. go w (P.load_object w.host w.pins) refl }
    where
      go :
          (w : World P) (o : Option (P.Host × PinsOf P))
          → P.load_object w.host w.pins ≡ o
          → Kept P a w (load_object {P = P} w).1
      go w none q = rw (q, load_object) (quiet P a w w refl (omega arith))
      go w (some (h, p)) q =
          rw (q, load_object)
            (record {
              later = omega arith;
              same = λ k e.
                  (k.bans, L.load_object-bans w.host h w.pins p k.bans q e, λ now past. refl);
            })

  attach_classifier-Keeps : (iface : Text) → Keeps P a (attach_classifier {P = P} iface)
  unfolding attach_classifier
  attach_classifier-Keeps iface =
      Keeps-on_host P a cannot_create_dir P.create_dir_all
      then_keeps load_object-Keeps
      then_keeps Keeps-on_host P a load_failed P.load_program
      then_keeps quiet_cmd P a {m = qdisc_add_clsact {P = P} iface} (λ w. refl) (λ w. omega arith)
      then_keeps Keeps-ignore P a (qdisc_detach {P = P} iface)
          (Keeps-on_host P a (still_attached iface) (λ h. P.qdisc_detach h iface))
      then_keeps Keeps-on_host P a (cannot_attach iface) (λ h. P.attach h iface)

  pub cmd_load-Keeps :
      (pin_dir iface : Text) (rate burst : ℕ)
      → Keeps P a (cmd_load {P = P} pin_dir iface rate burst)
  unfolding cmd_load
  cmd_load-Keeps pin_dir iface rate burst =
      attach_classifier-Keeps iface
      then_keeps set_config-Keeps P a rate burst
      then_keeps announce-Keeps P a pin_dir iface rate burst

  repair-Keeps : (pin_dir iface : Text) → Keeps P a (repair {P = P} pin_dir iface)
  unfolding repair
  repair-Keeps pin_dir iface =
      Keeps-eprintln P a
      then_keeps Keeps-bind P a {m = get_world {P = P}}
          (quiet_cmd P a (λ w. refl) (λ w. omega arith))
          (λ w.
            cmd_load-Keeps pin_dir iface (running_config {P = P} w).rate_pps
              (running_config {P = P} w).burst_pkts
            then_keeps Keeps-bind P a (classifier_attached-Keeps P a iface) (λ again.
              Keeps-if P a again (Keeps-pure P a {x = tt})
                (Keeps-bail P a {e = not_present_after_attach iface})
              then_keeps write_heartbeat-Keeps P a
              then_keeps Keeps-eprintln P a {line = codes "watchdog: re-attached to " ++ iface}))

  pub cmd_watchdog-Keeps : (pin_dir iface : Text) → Keeps P a (cmd_watchdog {P = P} pin_dir iface)
  unfolding cmd_watchdog
  cmd_watchdog-Keeps pin_dir iface =
      Keeps-bind P a (classifier_attached-Keeps P a iface)
        (λ attached. Keeps-if P a attached (write_heartbeat-Keeps P a) (repair-Keeps pin_dir iface))

module _ (P : Platform) (L : BansLaws P) (a : Addr6) where
  counter-Keeps : (m : P.Stats) (slot : ℕ) → Keeps P a (counter {P = P} m slot)
  unfolding counter
  counter-Keeps m slot = quiet_cmd P a (λ w. ground arith) (λ w. ground arith)

  stats_map-Keeps : Keeps P a (stats_map {P = P})
  unfolding stats_map
  stats_map-Keeps = quiet_cmd P a (λ w. ground arith) (λ w. ground arith)

  config_map-Keeps : Keeps P a (config_map {P = P})
  unfolding config_map
  config_map-Keeps = quiet_cmd P a (λ w. ground arith) (λ w. ground arith)

  -- The value of a counter, and its line.
  shown-Keeps :
      (m : P.Stats) (slot : ℕ) (line : ℕ → Text) {k : Cmd P (Unit {0})}
      → Keeps P a k
      → Keeps P a (counter {P = P} m slot >>= (λ n. println (line n) >> k))
  shown-Keeps m slot line h =
      Keeps-bind P a (counter-Keeps m slot) (λ n. Keeps-println P a {line = line n} then_keeps h)

  pub cmd_stats-Keeps : Keeps P a (cmd_stats {P = P})
  unfolding cmd_stats
  cmd_stats-Keeps = Keeps-bind P a stats_map-Keeps (λ m. shown-Keeps m st_passed line_passed (
      shown-Keeps m st_dropped_ban line_dropped_ban (
        shown-Keeps m st_dropped_throttle line_dropped_throttle (
          shown-Keeps m st_not_ipv6 line_not_ipv6 (
            shown-Keeps m st_parse_failed line_parse_failed (
              Keeps-bind P a config_map-Keeps (λ configs.
                Keeps-bind P a
                  (Keeps-or_fail P a (cannot_read (codes "shield_config")) (P.config_get configs))
                  (λ cfg.
                    Keeps-println P a {line = line_throttle cfg}
                    then_keeps Keeps-bans_map P a
                        (λ bans. prune_expired {P = P} bans >>= occupancy bans)
                        (λ bans.
                          KeepsFor-pruned P L a bans (occupancy bans)
                            (λ p. Keeps-println P a))))))))))
    where
      occupancy : P.Bans → ℕ × P.Bans → Cmd P (Unit {0})
      occupancy bans pruned = println (
          line_bans (length (P.ban_iter bans) - pruned.0) (unwrap_or 0 (P.max_entries bans))
            pruned.0)
