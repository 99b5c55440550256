-- ===== src/Tests/Lifecycle.antt =====
-- Runs of the commands that load, watch and unload the guard.
use fips_shield.Base.{
  ℕ, ◌≡◌, ◌||◌, ◌-◌, ◌==◌, suc, leb, refl, true, false, none, some, ok, inl, arith,
}
use fips_shield.Std.Text.{Text, codes, contains}
use fips_shield.Guard.Kernel.{Config}
use fips_shield.Guard.Cmd.{World, epoch_at}
use fips_shield.Guard.Lifecycle.{
  cmd_watchdog, cmd_health, cmd_unload, cmd_load, repair, running_config, classifier_attached,
  write_heartbeat, attach_classifier, set_config, announce, unpin_maps,
}
use fips_shield.Guard.Lifecycle.Watch.{cmd_watchdog-cmd_health, IsAttached}
use fips_shield.Guard.Lifecycle.Throttling.{cmd_watchdog-keeps}
use fips_shield.Guard.Lifecycle.Unload.{cmd_unload-keeps_pins, cmd_unload_purge}
use fips_shield.Tests.Platform.{one_entry, one_entry_arrays, one_entry_pins}
use fips_shield.Tests.Guard.{world, first_is}

abbrev pin_dir : Text
pin_dir = codes "/sys/fs/bpf/fips-guard"

abbrev iface : Text
iface = codes "fips0"

-- The classifier has vanished from the interface.
abbrev detached : World one_entry
detached = record (world none) { host = false }

abbrev watched : World one_entry
watched = (cmd_watchdog {P = one_entry} pin_dir iface detached).1

repairs : cmd_watchdog {P = one_entry} pin_dir iface detached ≡ (ok tt, watched)
unfolding cmd_watchdog classifier_attached contains repair cmd_load attach_classifier set_config
    announce running_config write_heartbeat
repairs = first_is (cmd_watchdog {P = one_entry} pin_dir iface detached) (ok tt) refl

cmd_watchdog-cmd_health_example :
    IsAttached one_entry iface watched
    × ((n : ℕ) × (suc n ≡ watched.readings)
        × ((cmd_health {P = one_entry} 60 watched).0
            ≡ ok (
                epoch_at one_entry n == 0
                || leb (epoch_at one_entry watched.readings - epoch_at one_entry n) 60)))
cmd_watchdog-cmd_health_example =
    cmd_watchdog-cmd_health one_entry one_entry_arrays pin_dir iface detached watched 60 repairs

cmd_watchdog-keeps_example :
    (watched.pins.bans ≡ some none)
    × ((m : Config) × (watched.pins.config ≡ some m)
        × (some m ≡ some (record { rate_pps = 10; burst_pkts = 20 })))
cmd_watchdog-keeps_example =
    cmd_watchdog-keeps one_entry one_entry_arrays one_entry_pins pin_dir iface detached watched none
      (record { rate_pps = 10; burst_pkts = 20 }) (record { rate_pps = 10; burst_pkts = 20 }) refl
      refl refl (omega arith) repairs

cmd_unload-keeps_pins_example :
    ((cmd_unload {P = one_entry} pin_dir iface false (world none)).1.pins ≡ (world none).pins)
    × ((cmd_unload {P = one_entry} pin_dir iface false (world none)).0 ≡ ok tt)
cmd_unload-keeps_pins_example =
    cmd_unload-keeps_pins one_entry pin_dir iface (world none) false (inl refl)

abbrev purged : World one_entry
purged = (cmd_unload {P = one_entry} pin_dir iface true (world none)).1

purges : cmd_unload {P = one_entry} pin_dir iface true (world none) ≡ (ok tt, purged)
unfolding cmd_unload unpin_maps
purges = first_is (cmd_unload {P = one_entry} pin_dir iface true (world none)) (ok tt) refl

cmd_unload_purge_example :
    purged.pins
    ≡ record { bans = none; throttle = none; config = none; stats = none; health = some 0 }
cmd_unload_purge_example = cmd_unload_purge one_entry pin_dir iface (world none) purged purges
