-- ===== src/Guard/Lifecycle/Unload.antt =====
-- What `cmd_unload` removes.
use fips_shield.Base.{◌≡◌, Bool, true, false, none, ok, err, arith, ◌⊎◌, if◌then◌else◌}
use fips_shield.Std.Text.{Text}
use fips_shield.Guard.Kernel.{Platform}
use fips_shield.Guard.Cmd.{still_attached, World}
use fips_shield.Guard.Lifecycle.{cmd_unload, unpin_maps}

module _ (P : Platform) (pin_dir iface : Text) (w : World P) where
  -- An unload without `--purge` succeeds, and one with it is refused while the classifier cannot
  -- be detached; both leave every pinned map as it is.
  pub cmd_unload-keeps_pins :
      (purge : Bool)
      → (purge ≡ false) ⊎ (P.qdisc_detach w.host iface ≡ none)
      → ((cmd_unload {P = P} pin_dir iface purge w).1.pins ≡ w.pins)
        × ((cmd_unload {P = P} pin_dir iface purge w).0
            ≡ (if purge then err (still_attached iface) else ok tt))
  unfolding cmd_unload
  cmd_unload-keeps_pins purge h = ground arith

  -- A purge that reports success has unpinned the maps of bans, throttle buckets, configuration and
  -- counters, and has left the pinned heartbeat as it was.
  pub cmd_unload_purge :
      (w' : World P)
      → cmd_unload {P = P} pin_dir iface true w ≡ (ok tt, w')
      → w'.pins ≡ record {
        bans = none;
        throttle = none;
        config = none;
        stats = none;
        health = w.pins.health;
      }
  unfolding cmd_unload unpin_maps
  cmd_unload_purge w' h = ground arith
