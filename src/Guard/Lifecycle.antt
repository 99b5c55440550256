-- ===== src/Guard/Lifecycle.antt =====
-- Loading, attaching and watching the classifier, guard/src/main.rs: `classifier_attached`,
-- `write_heartbeat`, `cmd_status`, `cmd_watchdog`, `cmd_health`, `cmd_load`, `cmd_unload` and
-- `set_config`.
pub mod Throttling
pub mod Watch
pub mod Unload
use fips_shield.Base.{
  ℕ, zero, suc, ◌+◌, ◌-◌, ◌≡◌, refl, Bool, true, false, not, ◌&&◌, ◌||◌, Option, none, some, ◌++◌,
  ltb, ◌==◌, if◌then◌else◌, Result, ok, err, unwrap_or,
}
use fips_shield.Std.Text.{Text, codes, contains}
use fips_shield.Std.Number.{to_text}
use fips_shield.Guard.Kernel.{Config, Platform, Pins, TcOutput, not_run, failed, printed}
use fips_shield.Guard.Cmd.{
  Error, cannot_read, cannot_write, cannot_run_tc, tc_failed, not_present_after_attach,
  cannot_create_dir, load_failed, cannot_attach, still_attached, cannot_unpin, World, Cmd, ◌>>=◌,
  ◌>>◌, pure, bail, or_fail, println, eprintln, now_epoch_s, health_map, config_map, write_health,
  write_config, get_world,
}

abbrev pub prog_name : Text
prog_name = codes "shield_guard"

-- A rate with no burst would drop every packet.
unfoldable pub with_headroom : ℕ → ℕ → Config
with_headroom rate burst = record {
  rate_pps = rate;
  burst_pkts = if ltb 0 rate && burst == 0 then 1 else burst;
}

abbrev is_pinned : {A : Type 0} → Option A → Bool
is_pinned none = false
is_pinned (some a) = true

module _ {P : Platform} where
  -- `let _ = …`: the result is dropped, what was done stays done.
  abbrev pub ignore : {A : Type 0} → Cmd P A → Cmd P (Unit {0})
  ignore m w = (ok tt, (m w).1)

  -- an operation on the host that may fail
  abbrev pub on_host : Error → (P.Host → Option P.Host) → Cmd P (Unit {0})
  on_host e f w = elim (f w.host) [ none ↦ (err e, w) | some h ↦ (ok tt, record w { host = h }) ]

  unfoldable pub classifier_attached : Text → Cmd P Bool
  classifier_attached iface w = elim (P.tc_filter_show w.host iface) [
    | not_run ↦ (err cannot_run_tc, w)
    | failed stderr ↦ (err (tc_failed iface stderr), w)
    | printed stdout ↦ (ok (contains stdout prog_name), w)
  ]

  unfoldable pub write_heartbeat : Cmd P (Unit {0})
  unfolding health_map now_epoch_s
  write_heartbeat = do
    m ← health_map
    now ← now_epoch_s
    m' ← or_fail (cannot_write (codes "shield_health")) (P.health_set m now)
    write_health m'

  unfoldable pub cmd_status : Text → Cmd P Bool
  unfolding classifier_attached write_heartbeat
  cmd_status iface = do
    attached ← classifier_attached iface
    (if attached
        then (do
          ignore write_heartbeat
          println
              (codes "attached: " ++ (prog_name ++ (codes " is filtering ingress on " ++ iface))))
        else println (
            codes "NOT ATTACHED: no "
            ++ (prog_name
                ++ (codes " filter on "
                    ++ (iface ++ codes " ingress — nothing is being enforced")))))
    pure attached

  unfoldable pub set_config : ℕ → ℕ → Cmd P (Unit {0})
  unfolding config_map with_headroom
  set_config rate burst = do
    m ← config_map
    m' ← or_fail (cannot_write (codes "shield_config")) (P.config_set m (with_headroom rate burst))
    write_config m'

  -- `EbpfLoader … .load(BPF_OBJ)`, which pins the maps
  unfoldable pub load_object : Cmd P (Unit {0})
  load_object w = elim (P.load_object w.host w.pins) [
    | none ↦ (err load_failed, w)
    | some (h, p) ↦ (ok tt, record w { host = h; pins = p })
  ]

  -- `let _ = tc::qdisc_add_clsact(iface)`
  abbrev pub qdisc_add_clsact : Text → Cmd P (Unit {0})
  qdisc_add_clsact iface w = (ok tt, record w { host = P.qdisc_add_clsact w.host iface })

  abbrev pub qdisc_detach : Text → Cmd P (Unit {0})
  qdisc_detach iface = on_host (still_attached iface) (λ h. P.qdisc_detach h iface)

  -- The configuration to keep across a reload.
  unfoldable pub running_config : World P → Config
  running_config w =
      let none_set : Config = record { rate_pps = 0; burst_pkts = 0 } in
      elim w.pins.config [ none ↦ none_set | some m ↦ unwrap_or none_set (P.config_get m) ]

  unfoldable pub cmd_health : ℕ → Cmd P Bool
  unfolding health_map now_epoch_s
  cmd_health max_age = do
    m ← health_map
    let last = unwrap_or 0 (P.health_get m)
    if last == 0
        then (do
          eprintln (
              codes "note: no watchdog heartbeat yet, so a detached classifier would go unnoticed. "
              ++ codes "Enable it with: systemctl enable --now fips-guard-watchdog.timer")
          println (codes "unknown: no heartbeat yet (watchdog not running) — reporting healthy")
          pure true)
        else (do
          now ← now_epoch_s
          let age = now - last
          if ltb max_age age
              then (do
                println (
                    codes "stale: last confirmed "
                    ++ (to_text age
                        ++ (codes "s ago (limit "
                            ++ (to_text max_age
                                ++ codes "s) — enforcement is not known to be running"))))
                pure false)
              else (do
                println (codes "ok: attachment confirmed " ++ (to_text age ++ codes "s ago"))
                pure true))

  -- The removal of one pin: `if path.exists() { remove_file(&path)? }`
  abbrev unpin : Text → (World P → Bool) → (World P → World P) → Cmd P (Unit {0})
  unpin name exists without w =
      if exists w
      then elim (P.remove_file w.host name) [
        | none ↦ (err (cannot_unpin name), w)
        | some h ↦ (ok tt, record (without w) { host = h })
      ]
      else (ok tt, w)

  unfoldable pub unpin_maps : Cmd P (Unit {0})
  unpin_maps = do
    unpin (codes "shield_bans") (λ w. is_pinned w.pins.bans)
        (λ w. record w { pins = record w.pins { bans = none } })
    unpin (codes "shield_throttle") (λ w. is_pinned w.pins.throttle)
        (λ w. record w { pins = record w.pins { throttle = none } })
    unpin (codes "shield_config") (λ w. is_pinned w.pins.config)
        (λ w. record w { pins = record w.pins { config = none } })
    unpin (codes "shield_stats") (λ w. is_pinned w.pins.stats)
        (λ w. record w { pins = record w.pins { stats = none } })

  -- Whether the detachment worked; the reason in the warning is aya's.
  unfoldable pub detach : Text → Cmd P Bool
  detach iface w = elim (P.qdisc_detach w.host iface) [
    | some h ↦ (do println (codes "detached from " ++ iface); pure true) (record w { host = h })
    | none ↦ (do eprintln (codes "warning: detach from " ++ iface); pure false) w
  ]

  -- The first half of `cmd_load`: load the object and attach the program. Adding the clsact qdisc
  -- and detaching a stale copy may fail.
  unfoldable pub attach_classifier : Text → Cmd P (Unit {0})
  unfolding load_object
  attach_classifier iface = do
    on_host cannot_create_dir P.create_dir_all
    load_object
    on_host load_failed P.load_program
    qdisc_add_clsact iface
    ignore (qdisc_detach iface)
    on_host (cannot_attach iface) (λ h. P.attach h iface)

module _ {P : Platform} (pin_dir : Text) where
  -- The messages at the end of `cmd_load`.
  unfoldable pub announce : Text → ℕ → ℕ → Cmd P (Unit {0})
  announce iface rate burst = do
    println (codes "loaded on " ++ (iface ++ (codes ", maps pinned at " ++ pin_dir)))
    if ltb 0 rate
        then println (
            codes "throttle: "
            ++ (to_text rate ++ (codes " pkt/s per source, burst " ++ to_text burst)))
        else println (codes "throttle: disabled (bans only)")

  unfoldable pub cmd_load : Text → ℕ → ℕ → Cmd P (Unit {0})
  cmd_load iface rate burst = do
    attach_classifier iface
    set_config rate burst
    announce iface rate burst

  -- Attach again, with the running throttle configuration.
  unfoldable pub repair : Text → Cmd P (Unit {0})
  repair iface = do
    eprintln (
        codes "watchdog: "
        ++ (prog_name ++ (codes " is not attached to " ++ (iface ++ codes "; re-attaching"))))
    w ← get_world
    cmd_load iface (running_config {P = P} w).rate_pps (running_config {P = P} w).burst_pkts
    again ← classifier_attached iface
    (if again then pure tt else bail (not_present_after_attach iface))
    write_heartbeat
    eprintln (codes "watchdog: re-attached to " ++ iface)

  unfoldable pub cmd_watchdog : Text → Cmd P (Unit {0})
  cmd_watchdog iface = do
    attached ← classifier_attached iface
    if attached then write_heartbeat else repair iface

  unfoldable pub cmd_unload : Text → Bool → Cmd P (Unit {0})
  unfolding detach
  cmd_unload iface purge = do
    detached ← detach iface
    if not purge
        then println
            (codes "maps left pinned at " ++ (pin_dir ++ codes " (use --purge to discard bans)"))
        else (if detached
            then (do
              unpin_maps
              (λ w. (ok tt, record w { host = P.remove_dir w.host }))
              println (codes "unpinned maps"))
            else bail (still_attached iface))
