-- ===== src/Guard/System.antt =====
-- The guard as a whole: packets and commands of fips-guard (guard/src/main.rs) in any order, on one
-- node. The classifier (guard/bpf/shield_guard.bpf.c) reads the maps that are pinned, and the
-- monotonic clock that the commands read.
pub mod Kept
pub mod Bans
pub mod Host
pub mod Runs
pub mod Verdicts
use fips_shield.Base.{ℕ, ◌+◌, Bool, false, Option, none, some, List, [], ◌∷◌, ◌≡◌, ◌≢◌, ok}
use fips_shield.Base.Int.{ℤ}
use fips_shield.Std.Text.{Text}
use fips_shield.Guard.Kernel.{Addr6, Platform}
use fips_shield.Guard.Cmd.{Error, World, mono_at, parse_v6}
use fips_shield.Guard.Main.{
  Command, load, unload, ban, unban, check, list_bans, throttle, stats, status, watchdog, health,
  main,
}
use fips_shield.Guard.Classifier.{Action, Packet, Loaded, shield_guard}

-- What may happen on the node.
pub data Event : Type 0 where
  packet : Packet → Event
  command : Command → Event

-- A command that neither bans nor unbans this address, and does not purge the maps.
unfoldable pub Spares : Addr6 → Command → Type 0
Spares a (ban ip seconds) = parse_v6 ip ≢ ok (some a)
Spares a (unban ip) = parse_v6 ip ≢ ok (some a)
Spares a (unload iface purge) = purge ≡ false
Spares a (load iface rate burst) = Unit {0}
Spares a (check ip) = Unit {0}
Spares a list_bans = Unit {0}
Spares a (throttle rate burst) = Unit {0}
Spares a stats = Unit {0}
Spares a (status iface) = Unit {0}
Spares a (watchdog iface) = Unit {0}
Spares a (health max_age) = Unit {0}

unfoldable pub SparesAll : Addr6 → List Event → Type 0
unfolding Spares
SparesAll a [] = Unit {0}
SparesAll a (packet p ∷ events) = SparesAll a events
SparesAll a (command c ∷ events) = Spares a c × SparesAll a events

module _ {P : Platform} where
  -- The maps of the classifier: those that are pinned.
  unfoldable pub loaded : World P → Option (Loaded P)
  loaded w = elim w.pins.bans [
    | none ↦ none
    | some bans ↦ elim w.pins.throttle [
      | none ↦ none
      | some buckets ↦ elim w.pins.config [
        | none ↦ none
        | some config ↦ elim w.pins.stats [
          | none ↦ none
          | some counters ↦
              some (record { bans = bans; throttle = buckets; config = config; stats = counters })
        ]
      ]
    ]
  ]

  -- The maps after a packet.
  abbrev pub store : Loaded P → World P → World P
  store k w = record w {
    pins = record w.pins {
      bans = some k.bans;
      throttle = some k.throttle;
      config = some k.config;
      stats = some k.stats;
    };
    readings = w.readings + 1;
  }

  -- One packet, at the time of the next reading of the clock; no verdict without the maps.
  unfoldable pub receive : Packet → World P → Option Action × World P
  unfolding loaded shield_guard
  receive p w = elim (loaded w) [
    | none ↦ (none, w)
    | some k ↦
        let (action, k') = shield_guard {P = P} p (mono_at P w.readings) k in
        (some action, store k' w)
  ]

module _ {P : Platform} (pin_dir : Text) (render : Error → Text) where
  unfoldable pub step : Event → World P → World P
  unfolding receive main
  step (packet p) w = (receive p w).1
  step (command c) w = (main pin_dir render c w).1

  unfoldable pub run_events : List Event → World P → World P
  unfolding step
  run_events [] w = w
  run_events (e ∷ events) w = run_events events (step e w)
