-- ===== src/Tests/System.antt =====
-- Runs of the guard in which packets and commands alternate.
use fips_shield.Guard.System.{
  Spares, Event, packet, command, SparesAll, step, loaded, receive, run_events,
}
use fips_shield.Base.{
  ℕ, ◌≤◌, ◌≡◌, refl, Bool, true, false, Option, none, some, List, [], ◌∷◌, ok, arith, unwrap_or,
}
use fips_shield.Base.Int.{pos}
use fips_shield.Std.Text.{Text, codes, text_eq}
use fips_shield.Std.IpAddr.{parse_ip}
use fips_shield.Guard.Kernel.{BanVal}
use fips_shield.Guard.Cmd.{
  Error, World, parse_v6, mono_at, epoch_at, bans_map, now_mono_ns, now_epoch_s,
}
use fips_shield.Guard.Bans.{
  cmd_ban, cmd_unban, cmd_check, check_address, check_entry, is_active, ban_address, ban_value,
  insert_ban, sweep, prune_expired, expired_keys, remove_keys, is_expired, unban_address,
  remove_ban,
}
use fips_shield.Guard.Main.{ban, check, main}
use fips_shield.Guard.Enforce.{packet_from}
use fips_shield.Guard.Classifier.{
  Loaded, act_shot, is_banned, unbanned_packet, shield_guard, throttle_packet, fresh_bucket,
  take_token, refill,
}
use fips_shield.Guard.System.Runs.{run_events-is_banned}
use fips_shield.Guard.System.Verdicts.{cmd_ban-receive, cmd_unban-receive}
use fips_shield.Tests.Platform.{one_entry, one_entry_laws, one_entry_pins, Slot}
use fips_shield.Tests.Guard.{address, octets, other, world, parses, first_is}

-- Between a ban and the next packet: a packet from elsewhere, a ban that finds the map full, and
-- a check.
abbrev events : List Event
events =
    packet (packet_from other)
    ∷ command (ban (codes "fd00::2") (pos 5))
    ∷ command (check address)
    ∷ []

abbrev no_text : Error → Text
no_text e = []

spared : SparesAll octets events
unfolding SparesAll Spares parse_v6 parse_ip
spared = ((λ q. cc), (tt, tt))

abbrev banned : World one_entry
banned = (cmd_ban {P = one_entry} address (pos 60) (world none)).1

succeeds : cmd_ban {P = one_entry} address (pos 60) (world none) ≡ (ok tt, banned)
unfolding cmd_ban parse_v6 parse_ip ban_address ban_value insert_ban
succeeds = first_is (cmd_ban {P = one_entry} address (pos 60) (world none)) (ok tt) refl

abbrev until_unban : BanVal
until_unban = record { expires_mono_ns = 1_060_000_000_000; expires_epoch_s = 2_000_060 }

abbrev later : World one_entry → World one_entry
later w = run_events {P = one_entry} [] no_text events w

abbrev nothing : Loaded one_entry
nothing = record {
  bans = none;
  throttle = λ a. none;
  config = record { rate_pps = 0; burst_pkts = 0 };
  stats = 0;
}

abbrev at_end : World one_entry → Loaded one_entry
at_end w = unwrap_or nothing (loaded {P = one_entry} (later w))

abbrev is_loaded : Option (Loaded one_entry) → Bool
is_loaded none = false
is_loaded (some k) = true

some_loaded : (o : Option (Loaded one_entry)) → is_loaded o ≡ true → o ≡ some (unwrap_or nothing o)
some_loaded none h = absurd (ground arith)
some_loaded (some k) h = refl

loaded_banned : is_loaded (loaded {P = one_entry} (later banned)) ≡ true
unfolding run_events loaded cmd_ban cmd_check cmd_unban parse_v6 parse_ip check_address check_entry
    is_active ban_address ban_value insert_ban sweep prune_expired expired_keys remove_keys
    is_expired bans_map now_mono_ns now_epoch_s mono_at epoch_at text_eq step receive main
    shield_guard is_banned unbanned_packet throttle_packet fresh_bucket take_token refill
    unban_address remove_ban
loaded_banned = refl

cmd_ban-receive_example :
    (receive {P = one_entry} (packet_from octets) (later banned)).0 ≡ some act_shot
unfolding mono_at
cmd_ban-receive_example =
    cmd_ban-receive one_entry one_entry_laws one_entry_pins [] no_text address octets (world none)
      banned events (pos 60) (at_end banned) (λ i j le. unfold mono_at in omega arith) parses
      succeeds spared (some_loaded (loaded {P = one_entry} (later banned)) loaded_banned)

past : (i : ℕ) → i ≤ (later banned).readings → mono_at one_entry i ≤ 1_000_000_000_000
unfolding mono_at
past i h = omega arith

pinned : banned.pins.bans ≡ some (some (octets, until_unban))
unfolding cmd_ban parse_v6 parse_ip ban_address ban_value insert_ban bans_map now_mono_ns
    now_epoch_s mono_at epoch_at
pinned = refl

run_events-is_banned_example :
    (bans : Slot) × ((later banned).pins.bans ≡ some bans)
    × (is_banned {P = one_entry} octets 1_000_000_000_000 (record nothing { bans = bans })
        ≡ is_banned {P = one_entry} octets 1_000_000_000_000
            (record nothing { bans = some (octets, until_unban) }))
run_events-is_banned_example =
    run_events-is_banned one_entry one_entry_laws one_entry_pins [] no_text octets events banned
      (record nothing { bans = some (octets, until_unban) }) 1_000_000_000_000 spared pinned past

abbrev unbanned : World one_entry
unbanned = (cmd_unban {P = one_entry} address banned).1

unbans : cmd_unban {P = one_entry} address banned ≡ (ok tt, unbanned)
unfolding cmd_unban cmd_ban parse_v6 parse_ip ban_address ban_value insert_ban unban_address
    remove_ban bans_map text_eq now_mono_ns now_epoch_s
unbans = first_is (cmd_unban {P = one_entry} address banned) (ok tt) refl

loaded_unbanned : is_loaded (loaded {P = one_entry} (later unbanned)) ≡ true
unfolding run_events loaded cmd_ban cmd_check cmd_unban parse_v6 parse_ip check_address check_entry
    is_active ban_address ban_value insert_ban sweep prune_expired expired_keys remove_keys
    is_expired bans_map now_mono_ns now_epoch_s mono_at epoch_at text_eq step receive main
    shield_guard is_banned unbanned_packet throttle_packet fresh_bucket take_token refill
    unban_address remove_ban
loaded_unbanned = refl

cmd_unban-receive_example :
    (receive {P = one_entry} (packet_from octets) (later unbanned)).0
    ≡ some
        (unbanned_packet {P = one_entry} octets
          (mono_at one_entry (later unbanned).readings)
          (at_end unbanned)).0
cmd_unban-receive_example =
    cmd_unban-receive one_entry one_entry_laws one_entry_pins [] no_text address octets banned
      unbanned events (at_end unbanned) (λ i j le. unfold mono_at in omega arith) parses unbans
      spared (some_loaded (loaded {P = one_entry} (later unbanned)) loaded_unbanned)
