-- ===== src/Tests/Guard.antt =====
-- Runs of the ban commands and of the token bucket.
use fips_shield.Base.{
  ap, ℕ, ◌+◌, ◌*◌, ◌≤◌, ◌≡◌, refl, true, false, none, some, [], ◌∷◌, ok, inl, arith,
}
use fips_shield.Base.Int.{pos}
use fips_shield.Std.Text.{Text, codes, text_eq}
use fips_shield.Std.IpAddr.{parse_ip}
use fips_shield.Guard.Kernel.{Addr6, BanVal}
use fips_shield.Guard.Cmd.{World, parse_v6, mono_at, epoch_at, now_mono_ns, now_epoch_s, bans_map}
use fips_shield.Guard.Bans.{
  cmd_ban, cmd_unban, cmd_check, cmd_list, ban_address, ban_value, insert_ban, sweep, prune_expired,
  expired_keys, is_expired, remove_keys, check_address, check_entry, is_active, active_entries,
  print_lines,
}
use fips_shield.Guard.Bans.Unban.{cmd_unban-is_banned}
use fips_shield.Guard.Bans.Check.{cmd_check-is_banned}
use fips_shield.Guard.Bans.Full.{cmd_ban_full}
use fips_shield.Guard.Bans.Prune.{get-prune}
use fips_shield.Guard.Bans.Listing.{cmd_list-ban_line, Prints}
use fips_shield.Guard.Enforce.{cmd_ban-shield_guard, cmd_ban-is_banned_ne, packet_from}
use fips_shield.Guard.Classifier.{Loaded, shield_guard, is_banned, act_shot}
use fips_shield.Guard.Classifier.Counts.{Counted, shield_guard-Counted}
use fips_shield.Guard.Classifier.Rate.{take_tokens, take_tokens-le}
use fips_shield.Tests.Platform.{one_entry, one_entry_laws, one_entry_capacity, Slot, slot_get}

abbrev pub address : Text
address = codes "fd00::1"

abbrev pub octets : Addr6
octets = 0xfd ∷ 0 ∷ 0 ∷ 0 ∷ 0 ∷ 0 ∷ 0 ∷ 0 ∷ 0 ∷ 0 ∷ 0 ∷ 0 ∷ 0 ∷ 0 ∷ 0 ∷ 1 ∷ []

abbrev pub other : Addr6
other = 0xfd ∷ 0 ∷ 0 ∷ 0 ∷ 0 ∷ 0 ∷ 0 ∷ 0 ∷ 0 ∷ 0 ∷ 0 ∷ 0 ∷ 0 ∷ 0 ∷ 0 ∷ 2 ∷ []

pub parses : parse_v6 address ≡ ok (some octets)
unfolding parse_v6 parse_ip
parses = refl

-- All maps pinned, with this map of bans.
abbrev pub world : Slot → World one_entry
world bans = record {
  pins = record {
    bans = some bans;
    throttle = some (λ a. none);
    config = some (record { rate_pps = 10; burst_pkts = 20 });
    stats = some 0;
    health = some 0;
  };
  host = true;
  readings = 0;
  stdout = [];
  stderr = [];
}

-- A pair by its first component.
pub first_is : {A B : Type 0} (p : A × B) (a : A) → p.0 ≡ a → p ≡ (a, p.1)
first_is p a h = ap (λ x. (x, p.1)) h

abbrev lapsed : BanVal
lapsed = record { expires_mono_ns = 5; expires_epoch_s = 5 }

abbrev after : World one_entry
after = (cmd_ban {P = one_entry} address (pos 60) (world (some (other, lapsed)))).1

succeeds : cmd_ban {P = one_entry} address (pos 60) (world (some (other, lapsed))) ≡ (ok tt, after)
unfolding cmd_ban parse_v6 parse_ip ban_address ban_value now_mono_ns now_epoch_s bans_map
    insert_ban sweep prune_expired expired_keys is_expired remove_keys text_eq mono_at epoch_at
succeeds =
    first_is (cmd_ban {P = one_entry} address (pos 60) (world (some (other, lapsed)))) (ok tt) refl

abbrev ban : BanVal
ban = record { expires_mono_ns = 1_060_000_000_000; expires_epoch_s = 2_000_060 }

banned : after.pins.bans ≡ some (some (octets, ban))
unfolding cmd_ban parse_v6 parse_ip ban_address ban_value now_mono_ns now_epoch_s bans_map
    insert_ban sweep prune_expired expired_keys is_expired remove_keys text_eq mono_at epoch_at
banned = refl

-- The maps of the running program, with this map of bans.
abbrev loaded : Slot → Loaded one_entry
loaded bans = record {
  bans = bans;
  throttle = λ a. none;
  config = record { rate_pps = 10; burst_pkts = 20 };
  stats = 0;
}

cmd_ban-shield_guard_example :
    shield_guard {P = one_entry}
      (packet_from octets)
      1_059_000_000_000
      (loaded (some (octets, ban)))
    ≡ (act_shot, record (loaded (some (octets, ban))) { stats = 1 })
unfolding mono_at
cmd_ban-shield_guard_example =
    cmd_ban-shield_guard one_entry one_entry_laws address (pos 60) octets
      (world (some (other, lapsed))) after (loaded (some (octets, ban))) 1_059_000_000_000 parses
      succeeds banned

clock : (i : ℕ) → i ≤ after.readings → mono_at one_entry i ≤ 1_000_000_000_000
unfolding mono_at
clock i h = omega arith

cmd_ban-is_banned_ne_example :
    is_banned {P = one_entry} other 1_000_000_000_000 (loaded (some (octets, ban)))
    ≡ is_banned {P = one_entry} other 1_000_000_000_000 (loaded (some (other, lapsed)))
unfolding text_eq
cmd_ban-is_banned_ne_example =
    cmd_ban-is_banned_ne one_entry one_entry_laws address (pos 60) octets
      (world (some (other, lapsed))) after other 1_000_000_000_000 (loaded (some (other, lapsed)))
      (loaded (some (octets, ban))) parses succeeds refl clock refl banned

has_lapsed : is_expired (mono_at one_entry 0) lapsed ≡ true
unfolding is_expired mono_at
has_lapsed = refl

cmd_ban_full_example :
    (cmd_ban {P = one_entry} address (pos 60) (world (some (other, lapsed)))).0 ≡ ok tt
cmd_ban_full_example =
    cmd_ban_full one_entry one_entry_laws one_entry_capacity address (pos 60) octets other lapsed
      (some (other, lapsed)) (world (some (other, lapsed))) 1 parses refl ((λ q. cc), tt) refl
      (omega arith) (inl refl) has_lapsed (λ n m h. unfold mono_at in omega arith)

cmd_unban-is_banned_example :
    (m : Slot) × (w' : World one_entry) × (cmd_unban {P = one_entry} address
        (world (some (octets, ban)))
      ≡ (ok tt, w'))
    × (w'.pins.bans ≡ some m)
    × (is_banned {P = one_entry} octets 1_001_000_000_000
          (record (loaded (some (octets, ban))) { bans = m })
        ≡ false)
unfolding text_eq
cmd_unban-is_banned_example =
    cmd_unban-is_banned one_entry one_entry_laws address octets (world (some (octets, ban))) octets
      1_001_000_000_000 (loaded (some (octets, ban))) parses refl

cmd_check-is_banned_example :
    (cmd_check {P = one_entry} address (world (some (octets, ban)))).0 ≡ ok true
unfolding is_banned mono_at text_eq
cmd_check-is_banned_example =
    cmd_check-is_banned one_entry address octets (world (some (octets, ban))) (some (octets, ban))
      (loaded (some (octets, ban))) parses refl refl

removed :
    (cmd_check {P = one_entry} address (world (some (octets, lapsed)))).1.pins.bans ≡ some none
unfolding cmd_check parse_v6 parse_ip check_address check_entry is_active now_mono_ns bans_map
    text_eq mono_at
removed = refl

abbrev swept : World one_entry
swept = (prune_expired {P = one_entry} (some (other, lapsed)) (world (some (other, lapsed)))).1

pruned :
    prune_expired {P = one_entry} (some (other, lapsed)) (world (some (other, lapsed)))
    ≡ (ok (1, none), swept)
unfolding prune_expired expired_keys is_expired remove_keys now_mono_ns text_eq mono_at
pruned = refl

get-prune_example : slot_get none other ≡ none
unfolding is_expired mono_at text_eq
get-prune_example =
    get-prune one_entry one_entry_laws (some (other, lapsed)) none 1 (world (some (other, lapsed)))
      swept other pruned

abbrev listed : World one_entry
listed = (cmd_list {P = one_entry} (world (some (octets, ban)))).1

lists : cmd_list {P = one_entry} (world (some (octets, ban))) ≡ (ok tt, listed)
unfolding cmd_list bans_map now_mono_ns prune_expired expired_keys active_entries print_lines
    is_expired remove_keys text_eq mono_at
lists = refl

cmd_list-ban_line_example :
    Prints one_entry (world (some (octets, ban))) (some (octets, ban)) listed
cmd_list-ban_line_example =
    cmd_list-ban_line one_entry one_entry_laws (world (some (octets, ban))) listed
      (some (octets, ban)) refl lists

take_tokens-le_example :
    (take_tokens 10 20_000
          (record { tokens_milli = 1500; last_ns = 0 })
          (1 ∷ 2 ∷ 100_000_000 ∷ [])).0
        * 1000
      + (take_tokens 10 20_000
          (record { tokens_milli = 1500; last_ns = 0 })
          (1 ∷ 2 ∷ 100_000_000 ∷ [])).1.tokens_milli
    ≤ 2500
take_tokens-le_example =
    take_tokens-le 10 20_000 100_000_000 (record { tokens_milli = 1500; last_ns = 0 })
      (1 ∷ 2 ∷ 100_000_000 ∷ []) (omega arith) (omega arith)

shield_guard-Counted_example :
    Counted {P = one_entry}
      (loaded none)
      (shield_guard {P = one_entry} (packet_from octets) 0 (loaded none))
shield_guard-Counted_example = shield_guard-Counted one_entry (packet_from octets) 0 (loaded none)
