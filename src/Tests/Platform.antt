-- ===== src/Tests/Platform.antt =====
-- A kernel whose map of bans holds one entry, whose clocks stand still, and that attaches what it
-- is asked to attach; it obeys all laws of the interface.
use fips_shield.Base.{
  ℕ, ◌+◌, ◌<◌, ◌≡◌, ◌≢◌, refl, Bool, true, false, Option, none, some, List, [], ◌∷◌, if◌then◌else◌,
  length, In, arith, unwrap_or, sym, inl, inr, Bool-cases,
}
use fips_shield.Std.Text.{codes, text_eq_refl, text_eq→eq}
use fips_shield.Guard.Kernel.{
  Addr6, BanVal, Config, Bucket, Pins, printed, Platform, BansLaws, CapacityLaws, ArrayLaws,
  PinLaws, addr_eq,
}

abbrev pub Slot : Type 0
Slot = Option (Addr6 × BanVal)

abbrev pub slot_get : Slot → Addr6 → Option BanVal
slot_get none j = none
slot_get (some (k, v)) j = if addr_eq j k then some v else none

abbrev slot_insert : Slot → Addr6 → BanVal → Option Slot
slot_insert none k v = some (some (k, v))
slot_insert (some (j, u)) k v = if addr_eq k j then some (some (k, v)) else none

abbrev slot_remove : Slot → Addr6 → Option Slot
slot_remove none k = none
slot_remove (some (j, u)) k = if addr_eq k j then some none else none

abbrev slot_iter : Slot → List (Option (Addr6 × BanVal))
slot_iter none = []
slot_iter (some e) = some e ∷ []

abbrev PinsAt : Type 0
PinsAt = Pins Slot (Addr6 → Option Bucket) Config ℕ ℕ

abbrev pinned_all : PinsAt → PinsAt
pinned_all p = record {
  bans = some (unwrap_or none p.bans);
  throttle = some (unwrap_or (λ a. none) p.throttle);
  config = some (unwrap_or (record { rate_pps = 0; burst_pkts = 0 }) p.config);
  stats = some (unwrap_or 0 p.stats);
  health = some (unwrap_or 0 p.health);
}

-- The host is whether the classifier is attached.
abbrev pub one_entry : Platform
one_entry = record {
  Bans = Slot;
  Throttle = Addr6 → Option Bucket;
  Configs = Config;
  Stats = ℕ;
  Health = ℕ;
  Host = Bool;
  ban_get = slot_get;
  ban_insert = slot_insert;
  ban_remove = slot_remove;
  ban_iter = slot_iter;
  max_entries = λ m. some 1;
  config_get = λ c. some c;
  config_set = λ c d. some d;
  health_get = λ h. some h;
  health_set = λ h t. some t;
  stats_get = λ s slot. some (s ∷ []);
  stats_bump = λ s slot. s + 1;
  throttle_get = λ t a. t a;
  throttle_store = λ t a b j. if addr_eq j a then some b else t j;
  throttle_update = λ t a b j. if addr_eq j a then some b else t j;
  create_dir_all = λ h. some h;
  load_object = λ h p. some (h, pinned_all p);
  load_program = λ h. some h;
  qdisc_add_clsact = λ h iface. h;
  qdisc_detach = λ h iface. some false;
  attach = λ h iface. some true;
  tc_filter_show = λ h iface. printed (if h then codes "direct-action name shield_guard" else []);
  remove_file = λ h path. some h;
  remove_dir = λ h. h;
  monotonic = λ i. (1000, 0);
  system_time = λ i. some 2_000_000;
}

get-insert_slot :
    (m : Slot) (k j : Addr6) (v : BanVal) (m' : Slot)
    → slot_insert m k v ≡ some m'
    → slot_get m' j ≡ (if addr_eq j k then some v else slot_get m j)
get-insert_slot none k j v m' h = ground arith
get-insert_slot (some (i, u)) k j v m' h = elim (Bool-cases (addr_eq k i)) [
  | inl e ↦ ground (arith, text_eq→eq k i e)
  | inr e ↦ absurd (ground arith)
]

get-remove_slot :
    (m : Slot) (k j : Addr6) (m' : Slot)
    → slot_remove m k ≡ some m'
    → slot_get m' j ≡ (if addr_eq j k then none else slot_get m j)
get-remove_slot none k j m' h = absurd (ground arith)
get-remove_slot (some (i, u)) k j m' h = elim (Bool-cases (addr_eq k i)) [
  | inl e ↦ ground (arith, text_eq→eq k i e)
  | inr e ↦ absurd (ground arith)
]

remove_of_present_slot : (m : Slot) (k : Addr6) → slot_get m k ≢ none → slot_remove m k ≢ none
remove_of_present_slot none k h = absurd (h refl)
remove_of_present_slot (some (i, u)) k h = elim (Bool-cases (addr_eq k i)) [
  | inl e ↦ λ q. absurd (ground arith)
  | inr e ↦ absurd (h (rw e refl))
]

get_of_iter_slot :
    (m : Slot) (k : Addr6) (v : BanVal) → In (some (k, v)) (slot_iter m) → slot_get m k ≡ some v
get_of_iter_slot none k v h = absurd h
get_of_iter_slot (some (i, u)) k v (inl h) = ground (arith, text_eq_refl i)
get_of_iter_slot (some (i, u)) k v (inr h) = absurd h

iter_of_get_slot :
    (m : Slot) (k : Addr6) (v : BanVal) → slot_get m k ≡ some v → In (some (k, v)) (slot_iter m)
iter_of_get_slot none k v h = absurd (ground arith)
iter_of_get_slot (some (i, u)) k v h = elim (Bool-cases (addr_eq k i)) [
  | inl e ↦ inl (ground (arith, text_eq→eq k i e))
  | inr e ↦ absurd (ground arith)
]

pub one_entry_laws : BansLaws one_entry
one_entry_laws = record {
  get-insert = get-insert_slot;
  get-remove = get-remove_slot;
  remove_of_present = remove_of_present_slot;
  get_of_iter = get_of_iter_slot;
  iter_of_get = λ m k v a. iter_of_get_slot m k v;
}

insert_of_room_slot :
    (m : Slot) (k : Addr6) (v : BanVal) (c : ℕ)
    → some 1 ≡ some c
    → length (slot_iter m) < c
    → slot_insert m k v ≢ none
insert_of_room_slot none k v c e h = λ q. cc
insert_of_room_slot (some x) k v c e h = absurd (ground arith)

remove_slot :
    (m : Slot) (k : Addr6) (m' : Slot)
    → slot_remove m k ≡ some m'
    → length (slot_iter m') < length (slot_iter m)
remove_slot none k m' h = absurd (ground arith)
remove_slot (some (i, u)) k m' h = elim (Bool-cases (addr_eq k i)) [
  | inl e ↦ let q : m' ≡ none = ground arith in rw q (omega arith)
  | inr e ↦ absurd (ground arith)
]

pub one_entry_capacity : CapacityLaws one_entry
one_entry_capacity = record {
  insert_of_room = insert_of_room_slot;
  max_entries-remove = λ m k m' h. refl;
  remove_le = λ m k m' h. omega (arith, remove_slot m k m' h);
  remove_shrinks = λ m k m' n h. remove_slot m k m' h;
}

pub one_entry_arrays : ArrayLaws one_entry
one_entry_arrays = record { config_get-set = λ m m' c h. sym h; health_get-set = λ m m' t h. sym h }

pub one_entry_pins : PinLaws one_entry
one_entry_pins = record {
  load_object-bans = λ h h' p p' m e q. ground arith;
  load_object-config = λ h h' p p' m e q. ground arith;
}
