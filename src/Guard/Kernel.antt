-- ===== src/Guard/Kernel.antt =====
-- What fips-guard stands on: the types that it shares with the classifier (guard/src/main.rs and
-- guard/bpf/shield_guard.bpf.c), and the kernel as aya, libc and `tc` show it, which are not part
-- of the repository: an interface, with the documented behaviour as laws.
use fips_shield.Base.{
  ◌≤◌, ℕ, ◌<◌, ◌≡◌, ◌≢◌, Bool, Option, none, some, List, if◌then◌else◌, length, In, All,
}
use fips_shield.Std.Text.{Text, text_eq}

-- The 16 octets of an IPv6 address.
abbrev pub Addr6 : Type 0
Addr6 = List ℕ

pub record BanVal : Type 0 where
  pub expires_mono_ns : ℕ
  pub expires_epoch_s : ℕ

pub record Config : Type 0 where
  pub rate_pps : ℕ
  pub burst_pkts : ℕ

-- Milli-packets of credit, and the time of the last refill.
pub record Bucket : Type 0 where
  pub tokens_milli : ℕ
  pub last_ns : ℕ

abbrev pub st_passed : ℕ
st_passed = 0

abbrev pub st_dropped_ban : ℕ
st_dropped_ban = 1

abbrev pub st_dropped_throttle : ℕ
st_dropped_throttle = 2

abbrev pub st_not_ipv6 : ℕ
st_not_ipv6 = 3

abbrev pub st_parse_failed : ℕ
st_parse_failed = 4

-- The maps pinned under the pin directory, each there or not.
pub record Pins (Bans Throttle Configs Stats Health : Type 0) : Type 0 where
  pub bans : Option Bans
  pub throttle : Option Throttle
  pub config : Option Configs
  pub stats : Option Stats
  pub health : Option Health

-- What running `tc` gives.
pub data TcOutput : Type 0 where
  not_run : TcOutput
  failed : Text → TcOutput
  printed : Text → TcOutput

-- An operation that yields `none` or `false` has failed and changed nothing.
pub record Platform : Type 1 where
  pub Bans : Type 0
  pub Throttle : Type 0
  pub Configs : Type 0
  pub Stats : Type 0
  pub Health : Type 0
  -- directories, interfaces and the filters on them
  pub Host : Type 0
  pub ban_get : Bans → Addr6 → Option BanVal
  pub ban_insert : Bans → Addr6 → BanVal → Option Bans
  pub ban_remove : Bans → Addr6 → Option Bans
  -- each entry may be an error
  pub ban_iter : Bans → List (Option (Addr6 × BanVal))
  pub max_entries : Bans → Option ℕ
  pub config_get : Configs → Option Config
  pub config_set : Configs → Config → Option Configs
  pub health_get : Health → Option ℕ
  pub health_set : Health → ℕ → Option Health
  -- one value for each CPU
  pub stats_get : Stats → ℕ → Option (List ℕ)
  -- the classifier's view: a stored value is written in place, an update may add an entry
  pub stats_bump : Stats → ℕ → Stats
  pub throttle_get : Throttle → Addr6 → Option Bucket
  pub throttle_store : Throttle → Addr6 → Bucket → Throttle
  pub throttle_update : Throttle → Addr6 → Bucket → Throttle
  pub create_dir_all : Host → Option Host
  -- parse the object, and open its pinned maps or create and pin them
  pub load_object :
      Host
      → Pins Bans Throttle Configs Stats Health
      → Option (Host × Pins Bans Throttle Configs Stats Health)
  -- find the program and have the verifier accept it
  pub load_program : Host → Option Host
  pub qdisc_add_clsact : Host → Text → Host
  pub qdisc_detach : Host → Text → Option Host
  -- attach by netlink, take the link and leak it
  pub attach : Host → Text → Option Host
  pub tc_filter_show : Host → Text → TcOutput
  pub remove_file : Host → Text → Option Host
  pub remove_dir : Host → Host
  -- `clock_gettime(CLOCK_MONOTONIC)` at the n-th reading: seconds and nanoseconds
  pub monotonic : ℕ → ℕ × ℕ
  -- seconds since the Unix epoch, or an error if the clock is before it
  pub system_time : ℕ → Option ℕ

abbrev pub addr_eq : Addr6 → Addr6 → Bool
addr_eq = text_eq

-- The hash map of bans does what bpf(2) says of a BPF_MAP_TYPE_HASH with BPF_ANY updates.
pub record BansLaws (P : Platform) : Type 0 where
  pub get-insert :
      (m : P.Bans) (k j : Addr6) (v : BanVal) (m' : P.Bans)
      → P.ban_insert m k v ≡ some m'
      → P.ban_get m' j ≡ (if addr_eq j k then some v else P.ban_get m j)
  pub get-remove :
      (m : P.Bans) (k j : Addr6) (m' : P.Bans)
      → P.ban_remove m k ≡ some m'
      → P.ban_get m' j ≡ (if addr_eq j k then none else P.ban_get m j)
  -- a present key can be removed
  pub remove_of_present : (m : P.Bans) (k : Addr6) → P.ban_get m k ≢ none → P.ban_remove m k ≢ none
  -- what iteration yields is in the map, and, with no error, it yields everything
  pub get_of_iter :
      (m : P.Bans) (k : Addr6) (v : BanVal)
      → In (some (k, v)) (P.ban_iter m)
      → P.ban_get m k ≡ some v
  pub iter_of_get :
      (m : P.Bans) (k : Addr6) (v : BanVal)
      → All (λ e. e ≢ none) (P.ban_iter m)
      → P.ban_get m k ≡ some v
      → In (some (k, v)) (P.ban_iter m)

-- A map with a free entry takes any key.
pub record CapacityLaws (P : Platform) : Type 0 where
  pub insert_of_room :
      (m : P.Bans) (k : Addr6) (v : BanVal) (capacity : ℕ)
      → P.max_entries m ≡ some capacity
      → length (P.ban_iter m) < capacity
      → P.ban_insert m k v ≢ none
  pub max_entries-remove :
      (m : P.Bans) (k : Addr6) (m' : P.Bans)
      → P.ban_remove m k ≡ some m'
      → P.max_entries m' ≡ P.max_entries m
  pub remove_le :
      (m : P.Bans) (k : Addr6) (m' : P.Bans)
      → P.ban_remove m k ≡ some m'
      → length (P.ban_iter m') ≤ length (P.ban_iter m)
  pub remove_shrinks :
      (m : P.Bans) (k : Addr6) (m' : P.Bans)
      → P.ban_get m k ≢ none
      → P.ban_remove m k ≡ some m'
      → length (P.ban_iter m') < length (P.ban_iter m)

-- The one-entry arrays keep what is written.
pub record ArrayLaws (P : Platform) : Type 0 where
  pub config_get-set :
      (m m' : P.Configs) (c : Config) → P.config_set m c ≡ some m' → P.config_get m' ≡ some c
  pub health_get-set :
      (m m' : P.Health) (t : ℕ) → P.health_set m t ≡ some m' → P.health_get m' ≡ some t

-- Loading the object reuses a map that is pinned.
pub record PinLaws (P : Platform) : Type 0 where
  pub load_object-bans :
      (h h' : P.Host) (p p' : Pins P.Bans P.Throttle P.Configs P.Stats P.Health) (m : P.Bans)
      → P.load_object h p ≡ some (h', p')
      → p.bans ≡ some m
      → p'.bans ≡ some m
  pub load_object-config :
      (h h' : P.Host) (p p' : Pins P.Bans P.Throttle P.Configs P.Stats P.Health) (m : P.Configs)
      → P.load_object h p ≡ some (h', p')
      → p.config ≡ some m
      → p'.config ≡ some m
