-- ===== src/Guard/Cmd.antt =====
-- The state that a command of guard/src/main.rs works on, and its helpers: errors, printing, the
-- clocks, the pinned maps. One process runs at a time; between two readings of a clock time passes.
use fips_shield.Base.{
  refl, arith, ◌≡◌, ℕ, ◌+◌, ◌*◌, ◌%◌, ◌^◌, unwrap_or, Option, none, some, List, [], ◌∷◌, ◌++◌, min,
  Result, ok, err,
}
use fips_shield.Std.Text.{Text, codes}
use fips_shield.Std.Number.{u64_max}
use fips_shield.Std.IpAddr.{v4, v6, parse_ip}
use fips_shield.Guard.Kernel.{Addr6, Pins, Platform}

-- Where a command may fail.
pub data Error : Type 0 where
  invalid_address : Text → Error
  cannot_open : Text → Error
  cannot_read : Text → Error
  cannot_write : Text → Error
  cannot_run_tc : Error
  tc_failed : Text → Text → Error
  not_present_after_attach : Text → Error
  cannot_create_dir : Error
  load_failed : Error
  cannot_attach : Text → Error
  still_attached : Text → Error
  cannot_unpin : Text → Error
  sweep_failed : Error
  -- after a sweep of so many entries
  cannot_insert : ℕ → Error
  cannot_remove : Text → Error
  still_banned : Text → Error

module _ (P : Platform) where
  -- the clocks at a reading, as u64
  unfoldable pub mono_at : ℕ → ℕ
  mono_at i = let (sec, nsec) = P.monotonic i in (sec * 1_000_000_000 + nsec) % 2 ^ 64

  unfoldable pub epoch_at : ℕ → ℕ
  epoch_at i = unwrap_or 0 (P.system_time i)

  abbrev pub PinsOf : Type 0
  PinsOf = Pins P.Bans P.Throttle P.Configs P.Stats P.Health

  pub record World : Type 0 where
    pub pins : Pins P.Bans P.Throttle P.Configs P.Stats P.Health
    pub host : P.Host
    -- readings of the clocks made so far
    pub readings : ℕ
    pub stdout : List Text
    pub stderr : List Text

  abbrev pub Cmd : Type 0 → Type 0
  Cmd A = World → Result Error A × World

module _ {P : Platform} where
  abbrev pub continue :
      {A B : Type 0} → Result Error A × World P → (A → Cmd P B) → Result Error B × World P
  continue (ok a, w) f = f a w
  continue (err e, w) f = (err e, w)

  infixl 5 ◌>>=◌ ◌>>◌
  abbrev pub ◌>>=◌ : {A B : Type 0} → Cmd P A → (A → Cmd P B) → Cmd P B
  ◌>>=◌ m f w = continue (m w) f

  abbrev pub ◌>>◌ : {B : Type 0} → Cmd P (Unit {0}) → Cmd P B → Cmd P B
  ◌>>◌ m k w = continue (m w) (λ _. k)

  abbrev pub pure : {A : Type 0} → A → Cmd P A
  pure a w = (ok a, w)

  abbrev pub bail : {A : Type 0} → Error → Cmd P A
  bail e w = (err e, w)

  -- a result that is `none` is the error
  abbrev pub or_fail : {A : Type 0} → Error → Option A → Cmd P A
  or_fail e none w = (err e, w)
  or_fail e (some a) w = (ok a, w)

  abbrev pub println : Text → Cmd P (Unit {0})
  println line w = (ok tt, record w { stdout = w.stdout ++ (line ∷ []) })

  abbrev pub eprintln : Text → Cmd P (Unit {0})
  eprintln line w = (ok tt, record w { stderr = w.stderr ++ (line ∷ []) })

  abbrev pub get_world : Cmd P (World P)
  get_world w = (ok w, w)

  unfoldable pub now_mono_ns : Cmd P ℕ
  now_mono_ns w = (ok (mono_at P w.readings), record w { readings = w.readings + 1 })

  unfoldable pub now_epoch_s : Cmd P ℕ
  now_epoch_s w = (ok (epoch_at P w.readings), record w { readings = w.readings + 1 })

  -- `bans_map`, `health_map`, `config_map`: `open_map` of a pinned map
  unfoldable pub bans_map : Cmd P P.Bans
  bans_map w = or_fail (cannot_open (codes "shield_bans")) w.pins.bans w

  unfoldable pub health_map : Cmd P P.Health
  health_map w = or_fail (cannot_open (codes "shield_health")) w.pins.health w

  unfoldable pub config_map : Cmd P P.Configs
  config_map w = or_fail (cannot_open (codes "shield_config")) w.pins.config w

  unfoldable pub stats_map : Cmd P P.Stats
  stats_map w = or_fail (cannot_open (codes "shield_stats")) w.pins.stats w

  -- a map handle stands for the pinned map, so a write through it is a write to the pin
  abbrev pub write_bans : P.Bans → Cmd P (Unit {0})
  write_bans m w = (ok tt, record w { pins = record w.pins { bans = some m } })

  abbrev pub write_config : P.Configs → Cmd P (Unit {0})
  write_config m w = (ok tt, record w { pins = record w.pins { config = some m } })

  abbrev pub write_health : P.Health → Cmd P (Unit {0})
  write_health m w = (ok tt, record w { pins = record w.pins { health = some m } })

-- `parse_v6`: an IPv4 address is no error and no address.
unfoldable pub parse_v6 : Text → Result Error (Option Addr6)
parse_v6 s = elim (parse_ip s) [
  | none ↦ err (invalid_address s)
  | some ip ↦ elim ip [ v4 o ↦ ok none | v6 o ↦ ok (some o) ]
]

-- `saturating_add` and `saturating_mul` of u64
abbrev pub saturating_add : ℕ → ℕ → ℕ
saturating_add a b = min (a + b) u64_max

abbrev pub saturating_mul : ℕ → ℕ → ℕ
saturating_mul a b = min (a * b) u64_max

-- Inversion of a bind that succeeds.
pub continue-eq-ok :
    (P : Platform) {A B : Type 0} (r : Result Error A × World P) (f : A → Cmd P B) (b : B)
    (w' : World P)
    → continue {P = P} r f ≡ (ok b, w')
    → (a : A) × (w1 : World P) × (r ≡ (ok a, w1)) × (f a w1 ≡ (ok b, w'))
continue-eq-ok P (ok a, w1) f b w' h = (a, w1, refl, h)
continue-eq-ok P (err e, w1) f b w' h = absurd (ground arith)
