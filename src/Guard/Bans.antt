-- ===== src/Guard/Bans.antt =====
-- The ban commands of guard/src/main.rs: `prune_expired`, `cmd_ban`, `cmd_unban`, `cmd_check` and
-- `cmd_list`. Messages are not broken over lines as the source's literals are.
pub mod Prune
pub mod Ban
pub mod Unban
pub mod Check
pub mod Full
pub mod Listing
use fips_shield.Base.{
  ℕ, Bool, true, false, ◌&&◌, ◌||◌, not, Option, none, some, List, [], ◌∷◌, ◌++◌, leb, ltb, ◌==◌,
  if◌then◌else◌, ok, err, length, unwrap_or, map,
}
use fips_shield.Base.Int.{ℤ, is_nonpos, magnitude}
use fips_shield.Std.Text.{Text, codes}
use fips_shield.Std.Number.{to_text}
use fips_shield.Std.Ipv6.{show_v6}
use fips_shield.Guard.Kernel.{Addr6, BanVal, Platform}
use fips_shield.Guard.Cmd.{
  cannot_read, sweep_failed, cannot_insert, cannot_remove, still_banned, Cmd, ◌>>=◌, ◌>>◌, pure,
  bail, or_fail, println, eprintln, now_mono_ns, now_epoch_s, bans_map, write_bans, parse_v6,
  saturating_add, saturating_mul,
}

-- 0 is permanent and never lapses.
unfoldable pub is_expired : ℕ → BanVal → Bool
is_expired now v = not (v.expires_mono_ns == 0) && leb v.expires_mono_ns now

-- The keys of the lapsed entries; an entry that cannot be read ends the loop with an error.
unfoldable pub expired_keys : ℕ → List (Option (Addr6 × BanVal)) → Option (List Addr6)
expired_keys now [] = some []
expired_keys now (none ∷ entries) = none
expired_keys now (some (key, v) ∷ entries) = elim (expired_keys now entries) [
  | none ↦ none
  | some keys ↦ some (if is_expired now v then key ∷ keys else keys)
]

-- The entries that a list shows.
unfoldable pub active_entries : ℕ → List (Option (Addr6 × BanVal)) → Option (List (Addr6 × ℕ))
active_entries now [] = some []
active_entries now (none ∷ entries) = none
active_entries now (some (key, v) ∷ entries) = elim (active_entries now entries) [
  | none ↦ none
  | some active ↦ some (
      if v.expires_mono_ns == 0 || ltb now v.expires_mono_ns
      then (key, v.expires_epoch_s) ∷ active
      else active)
]

unfoldable pub ban_line : Addr6 × ℕ → Text
ban_line (key, until) = show_v6 key ++ (b' ' ∷ to_text until)

note_v4 : Text → Text
note_v4 ip = codes "note: " ++ (ip ++ codes " is IPv4; the mesh is IPv6-only, nothing to do")

is_some : Option BanVal → Bool
is_some none = false
is_some (some v) = true

module _ (P : Platform) where
  -- `let _ = bans.remove(&key)` for each key: a removal that fails leaves the entry.
  unfoldable pub remove_keys : List Addr6 → P.Bans → P.Bans
  remove_keys [] bans = bans
  remove_keys (key ∷ keys) bans = remove_keys keys (unwrap_or bans (P.ban_remove bans key))

module _ {P : Platform} where
  -- The number of lapsed entries, and the map after their removal.
  unfoldable pub prune_expired : P.Bans → Cmd P (ℕ × P.Bans)
  unfolding now_mono_ns
  prune_expired bans = do
    now ← now_mono_ns
    keys ← or_fail (cannot_read (codes "shield_bans")) (expired_keys now (P.ban_iter bans))
    write_bans (remove_keys P keys bans)
    pure (length keys, remove_keys P keys bans)

  -- The value for a ban of so many seconds.
  unfoldable pub ban_value : ℤ → Cmd P BanVal
  unfolding now_mono_ns now_epoch_s
  ban_value seconds =
      if is_nonpos seconds then pure (record { expires_mono_ns = 0; expires_epoch_s = 0 }) else (do
        mono ← now_mono_ns
        epoch ← now_epoch_s
        pure (record {
          expires_mono_ns = saturating_add mono (saturating_mul (magnitude seconds) 1_000_000_000);
          expires_epoch_s = saturating_add epoch (magnitude seconds);
        }))

  -- `.context(…)` on the sweep's error
  unfoldable pub sweep : P.Bans → Cmd P (ℕ × P.Bans)
  sweep bans w =
      let (r, w') = prune_expired bans w in
      elim r [ ok n ↦ (ok n, w') | err e ↦ (err sweep_failed, w') ]

  -- Insert; if that fails, sweep the lapsed entries and insert once more.
  unfoldable pub insert_ban : Addr6 → BanVal → P.Bans → Cmd P (Unit {0})
  insert_ban key val bans = elim (P.ban_insert bans key val) [
    | some bans' ↦ write_bans bans'
    | none ↦ do
      swept ← sweep bans
      bans' ← or_fail (cannot_insert swept.0) (P.ban_insert swept.1 key val)
      write_bans bans'
      eprintln
          (codes "note: ban map was full; swept " ++ (to_text swept.0 ++ codes " expired entries"))
  ]

  unfoldable pub ban_address : Text → ℤ → Addr6 → Cmd P (Unit {0})
  unfolding bans_map
  ban_address ip seconds key = do
    bans ← bans_map
    val ← ban_value seconds
    insert_ban key val bans
    println (codes "banned " ++ (ip ++ (codes " until " ++ to_text val.expires_epoch_s)))

  unfoldable pub cmd_ban : Text → ℤ → Cmd P (Unit {0})
  unfolding note_v4
  cmd_ban ip seconds w = elim (parse_v6 ip) [
    | err e ↦ (err e, w)
    | ok addr ↦ elim addr [
      | none ↦ eprintln (note_v4 ip) w
      | some key ↦ ban_address ip seconds key w
    ]
  ]

  -- The removal, whose failure counts only if there was something to remove.
  unfoldable pub remove_ban : Text → Addr6 → Bool → P.Bans → Cmd P P.Bans
  remove_ban ip key was_banned bans = elim (P.ban_remove bans key) [
    | some bans' ↦ do write_bans bans'; pure bans'
    | none ↦ if was_banned then bail (cannot_remove ip) else pure bans
  ]

  unfoldable pub unban_address : Text → Addr6 → Cmd P (Unit {0})
  unfolding bans_map is_some
  unban_address ip key = do
    bans ← bans_map
    bans' ← remove_ban ip key (is_some (P.ban_get bans key)) bans
    (if is_some (P.ban_get bans' key) then bail (still_banned ip) else pure tt)
    println (codes "unbanned " ++ ip)
    if is_some (P.ban_get bans key)
        then pure tt
        else eprintln
            (codes "note: " ++ (ip ++ codes " was not banned in the guard; nothing to remove"))

  unfoldable pub cmd_unban : Text → Cmd P (Unit {0})
  unfolding note_v4
  cmd_unban ip w = elim (parse_v6 ip) [
    | err e ↦ (err e, w)
    | ok addr ↦ elim addr [ none ↦ eprintln (note_v4 ip) w | some key ↦ unban_address ip key w ]
  ]

  -- The clock is read only for a ban that is not permanent.
  unfoldable pub is_active : BanVal → Cmd P Bool
  unfolding now_mono_ns
  is_active v =
      if v.expires_mono_ns == 0
      then pure true
      else (do now ← now_mono_ns; pure (ltb now v.expires_mono_ns))

  unfoldable pub check_entry : Text → Addr6 → P.Bans → Option BanVal → Cmd P Bool
  check_entry ip key bans none = do println (codes "not banned " ++ ip); pure false
  check_entry ip key bans (some v) = do
    active ← is_active v
    if active
        then (do
          println (codes "banned " ++ (ip ++ (codes " until " ++ to_text v.expires_epoch_s)))
          pure true)
        else (do
          write_bans (unwrap_or bans (P.ban_remove bans key))
          println (codes "not banned " ++ ip)
          pure false)

  unfoldable pub check_address : Text → Addr6 → Cmd P Bool
  unfolding bans_map
  check_address ip key = do bans ← bans_map; check_entry ip key bans (P.ban_get bans key)

  unfoldable pub cmd_check : Text → Cmd P Bool
  cmd_check ip w = elim (parse_v6 ip) [
    | err e ↦ (err e, w)
    | ok addr ↦ elim addr [
      | none ↦ (do println (codes "not banned " ++ ip); pure false) w
      | some key ↦ check_address ip key w
    ]
  ]

  unfoldable pub print_lines : List Text → Cmd P (Unit {0})
  print_lines [] = pure tt
  print_lines (line ∷ rest) = do println line; print_lines rest

  unfoldable pub cmd_list : Cmd P (Unit {0})
  unfolding bans_map now_mono_ns
  cmd_list = do
    bans ← bans_map
    pruned ← prune_expired bans
    now ← now_mono_ns
    active ← or_fail (cannot_read (codes "shield_bans")) (active_entries now (P.ban_iter pruned.1))
    print_lines (map ban_line active)
