-- ===== src/Guard/Bans/Unban.antt =====
-- What `cmd_unban` reports, and what the classifier does afterwards.
use fips_shield.Base.{ℕ, ◌≡◌, inl, inr, false, none, some, arith, if◌then◌else◌, ok, Option-cases}
use fips_shield.Std.Text.{Text, text_eq_refl}
use fips_shield.Guard.Kernel.{Addr6, Platform, BansLaws, addr_eq}
use fips_shield.Guard.Cmd.{World, parse_v6}
use fips_shield.Guard.Bans.{remove_ban, unban_address, cmd_unban}
use fips_shield.Guard.Bans.Prune.{get_absent, absent_of_fail}
use fips_shield.Guard.Classifier.{Loaded, is_banned}

module _ (P : Platform) (ip : Text) (a : Addr6) (w w' : World P) where
  -- An unban of an IPv6 address that reports success leaves a map in which the address is not,
  -- whatever the map's operations do: the command reads the entry back.
  pub cmd_unban-absent :
      parse_v6 ip ≡ ok (some a)
      → cmd_unban {P = P} ip w ≡ (ok tt, w')
      → (m : P.Bans) × (w'.pins.bans ≡ some m) × (P.ban_get m a ≡ none)
  unfolding cmd_unban unban_address remove_ban
  cmd_unban-absent p h = elim (Option-cases w.pins.bans) [
    | inl e ↦ absurd (ground arith)
    | inr (bans, e) ↦ elim (Option-cases (P.ban_remove bans a)) [
      | inl r ↦ (bans, ground arith, ground arith)
      | inr (m, r) ↦ (m, ground arith, ground arith)
    ]
  ]

module _ (P : Platform) (L : BansLaws P) (ip : Text) (a : Addr6) (w : World P) where
  -- With the map of bans pinned, an unban of an IPv6 address succeeds, whether or not the address
  -- was banned. Afterwards the classifier drops nothing from that address for a ban, and its
  -- verdict on the ban of any other address is unchanged.
  pub cmd_unban-is_banned :
      (j : Addr6) (now : ℕ) (k : Loaded P)
      → parse_v6 ip ≡ ok (some a)
      → w.pins.bans ≡ some k.bans
      → (m : P.Bans) × (w' : World P) × (cmd_unban {P = P} ip w ≡ (ok tt, w'))
        × (w'.pins.bans ≡ some m)
        × (is_banned {P = P} j now (record k { bans = m })
            ≡ (if addr_eq j a then false else is_banned {P = P} j now k))
  unfolding cmd_unban unban_address remove_ban is_banned
  cmd_unban-is_banned j now k p e = elim (Option-cases (P.ban_remove k.bans a)) [
    | inl r ↦
        let g : P.ban_get k.bans a ≡ none = absent_of_fail P L k.bans a r in
        (
          k.bans,
          (cmd_unban {P = P} ip w).1,
          ground (arith, g),
          ground (arith, g),
          ground (arith, get_absent P L k.bans a j g),
        )
    | inr (m, r) ↦
        let g : P.ban_get m a ≡ none = rw (L.get-remove k.bans a a m r, text_eq_refl a) in
        (
          m,
          (cmd_unban {P = P} ip w).1,
          ground (arith, g),
          ground (arith, g),
          ground (arith, L.get-remove k.bans a j m r),
        )
  ]
