-- ===== src/Guard/Bans/Check.antt =====
-- What `cmd_check` answers, against the classifier.
use fips_shield.Base.{ℕ, ◌≤◌, ◌≡◌, inl, inr, some, arith, ok, Bool-cases, Option-cases}
use fips_shield.Std.Text.{Text, text_eq→eq}
use fips_shield.Guard.Kernel.{Addr6, Platform, BansLaws, addr_eq}
use fips_shield.Guard.Cmd.{World, parse_v6, mono_at}
use fips_shield.Guard.Bans.{is_active, check_entry, check_address, cmd_check}
use fips_shield.Guard.Bans.Prune.{get_removed}
use fips_shield.Guard.Classifier.{Loaded, is_banned}

module _ (P : Platform) (ip : Text) (a : Addr6) (w : World P) (bans : P.Bans) where
  -- With the map of bans pinned, a check of an IPv6 address succeeds, and its answer is the
  -- classifier's verdict on the address's ban at the time of the command's reading of the clock.
  pub cmd_check-is_banned :
      (k : Loaded P)
      → parse_v6 ip ≡ ok (some a)
      → w.pins.bans ≡ some bans
      → k.bans ≡ bans
      → (cmd_check {P = P} ip w).0 ≡ ok (is_banned {P = P} a (mono_at P w.readings) k)
  unfolding cmd_check check_address check_entry is_active is_banned
  cmd_check-is_banned k p e q = elim (Option-cases (P.ban_get bans a)) [
    | inl g ↦ ground arith
    | inr (v, g) ↦ ground arith
  ]

module _ (P : Platform) (L : BansLaws P) (ip : Text) (a : Addr6) (w : World P) where
  -- A check changes no verdict: it removes the address's entry only if its ban has lapsed, and at
  -- any time not before the command's reading of the clock the classifier judges every address's
  -- ban as it did before.
  pub cmd_check-keeps_verdicts :
      (j : Addr6) (now : ℕ) (k k' : Loaded P)
      → parse_v6 ip ≡ ok (some a)
      → w.pins.bans ≡ some k.bans
      → mono_at P w.readings ≤ now
      → (cmd_check {P = P} ip w).1.pins.bans ≡ some k'.bans
      → is_banned {P = P} j now k' ≡ is_banned {P = P} j now k
  unfolding cmd_check check_address check_entry is_active is_banned
  cmd_check-keeps_verdicts j now k k' p e t e' = elim (Option-cases (P.ban_get k.bans a)) [
    | inl g ↦ ground arith
    | inr (v, g) ↦ elim (Bool-cases (addr_eq j a)) [
      | inl same ↦
          let at_j : P.ban_get k.bans j ≡ some v = rw (text_eq→eq j a same) g in
          ground (arith, get_removed P L k.bans a j)
      | inr other ↦ ground (arith, get_removed P L k.bans a j)
    ]
  ]
