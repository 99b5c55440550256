-- ===== src/Guard/System/Verdicts.antt =====
-- What becomes of a packet after a ban or an unban, whatever else the node did in between.
use fips_shield.Base.{ℕ, ◌≤◌, ◌≡◌, refl, Bool, true, false, some, List, ok, if◌then◌else◌, ◌∙◌}
use fips_shield.Base.Int.{ℤ}
use fips_shield.Std.Text.{Text}
use fips_shield.Guard.Kernel.{Addr6, Platform, BansLaws, PinLaws}
use fips_shield.Guard.Cmd.{Error, World, mono_at, parse_v6}
use fips_shield.Guard.Bans.{cmd_ban, cmd_unban}
use fips_shield.Guard.Bans.Unban.{cmd_unban-absent}
use fips_shield.Guard.Classifier.{act_shot, Loaded, shield_guard, is_banned, unbanned_packet}
use fips_shield.Guard.Enforce.{packet_from, lasts, cmd_ban-is_banned}
use fips_shield.Guard.System.{Event, SparesAll, loaded, receive, run_events}
use fips_shield.Guard.System.Runs.{verdict_after}

module _ (P : Platform) where
  -- The verdict on a packet, by the verdict on the ban of its source.
  receive_lem :
      (a : Addr6) (b : Bool) (w : World P) (k : Loaded P)
      → loaded {P = P} w ≡ some k
      → is_banned {P = P} a (mono_at P w.readings) k ≡ b
      → (receive {P = P} (packet_from a) w).0
        ≡ some (if b then act_shot else (unbanned_packet {P = P} a (mono_at P w.readings) k).0)
  unfolding receive shield_guard
  receive_lem a true w k q v = rw (receive, q, shield_guard, v) refl
  receive_lem a false w k q v = rw (receive, q, shield_guard, v) refl

module _ (P : Platform) (L : BansLaws P) (N : PinLaws P) (pin_dir : Text) (render : Error → Text)
    (ip : Text) (a : Addr6) (w w' : World P) (events : List Event) where
  -- After a ban of an IPv6 address that reports success, let any packets arrive and any commands
  -- run, but none that bans or unbans the address and no purge. If the clock does not run backwards
  -- and the maps of the classifier are pinned at the end, it drops the next packet from the address
  -- if the ban still lasts, and otherwise treats it as one from an address that has no ban.
  pub cmd_ban-receive :
      (seconds : ℤ) (k : Loaded P)
      → ((i j : ℕ) → i ≤ j → mono_at P i ≤ mono_at P j)
      → parse_v6 ip ≡ ok (some a)
      → cmd_ban {P = P} ip seconds w ≡ (ok tt, w')
      → SparesAll a events
      → loaded {P = P} (run_events {P = P} pin_dir render events w') ≡ some k
      → let later = run_events {P = P} pin_dir render events w' in
        let now = mono_at P later.readings in
        (receive {P = P} (packet_from a) later).0
        ≡ some (
            if lasts seconds (mono_at P w.readings) now
            then act_shot
            else (unbanned_packet {P = P} a now k).0)
  cmd_ban-receive seconds k clock p h s q =
      let later = run_events {P = P} pin_dir render events w' in
      let (m, pinned, verdict) = cmd_ban-is_banned P L ip seconds a w w' p h in
      receive_lem P a _ later k q (
        verdict_after P L N pin_dir render a events w' m k clock s pinned q
        ∙ verdict (record k { bans = m }) (mono_at P later.readings) refl)

  -- After an unban of an IPv6 address that reports success, let any packets arrive and any commands
  -- run, but none that bans or unbans the address and no purge. If the clock does not run backwards
  -- and the maps of the classifier are pinned at the end, it treats the next packet from the
  -- address as one from an address that has no ban.
  pub cmd_unban-receive :
      (k : Loaded P)
      → ((i j : ℕ) → i ≤ j → mono_at P i ≤ mono_at P j)
      → parse_v6 ip ≡ ok (some a)
      → cmd_unban {P = P} ip w ≡ (ok tt, w')
      → SparesAll a events
      → loaded {P = P} (run_events {P = P} pin_dir render events w') ≡ some k
      → let later = run_events {P = P} pin_dir render events w' in
        (receive {P = P} (packet_from a) later).0
        ≡ some (unbanned_packet {P = P} a (mono_at P later.readings) k).0
  unfolding is_banned
  cmd_unban-receive k clock p h s q =
      let later = run_events {P = P} pin_dir render events w' in
      let (m, pinned, gone) = cmd_unban-absent P ip a w w' p h in
      receive_lem P a false later k q (
        verdict_after P L N pin_dir render a events w' m k clock s pinned q
        ∙ rw (is_banned, gone) refl)
