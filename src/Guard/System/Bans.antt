-- ===== src/Guard/System/Bans.antt =====
-- The commands of guard/src/main.rs that write the map of bans, each against the ban of an address
-- that it does not name.
use fips_shield.Guard.Bans.{
  is_active, check_entry, remove_ban, unban_address, expired_keys, prune_expired, sweep, insert_ban,
  ban_value, ban_address, cmd_ban, cmd_list, active_entries, ban_line, cmd_check, cmd_unban,
  check_address,
}
use fips_shield.Guard.Cmd.{
  cannot_read, cannot_insert, Error, World, Cmd, mono_at, continue, or_fail, eprintln, write_bans,
  ◌>>=◌, ◌>>◌, parse_v6,
}
use fips_shield.Guard.System.Kept.{
  Keeps-print_lines, Keeps-now_mono_ns, SameVerdict, Kept, Keeps, KeepsFor, quiet, Kept-trans,
  Kept-continue, Keeps-bind, Keeps-or_fail, Keeps-bans_map, Kept-write_bans,
}
use fips_shield.Base.{
  ℕ, ◌≤◌, ◌≡◌, ◌≢◌, refl, false, Option, none, some, ◌++◌, arith, Result, ok, err, inl, inr,
  Option-cases, Bool-cases, ◌∙◌, unwrap_or, map,
}
use fips_shield.Base.Int.{ℤ}
use fips_shield.Std.Number.{to_text}
use fips_shield.Std.Text.{Text, codes, text_eq→eq}
use fips_shield.Guard.Kernel.{Addr6, BanVal, Platform, BansLaws, addr_eq}
use fips_shield.Guard.Classifier.{Loaded, is_banned}
use fips_shield.Guard.Bans.Prune.{prune_inv, get-prune}
use fips_shield.Guard.Bans.Ban.{sweep_inv, ban_value_lem}
use fips_shield.Guard.Bans.Check.{cmd_check-keeps_verdicts}
use fips_shield.Guard.Bans.Unban.{cmd_unban-is_banned}
use fips_shield.Guard.Enforce.{blocks-unexpired}

abbrev swept_note : ℕ → Text
swept_note n = codes "note: ban map was full; swept " ++ (to_text n ++ codes " expired entries")

module _ (P : Platform) (L : BansLaws P) (a : Addr6) where
  prune_failed :
      (bans : P.Bans) (f : Error) (w w' : World P)
      → prune_expired {P = P} bans w ≡ (err f, w')
      → (w'.pins.bans ≡ w.pins.bans) × (w.readings ≤ w'.readings)
  unfolding prune_expired
  prune_failed bans f w w' h =
      elim (Option-cases (expired_keys (mono_at P w.readings) (P.ban_iter bans))) [
        | inl e ↦ (ground arith, ground arith)
        | inr (keys, e) ↦ absurd (ground arith)
      ]

  -- The verdict after a sweep that succeeds.
  pruned-is_banned :
      (bans m : P.Bans) (n : ℕ) (w w' : World P) (k : Loaded P) (now : ℕ)
      → prune_expired {P = P} bans w ≡ (ok (n, m), w')
      → k.bans ≡ bans
      → mono_at P w.readings ≤ now
      → is_banned {P = P} a now (record k { bans = m }) ≡ is_banned {P = P} a now k
  unfolding is_banned
  pruned-is_banned bans m n w w' k now h e le =
      rw (is_banned, get-prune P L bans m n w w' a h, e)
        (blocks-unexpired (mono_at P w.readings) now (P.ban_get bans a) le)

  -- A sweep, whether or not it succeeds.
  pub prune_expired-Kept :
      (bans : P.Bans) (w : World P)
      → w.pins.bans ≡ some bans
      → Kept P a w (prune_expired {P = P} bans w).1
  prune_expired-Kept bans w e = go (prune_expired {P = P} bans w) refl
    where
      go :
          (r : Result Error (ℕ × P.Bans) × World P)
          → prune_expired {P = P} bans w ≡ r
          → Kept P a w r.1
      go (err f, w') h =
          quiet P a w w' (prune_failed bans f w w' h).0 (prune_failed bans f w w' h).1
      go (ok (n, m), w') h =
          let (keys, x, _, q, pins, reads) = prune_inv P bans m n w w' h in
          record {
            later = omega arith;
            same = λ k e'. (
              m,
              ground arith,
              λ now past.
                  pruned-is_banned bans m n w w' k now h (ground (arith, e, e'))
                    (past w.readings (omega arith)),
            );
          }

  sweep-Kept :
      (bans : P.Bans) (w : World P) → w.pins.bans ≡ some bans → Kept P a w (sweep {P = P} bans w).1
  unfolding sweep
  sweep-Kept bans w e = go (prune_expired {P = P} bans w) refl
    where
      go :
          (r : Result Error (ℕ × P.Bans) × World P)
          → prune_expired {P = P} bans w ≡ r
          → Kept P a w (sweep {P = P} bans w).1
      go (ok p, w') h = rw (h, sweep) (prune_expired-Kept bans w e)
      go (err f, w') h = rw (h, sweep) (prune_expired-Kept bans w e)

  sweep_pins :
      (bans m : P.Bans) (n : ℕ) (w w' : World P)
      → sweep {P = P} bans w ≡ (ok (n, m), w')
      → w'.pins.bans ≡ some m
  sweep_pins bans m n w w' h =
      let (_, _, _, _, pins, _) = prune_inv P bans m n w w' (sweep_inv bans m n w w' h) in
      ground arith

  -- A map into which another address was inserted.
  inserted-SameVerdict :
      (b : Addr6) (val : BanVal) (bans m : P.Bans) (w : World P)
      → addr_eq a b ≡ false
      → P.ban_insert bans b val ≡ some m
      → (k : Loaded P) → k.bans ≡ bans
      → SameVerdict P a w k m
  unfolding is_banned
  inserted-SameVerdict b val bans m w ne i k e now past =
      rw (is_banned, L.get-insert bans b a val m i, ne, e) refl

  -- The second attempt of an insertion.
  second_insert-Kept :
      (b : Addr6) (val : BanVal) (p : ℕ × P.Bans) (w : World P)
      → addr_eq a b ≡ false
      → w.pins.bans ≡ some p.1
      → (o : Option P.Bans) → P.ban_insert p.1 b val ≡ o
      → Kept P a w
          (continue {P = P}
            (or_fail {P = P} (cannot_insert p.0) o w)
            (λ m. write_bans m >> eprintln (swept_note p.0))).1
  second_insert-Kept b val p w ne e none i = quiet P a w w refl (omega arith)
  second_insert-Kept b val p w ne e (some m) i =
      Kept-trans P a w (write_bans {P = P} m w).1
        (eprintln {P = P} (swept_note p.0) (write_bans {P = P} m w).1).1
        (Kept-write_bans P a w p.1 m e
          (inserted-SameVerdict b val p.1 m (write_bans {P = P} m w).1 ne i))
        (quiet P a _ _ refl (omega arith))

  -- An insertion for another address, with the sweep that a full map makes it do.
  insert_ban-Kept :
      (b : Addr6) (val : BanVal) (bans : P.Bans) (w : World P)
      → addr_eq a b ≡ false
      → w.pins.bans ≡ some bans
      → Kept P a w (insert_ban {P = P} b val bans w).1
  unfolding insert_ban
  insert_ban-Kept b val bans w ne e = go (P.ban_insert bans b val) refl
    where
      go :
          (o : Option P.Bans)
          → P.ban_insert bans b val ≡ o
          → Kept P a w (insert_ban {P = P} b val bans w).1
      go (some m) i =
          rw (i, insert_ban)
            (Kept-write_bans P a w bans m e
              (inserted-SameVerdict b val bans m (write_bans {P = P} m w).1 ne i))
      go none i =
          rw (i, insert_ban)
            (Kept-continue P a w (sweep {P = P} bans w) _ (sweep-Kept bans w e) (λ p w1 h.
              second_insert-Kept b val p w1 ne (sweep_pins bans p.1 p.0 w w1 h)
                (P.ban_insert p.1 b val) refl))

  -- A sweep and what follows it.
  pub KeepsFor-pruned :
      {B : Type 0} (bans : P.Bans) (f : ℕ × P.Bans → Cmd P B)
      → ((p : ℕ × P.Bans) → Keeps P a (f p))
      → KeepsFor P a bans (prune_expired {P = P} bans >>= f)
  KeepsFor-pruned bans f h = record {
    at = λ w e.
        Kept-continue P a w (prune_expired {P = P} bans w) f (prune_expired-Kept bans w e)
          (λ p w1 q. (h p).at w1);
  }

  pub cmd_list-Keeps : Keeps P a (cmd_list {P = P})
  unfolding cmd_list
  cmd_list-Keeps = Keeps-bans_map P a _ (λ bans. KeepsFor-pruned bans _ (λ p.
      Keeps-bind P a (Keeps-now_mono_ns P a) (λ now.
        Keeps-bind P a
          (Keeps-or_fail P a (cannot_read (codes "shield_bans"))
            (active_entries now (P.ban_iter p.1)))
          (λ active. Keeps-print_lines P a (map ban_line active)))))

  ban_value-Keeps : (seconds : ℤ) → Keeps P a (ban_value {P = P} seconds)
  ban_value-Keeps seconds = record {
    at = λ w.
        let (_, pins, reads) = ban_value_lem {P = P} seconds w in
        quiet P a w (ban_value {P = P} seconds w).1 (ground arith) reads;
  }

  ban_address-Keeps :
      (ip : Text) (seconds : ℤ) (key : Addr6)
      → addr_eq a key ≡ false
      → Keeps P a (ban_address {P = P} ip seconds key)
  unfolding ban_address
  ban_address-Keeps ip seconds key ne = Keeps-bans_map P a _ (λ bans. record {
    at = λ w e.
        Kept-continue P a w (ban_value {P = P} seconds w) _ ((ban_value-Keeps seconds).at w)
          (λ val w1 q.
            Kept-continue P a w1 (insert_ban {P = P} key val bans w1) _
              (insert_ban-Kept key val bans w1 ne
                (let (_, pins, _) = ban_value_lem {P = P} seconds w in ground arith))
              (λ u w2 q2. quiet P a _ _ refl (omega arith)));
  })

  different :
      (ip : Text) (key : Addr6)
      → parse_v6 ip ≢ ok (some a)
      → parse_v6 ip ≡ ok (some key)
      → addr_eq a key ≡ false
  different ip key other q = elim (Bool-cases (addr_eq a key)) [
    | inl e ↦ absurd (other (q ∙ rw (text_eq→eq a key e) refl))
    | inr e ↦ e
  ]

  -- A ban of another address, or of none.
  pub cmd_ban-Keeps :
      (ip : Text) (seconds : ℤ) → parse_v6 ip ≢ ok (some a) → Keeps P a (cmd_ban {P = P} ip seconds)
  unfolding cmd_ban
  cmd_ban-Keeps ip seconds other = record { at = λ w. go w (parse_v6 ip) refl }
    where
      go :
          (w : World P) (r : Result Error (Option Addr6))
          → parse_v6 ip ≡ r
          → Kept P a w (cmd_ban {P = P} ip seconds w).1
      go w (err e) q = rw (q, cmd_ban) (quiet P a _ _ refl (omega arith))
      go w (ok none) q = rw (q, cmd_ban) (quiet P a _ _ refl (omega arith))
      go w (ok (some key)) q =
          rw (q, cmd_ban) ((ban_address-Keeps ip seconds key (different ip key other q)).at w)

  unban_readings :
      (ip : Text) (key : Addr6) (w : World P)
      → (unban_address {P = P} ip key w).1.readings ≡ w.readings
  unfolding unban_address remove_ban
  unban_readings ip key w = ground arith

  -- An unban of another address, or of none.
  pub cmd_unban-Keeps : (ip : Text) → parse_v6 ip ≢ ok (some a) → Keeps P a (cmd_unban {P = P} ip)
  unfolding cmd_unban
  cmd_unban-Keeps ip other = record { at = λ w. go w (parse_v6 ip) refl }
    where
      go :
          (w : World P) (r : Result Error (Option Addr6))
          → parse_v6 ip ≡ r
          → Kept P a w (cmd_unban {P = P} ip w).1
      go w (err e) q = rw (q, cmd_unban) (quiet P a _ _ refl (omega arith))
      go w (ok none) q = rw (q, cmd_unban) (quiet P a _ _ refl (omega arith))
      go w (ok (some key)) q = record {
        later = ground (arith, unban_readings ip key w);
        same = λ k e.
            let (m, w0, done, pins, _) = cmd_unban-is_banned P L ip key w a 0 k q e in
            (
              m,
              ground arith,
              λ now past.
                  let (m', w', done', pins', verdict) =
                    cmd_unban-is_banned P L ip key w a now k q e in
                  let same : m' ≡ m = ground arith in
                  rw (← same) (ground (arith, verdict, different ip key other q)),
            );
      }

  check_readings :
      (ip : Text) (key : Addr6) (w : World P)
      → w.readings ≤ (check_address {P = P} ip key w).1.readings
  unfolding check_address check_entry is_active
  check_readings ip key w = ground arith

  check_pins :
      (ip : Text) (key : Addr6) (w : World P) (bans : P.Bans)
      → w.pins.bans ≡ some bans
      → (m : P.Bans) × ((check_address {P = P} ip key w).1.pins.bans ≡ some m)
  unfolding check_address check_entry is_active
  check_pins ip key w bans e = (
    unwrap_or bans (check_address {P = P} ip key w).1.pins.bans,
    elim (Option-cases (P.ban_get bans key)) [ inl g ↦ ground arith | inr (v, g) ↦ ground arith ],
  )

  -- A check of any address.
  pub cmd_check-Keeps : (ip : Text) → Keeps P a (cmd_check {P = P} ip)
  unfolding cmd_check
  cmd_check-Keeps ip = record { at = λ w. go w (parse_v6 ip) refl }
    where
      go :
          (w : World P) (r : Result Error (Option Addr6))
          → parse_v6 ip ≡ r
          → Kept P a w (cmd_check {P = P} ip w).1
      go w (err e) q = rw (q, cmd_check) (quiet P a _ _ refl (omega arith))
      go w (ok none) q = rw (q, cmd_check) (quiet P a _ _ refl (omega arith))
      go w (ok (some key)) q = record {
        later = ground (arith, check_readings ip key w);
        same = λ k e.
            let (m, pins) = check_pins ip key w k.bans e in
            let pins' : (cmd_check {P = P} ip w).1.pins.bans ≡ some m = ground arith in
            (
              m,
              pins',
              λ now past.
                  cmd_check-keeps_verdicts P L ip key w a now k (record k { bans = m }) q e
                    (past w.readings (ground (arith, check_readings ip key w))) pins',
            );
      }
