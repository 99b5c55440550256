-- ===== src/Guard/Lifecycle/Watch.antt =====
-- What a successful `cmd_watchdog` guarantees, and what `cmd_health` makes of it.
use fips_shield.Base.{
  [], ◌∷◌, ◌++◌, ℕ, suc, ◌+◌, ◌-◌, ◌≡◌, refl, Bool, true, false, ◌||◌, some, leb, ◌==◌,
  if◌then◌else◌, Result, ok, err, arith, Option-cases, inl, inr,
}
use fips_shield.Guard.Lifecycle.{
  repair, classifier_attached, write_heartbeat, cmd_load, cmd_watchdog, cmd_health, running_config,
  prog_name,
}
use fips_shield.Std.Text.{Text, codes, contains}
use fips_shield.Guard.Kernel.{Platform, ArrayLaws, TcOutput, not_run, failed, printed}
use fips_shield.Guard.Cmd.{
  continue, ◌>>=◌, pure, bail, ◌>>◌, eprintln, cannot_run_tc, tc_failed, not_present_after_attach,
  Error, World, Cmd, epoch_at,
}

module _ (P : Platform) where
  -- A heartbeat that reports success, written at a reading of the clock.
  pub record Beat (w w' : World P) : Type 0 where
    pub before : P.Health
    pub after : P.Health
    pub pinned : w.pins.health ≡ some before
    pub written : P.health_set before (epoch_at P w.readings) ≡ some after
    pub stored : w'.pins ≡ record w.pins { health = some after }
    pub same_host : w'.host ≡ w.host
    pub later : w'.readings ≡ w.readings + 1

  pub write_heartbeat_inv : (w w' : World P) → write_heartbeat {P = P} w ≡ (ok tt, w') → Beat w w'
  unfolding write_heartbeat
  write_heartbeat_inv w w' h = elim (Option-cases w.pins.health) [
    | inl e ↦ absurd (ground arith)
    | inr (m, e) ↦ elim (Option-cases (P.health_set m (epoch_at P w.readings))) [
      | inl n ↦ absurd (ground arith)
      | inr (m', s) ↦ record {
        before = m;
        after = m';
        pinned = e;
        written = s;
        stored = ground arith;
        same_host = ground arith;
        later = ground arith;
      }
    ]
  ]

  -- The test of the attachment reads, and changes nothing.
  data Attachment (iface : Text) (w : World P) : Type 0 where
    known : (b : Bool) → classifier_attached {P = P} iface w ≡ (ok b, w) → Attachment iface w
    unknown : (e : Error) → classifier_attached {P = P} iface w ≡ (err e, w) → Attachment iface w

  attachment : (iface : Text) (w : World P) → Attachment iface w
  unfolding classifier_attached
  attachment iface w = go (P.tc_filter_show w.host iface) refl
    where
      go : (o : TcOutput) → P.tc_filter_show w.host iface ≡ o → Attachment iface w
      go not_run e = unknown cannot_run_tc (ground arith)
      go (failed s) e = unknown (tc_failed iface s) (ground arith)
      go (printed s) e = known (contains s prog_name) (ground arith)

  -- `tc` shows the classifier on the interface.
  abbrev pub IsAttached : Text → World P → Type 0
  IsAttached iface w = (classifier_attached {P = P} iface w).0 ≡ ok true

  -- The heartbeat that ends a successful run of the watchdog, and the load before it if there was
  -- one.
  pub data Watched (pin_dir iface : Text) (w w1 : World P) : Type 0 where
    was_attached : w1 ≡ w → Watched pin_dir iface w w1
    reattached :
        (w0 : World P)
        → w0.pins ≡ w.pins
        → w0.readings ≡ w.readings
        → cmd_load {P = P} pin_dir iface
            (running_config {P = P} w0).rate_pps
            (running_config {P = P} w0).burst_pkts
            w0
          ≡ (ok tt, w1)
        → Watched pin_dir iface w w1

  abbrev pub Ended : Text → Text → World P → World P → Type 0
  Ended pin_dir iface w w' =
      (w1 w2 : World P) × Watched pin_dir iface w w1
      × IsAttached iface w1
      × (write_heartbeat {P = P} w1 ≡ (ok tt, w2))
      × (w'.pins ≡ w2.pins)
      × (w'.host ≡ w2.host)
      × (w'.readings ≡ w2.readings)

  -- What the repair does once the classifier is loaded.
  abbrev confirm : Text → Cmd P (Unit {0})
  confirm iface = do
    again ← classifier_attached iface
    (if again then pure tt else bail (not_present_after_attach iface))
    write_heartbeat
    eprintln (codes "watchdog: re-attached to " ++ iface)

  confirm_end :
      (pin_dir iface : Text) (w w1 w' : World P)
      → Watched pin_dir iface w w1
      → confirm iface w1 ≡ (ok tt, w')
      → Ended pin_dir iface w w'
  confirm_end pin_dir iface w w1 w' v h = go (attachment iface w1) (write_heartbeat {P = P} w1) refl
    where
      go :
          Attachment iface w1
          → (r : Result Error (Unit {0}) × World P) → write_heartbeat {P = P} w1 ≡ r
          → Ended pin_dir iface w w'
      go (unknown e q) r b = absurd (ground arith)
      go (known false q) r b = absurd (ground arith)
      go (known true q) (err e, w2) b = absurd (ground arith)
      go (known true q) (ok u, w2) b =
          (w1, w2, v, ground arith, b, ground arith, ground arith, ground arith)

  pub watchdog_end :
      (pin_dir iface : Text) (w w' : World P)
      → cmd_watchdog {P = P} pin_dir iface w ≡ (ok tt, w')
      → Ended pin_dir iface w w'
  unfolding cmd_watchdog repair
  watchdog_end pin_dir iface w w' h = go (attachment iface w)
    where
      load :
          (w0 : World P)
          → w0.pins ≡ w.pins
          → w0.readings ≡ w.readings
          → (r : Result Error (Unit {0}) × World P)
          → cmd_load {P = P} pin_dir iface
              (running_config {P = P} w0).rate_pps
              (running_config {P = P} w0).burst_pkts
              w0
            ≡ r
          → continue {P = P} r (λ u. confirm iface) ≡ (ok tt, w')
          → Ended pin_dir iface w w'
      load w0 p n (ok u, w1) q c = confirm_end pin_dir iface w w1 w' (reattached w0 p n q) c
      load w0 p n (err e, w1) q c = absurd (ground arith)

      go : Attachment iface w → Ended pin_dir iface w w'
      go (unknown e q) = absurd (ground arith)
      go (known true q) = (w, w', was_attached refl, ground arith, ground arith, refl, refl, refl)
      go (known false q) =
          let w0 : World P = record w {
            stderr =
                w.stderr
                ++ ((codes "watchdog: "
                      ++ (prog_name
                          ++ (codes " is not attached to " ++ (iface ++ codes "; re-attaching"))))
                    ∷ []);
          } in
          load w0 refl refl
            (cmd_load {P = P} pin_dir iface (running_config {P = P} w0).rate_pps
              (running_config {P = P} w0).burst_pkts w0)
            refl (rw (cmd_watchdog, q) at h)

module _ (P : Platform) (A : ArrayLaws P) (pin_dir iface : Text) (w w' : World P) where
  -- A watchdog run that reports success leaves the classifier attached to the interface, as `tc`
  -- shows it, and a pinned heartbeat that holds the wall-clock time of a reading that the run made.
  -- A health check after it answers by the age of that heartbeat; a heartbeat of 0 counts as none,
  -- and is healthy.
  pub cmd_watchdog-cmd_health :
      (max_age : ℕ)
      → cmd_watchdog {P = P} pin_dir iface w ≡ (ok tt, w')
      → IsAttached P iface w'
        × ((n : ℕ) × (suc n ≡ w'.readings)
            × ((cmd_health {P = P} max_age w').0
                ≡ ok (epoch_at P n == 0 || leb (epoch_at P w'.readings - epoch_at P n) max_age)))
  unfolding cmd_health classifier_attached
  cmd_watchdog-cmd_health max_age h =
      let (w1, w2, v, attached, b, pins, host, reads) = watchdog_end P pin_dir iface w w' h in
      let beat = write_heartbeat_inv P w1 w2 b in
      let get : P.health_get beat.after ≡ some (epoch_at P w1.readings) =
        A.health_get-set beat.before beat.after (epoch_at P w1.readings) beat.written in
      let stored = beat.stored in
      let same = beat.same_host in
      let later = beat.later in (ground arith, (w1.readings, omega arith, ground arith))
