-- ===== src/Guard/Lifecycle/Throttling.antt =====
-- What a load does to the pinned maps, and that a watchdog's repair keeps bans and configuration.
use fips_shield.Guard.Lifecycle.{
  announce, attach_classifier, cmd_load, set_config, with_headroom, running_config, cmd_watchdog,
}
use fips_shield.Base.{
  ℕ, ◌<◌, ◌≡◌, refl, some, ltb, Result, ok, err, arith, Bool-cases, Option-cases, inl, inr, ◌⊎◌,
}
use fips_shield.Std.Text.{Text}
use fips_shield.Guard.Kernel.{Platform, Config, ArrayLaws, PinLaws}
use fips_shield.Guard.Cmd.{Error, World}
use fips_shield.Guard.Lifecycle.Watch.{
  Watched, was_attached, reattached, watchdog_end, write_heartbeat_inv,
}

module _ (P : Platform) where
  -- What `set_config` writes.
  pub record Configured (rate burst : ℕ) (w w' : World P) : Type 0 where
    pub before : P.Configs
    pub after : P.Configs
    pub pinned : w.pins.config ≡ some before
    pub written : P.config_set before (with_headroom rate burst) ≡ some after
    pub stored : w'.pins ≡ record w.pins { config = some after }

  set_config_inv :
      (rate burst : ℕ) (w w' : World P)
      → set_config {P = P} rate burst w ≡ (ok tt, w')
      → Configured rate burst w w'
  unfolding set_config
  set_config_inv rate burst w w' h = elim (Option-cases w.pins.config) [
    | inl e ↦ absurd (ground arith)
    | inr (m, e) ↦ elim (Option-cases (P.config_set m (with_headroom rate burst))) [
      | inl n ↦ absurd (ground arith)
      | inr (m', s) ↦ record {
        before = m;
        after = m';
        pinned = e;
        written = s;
        stored = ground arith;
      }
    ]
  ]

  -- What attaching has done to the pins.
  pub record Opened (w w' : World P) : Type 0 where
    pub created : P.Host
    pub opened : P.Host
    pub loaded : P.load_object created w.pins ≡ some (opened, w'.pins)

  attach_classifier_inv :
      (iface : Text) (w w' : World P)
      → attach_classifier {P = P} iface w ≡ (ok tt, w')
      → Opened w w'
  unfolding attach_classifier
  attach_classifier_inv iface w w' h = elim (Option-cases (P.create_dir_all w.host)) [
    | inl e ↦ absurd (ground arith)
    | inr (h1, e1) ↦ elim (Option-cases (P.load_object h1 w.pins)) [
      | inl e ↦ absurd (ground arith)
      | inr (q, e2) ↦ record { created = h1; opened = q.0; loaded = ground arith }
    ]
  ]

  -- What a successful load has done.
  pub record LoadDone (rate burst : ℕ) (w w' : World P) : Type 0 where
    pub middle : World P
    pub opened : Opened w middle
    pub configured : Configured rate burst middle w'

  announce_lem :
      (pin_dir iface : Text) (rate burst : ℕ) (w : World P)
      → ((announce {P = P} pin_dir iface rate burst w).0 ≡ ok tt)
        × ((announce {P = P} pin_dir iface rate burst w).1.pins ≡ w.pins)
  unfolding announce
  announce_lem pin_dir iface rate burst w = elim (Bool-cases (ltb 0 rate)) [
    | inl e ↦ (rw e, rw e)
    | inr e ↦ (rw e, rw e)
  ]

  cmd_load_inv :
      (pin_dir iface : Text) (rate burst : ℕ) (w w' : World P)
      → cmd_load {P = P} pin_dir iface rate burst w ≡ (ok tt, w')
      → LoadDone rate burst w w'
  unfolding cmd_load
  cmd_load_inv pin_dir iface rate burst w w' h = go (attach_classifier {P = P} iface w) refl
    where
      last :
          (w1 : World P)
          → attach_classifier {P = P} iface w ≡ (ok tt, w1)
          → (r : Result Error (Unit {0}) × World P) → set_config {P = P} rate burst w1 ≡ r
          → LoadDone rate burst w w'
      last w1 e (err f, w2) c = absurd (ground arith)
      last w1 e (ok u, w2) c =
          let d = set_config_inv rate burst w1 w2 c in
          let stored = d.stored in
          record {
            middle = w1;
            opened = attach_classifier_inv iface w w1 e;
            configured = record {
              before = d.before;
              after = d.after;
              pinned = d.pinned;
              written = d.written;
              stored = ground (arith, announce_lem pin_dir iface rate burst w2);
            };
          }

      go :
          (r : Result Error (Unit {0}) × World P)
          → attach_classifier {P = P} iface w ≡ r
          → LoadDone rate burst w w'
      go (err f, w1) e = absurd (ground arith)
      go (ok u, w1) e = last w1 e (set_config {P = P} rate burst w1) refl

-- A configuration that the classifier does not turn into a drop of every packet.
abbrev pub HasHeadroom : Config → Type 0
HasHeadroom c = (c.rate_pps ≡ 0) ⊎ (0 < c.burst_pkts)

with_headroom_lem : (c : Config) → HasHeadroom c → with_headroom c.rate_pps c.burst_pkts ≡ c
unfolding with_headroom
with_headroom_lem c h = ground arith

running_config_lem :
    (P : Platform) (w : World P) (m : P.Configs) (c : Config)
    → w.pins.config ≡ some m
    → P.config_get m ≡ some c
    → running_config {P = P} w ≡ c
unfolding running_config
running_config_lem P w m c e g = ground arith

module _ (P : Platform) (A : ArrayLaws P) (L : PinLaws P) (pin_dir iface : Text)
    (w w' : World P) where
  -- A watchdog run that reports success keeps the pinned map of bans and the throttle
  -- configuration, if that has headroom, whether or not it had to load the classifier again.
  pub cmd_watchdog-keeps :
      (bans : P.Bans) (m : P.Configs) (c : Config)
      → w.pins.bans ≡ some bans
      → w.pins.config ≡ some m
      → P.config_get m ≡ some c
      → HasHeadroom c
      → cmd_watchdog {P = P} pin_dir iface w ≡ (ok tt, w')
      → (w'.pins.bans ≡ some bans)
        × ((m' : P.Configs) × (w'.pins.config ≡ some m') × (P.config_get m' ≡ some c))
  cmd_watchdog-keeps bans m c b e g r h =
      let (w1, w2, v, _, beat, pins, _, _) = watchdog_end P pin_dir iface w w' h in
      let stored = (write_heartbeat_inv P w1 w2 beat).stored in
      go w1 v (λ x y. (ground arith, (y.0, ground arith, y.2)))
    where
      go :
          (w1 : World P)
          → Watched P pin_dir iface w w1
          → (w1.pins.bans ≡ some bans
              → ((m' : P.Configs) × (w1.pins.config ≡ some m') × (P.config_get m' ≡ some c))
              → (w'.pins.bans ≡ some bans)
                × ((m' : P.Configs) × (w'.pins.config ≡ some m') × (P.config_get m' ≡ some c)))
          → (w'.pins.bans ≡ some bans)
            × ((m' : P.Configs) × (w'.pins.config ≡ some m') × (P.config_get m' ≡ some c))
      go w1 (was_attached q) k = k (ground arith) (m, ground arith, g)
      go w1 (reattached w0 p n l) k =
          let d = cmd_load_inv P pin_dir iface _ _ w0 w1 l in
          let o = d.opened in
          let q = d.configured in
          let stored = q.stored in
          let run : running_config {P = P} w0 ≡ c = running_config_lem P w0 m c (ground arith) g in
          let kept : d.middle.pins.bans ≡ some bans =
            L.load_object-bans o.created o.opened w0.pins d.middle.pins bans o.loaded
              (ground arith) in
          k (ground arith) (
            q.after,
            ground arith,
            cc (
              run,
              with_headroom_lem c r,
              A.config_get-set q.before q.after
                  (with_headroom (running_config {P = P} w0).rate_pps
                    (running_config {P = P} w0).burst_pkts)
                  q.written,
            ),
          )
