-- ===== src/Guard/System/Runs.antt =====
-- Runs of the guard: packets and commands in any order, against the ban of an address that no
-- command of the run names.
use fips_shield.Base.{
  ℕ, ◌≤◌, ◌≡◌, refl, Bool, true, false, Option, none, some, List, [], ◌∷◌, arith, Result, ok, err,
  sym, ◌∙◌, ap,
}
use fips_shield.Std.Text.{Text}
use fips_shield.Guard.Kernel.{Addr6, Platform, BansLaws, PinLaws}
use fips_shield.Guard.Cmd.{Error, World, mono_at}
use fips_shield.Guard.Lifecycle.{cmd_unload}
use fips_shield.Guard.Main.{
  Command, load, unload, ban, unban, check, list_bans, throttle, stats, status, watchdog, health,
  main, finish, answer,
}
use fips_shield.Guard.Classifier.{Packet, Loaded, shield_guard, is_banned}
use fips_shield.Guard.Classifier.Counts.{shield_guard-Counted}
use fips_shield.Guard.System.{
  Event, packet, command, Spares, SparesAll, loaded, store, receive, step, run_events,
}
use fips_shield.Guard.System.Kept.{Kept, quiet, Kept-trans}
use fips_shield.Guard.System.Bans.{cmd_ban-Keeps, cmd_unban-Keeps, cmd_check-Keeps, cmd_list-Keeps}
use fips_shield.Guard.System.Host.{
  cmd_load-Keeps, cmd_unload-Keeps, throttle_now-Keeps, cmd_stats-Keeps, cmd_status-Keeps,
  cmd_watchdog-Keeps, cmd_health-Keeps,
}

module _ (P : Platform) (L : BansLaws P) (N : PinLaws P) (pin_dir : Text) (render : Error → Text)
    (a : Addr6) where
  -- The exit code changes nothing that the classifier sees.
  finish-Kept :
      (w : World P) (r : Result Error (Unit {0}) × World P)
      → Kept P a w r.1
      → Kept P a w (finish {P = P} pin_dir render r).1
  finish-Kept w (ok u, w') h = h
  finish-Kept w (err e, w') h = Kept-trans P a w w' _ h (quiet P a _ _ refl (omega arith))

  answer-Kept :
      (w : World P) (r : Result Error Bool × World P)
      → Kept P a w r.1
      → Kept P a w (answer {P = P} pin_dir render r).1
  answer-Kept w (ok true, w') h = h
  answer-Kept w (ok false, w') h = h
  answer-Kept w (err e, w') h = Kept-trans P a w w' _ h (quiet P a _ _ refl (omega arith))

  main-Kept :
      (c : Command) (w : World P) → Spares a c → Kept P a w (main {P = P} pin_dir render c w).1
  unfolding main Spares
  main-Kept (load iface rate burst) w s =
      finish-Kept w _ ((cmd_load-Keeps P N a pin_dir iface rate burst).at w)
  main-Kept (unload iface purge) w s =
      finish-Kept w (cmd_unload {P = P} pin_dir iface purge w)
        (rw s ((cmd_unload-Keeps P a pin_dir iface).at w))
  main-Kept (ban ip seconds) w s = finish-Kept w _ ((cmd_ban-Keeps P L a ip seconds s).at w)
  main-Kept (unban ip) w s = finish-Kept w _ ((cmd_unban-Keeps P L a ip s).at w)
  main-Kept (check ip) w s = answer-Kept w _ ((cmd_check-Keeps P L a ip).at w)
  main-Kept list_bans w s = finish-Kept w _ ((cmd_list-Keeps P L a).at w)
  main-Kept (throttle rate burst) w s =
      finish-Kept w _ ((throttle_now-Keeps P a pin_dir render rate burst).at w)
  main-Kept stats w s = finish-Kept w _ ((cmd_stats-Keeps P L a).at w)
  main-Kept (status iface) w s = answer-Kept w _ ((cmd_status-Keeps P a iface).at w)
  main-Kept (watchdog iface) w s = finish-Kept w _ ((cmd_watchdog-Keeps P N a pin_dir iface).at w)
  main-Kept (health max_age) w s = answer-Kept w _ ((cmd_health-Keeps P a max_age).at w)

  -- The maps of the classifier are the pinned ones.
  pub loaded_bans :
      (w : World P) (k : Loaded P) → loaded {P = P} w ≡ some k → w.pins.bans ≡ some k.bans
  unfolding loaded
  loaded_bans w k h = ground arith

  receive-Kept : (p : Packet) (w : World P) → Kept P a w (receive {P = P} p w).1
  unfolding receive
  receive-Kept p w = go (loaded {P = P} w) refl
    where
      go : (o : Option (Loaded P)) → loaded {P = P} w ≡ o → Kept P a w (receive {P = P} p w).1
      go none q = rw (q, receive) (quiet P a w w refl (omega arith))
      go (some k) q =
          let (slot, _, _, _, bans, _) = shield_guard-Counted P p (mono_at P w.readings) k in
          rw (q, receive)
            (quiet P a w (store (shield_guard {P = P} p (mono_at P w.readings) k).1 w)
              (ap some bans ∙ sym (loaded_bans w k q)) (omega arith))

  step-Kept :
      (e : Event) (events : List Event) (w : World P)
      → SparesAll a (e ∷ events)
      → Kept P a w (step {P = P} pin_dir render e w) × SparesAll a events
  unfolding step SparesAll
  step-Kept (packet p) events w s = (receive-Kept p w, s)
  step-Kept (command c) events w (s, rest) = (main-Kept c w s, rest)

  run_events-Kept :
      (events : List Event) (w : World P)
      → SparesAll a events
      → Kept P a w (run_events {P = P} pin_dir render events w)
  unfolding run_events
  run_events-Kept [] w s = quiet P a w w refl (omega arith)
  run_events-Kept (e ∷ events) w s =
      let (h, rest) = step-Kept e events w s in
      Kept-trans P a w (step {P = P} pin_dir render e w) _ h
        (run_events-Kept events (step {P = P} pin_dir render e w) rest)

  -- Let any packets arrive and any commands run, in any order and each with success or not, but
  -- none that bans or unbans the address and no purge. Then the map of bans stays pinned, and the
  -- classifier's verdict on the address's ban is, at any time that is not before a reading of the
  -- clock made so far, what it would have been by the map before them.
  pub run_events-is_banned :
      (events : List Event) (w : World P) (k : Loaded P) (now : ℕ)
      → SparesAll a events
      → w.pins.bans ≡ some k.bans
      → ((i : ℕ) → i ≤ (run_events {P = P} pin_dir render events w).readings → mono_at P i ≤ now)
      → (bans : P.Bans) × ((run_events {P = P} pin_dir render events w).pins.bans ≡ some bans)
        × (is_banned {P = P} a now (record k { bans = bans }) ≡ is_banned {P = P} a now k)
  run_events-is_banned events w k now s e past =
      let (bans, pinned, verdict) = (run_events-Kept events w s).same k e in
      (bans, pinned, verdict now past)

  -- The verdict at the end of a run, by the map at its start.
  pub verdict_after :
      (events : List Event) (w : World P) (m : P.Bans) (k : Loaded P)
      → ((i j : ℕ) → i ≤ j → mono_at P i ≤ mono_at P j)
      → SparesAll a events
      → w.pins.bans ≡ some m
      → loaded {P = P} (run_events {P = P} pin_dir render events w) ≡ some k
      → let now = mono_at P (run_events {P = P} pin_dir render events w).readings in
        is_banned {P = P} a now k ≡ is_banned {P = P} a now (record k { bans = m })
  verdict_after events w m k clock s e q =
      let w' = run_events {P = P} pin_dir render events w in
      let (bans, pinned, verdict) =
        run_events-is_banned events w (record k { bans = m }) (mono_at P w'.readings) s e
          (λ i le. clock i w'.readings le) in
      let same : k.bans ≡ bans = ground (arith, loaded_bans w' k q, pinned) in
      ap (λ b. is_banned {P = P} a (mono_at P w'.readings) (record k { bans = b })) same ∙ verdict
