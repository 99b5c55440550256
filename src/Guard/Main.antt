-- ===== src/Guard/Main.antt =====
-- `main` of guard/src/main.rs: from a command to its exit code. The command line is read by clap.
use fips_shield.Base.{ℕ, Bool, true, false, ◌++◌, ltb, if◌then◌else◌, Result, ok, err}
use fips_shield.Base.Int.{ℤ}
use fips_shield.Std.Text.{Text, codes}
use fips_shield.Std.Number.{to_text}
use fips_shield.Guard.Kernel.{Platform}
use fips_shield.Guard.Cmd.{Error, World, Cmd, ◌>>◌, println, eprintln}
use fips_shield.Guard.Bans.{cmd_ban, cmd_unban, cmd_check, cmd_list}
use fips_shield.Guard.Lifecycle.{
  cmd_load, cmd_unload, cmd_status, cmd_watchdog, cmd_health, set_config,
}
use fips_shield.Guard.Stats.{cmd_stats}

-- `Cmd`, with the values that clap has parsed or defaulted.
pub data Command : Type 0 where
  load : Text → ℕ → ℕ → Command
  unload : Text → Bool → Command
  ban : Text → ℤ → Command
  unban : Text → Command
  check : Text → Command
  list_bans : Command
  throttle : ℕ → ℕ → Command
  stats : Command
  status : Text → Command
  watchdog : Text → Command
  health : ℕ → Command

pub data ExitCode : Type 0 where
  success failure : ExitCode

module _ {P : Platform} (pin_dir : Text) (render : Error → Text) where
  -- `render` is the error's text, made by anyhow.
  abbrev pub finish : Result Error (Unit {0}) × World P → ExitCode × World P
  finish (ok u, w) = (success, w)
  finish (err e, w) = (failure, (eprintln (codes "error: " ++ render e) w).1)

  -- `check`, `status` and `health` report through the exit code.
  abbrev pub answer : Result Error Bool × World P → ExitCode × World P
  answer (ok true, w) = (success, w)
  answer (ok false, w) = (failure, w)
  answer (err e, w) = finish (err e, w)

  unfoldable pub throttle_now : ℕ → ℕ → Cmd P (Unit {0})
  throttle_now rate burst = do
    set_config rate burst
    if ltb 0 rate
        then println (
            codes "throttle: "
            ++ (to_text rate ++ (codes " pkt/s per source, burst " ++ to_text burst)))
        else println (codes "throttle: disabled")

  unfoldable pub main : Command → World P → ExitCode × World P
  unfolding throttle_now
  main (load iface rate burst) w = finish (cmd_load pin_dir iface rate burst w)
  main (unload iface purge) w = finish (cmd_unload pin_dir iface purge w)
  main (ban ip seconds) w = finish (cmd_ban ip seconds w)
  main (unban ip) w = finish (cmd_unban ip w)
  main (check ip) w = answer (cmd_check ip w)
  main list_bans w = finish (cmd_list w)
  main (throttle rate burst) w = finish (throttle_now rate burst w)
  main stats w = finish (cmd_stats w)
  main (status iface) w = answer (cmd_status iface w)
  main (watchdog iface) w = finish (cmd_watchdog pin_dir iface w)
  main (health max_age) w = answer (cmd_health max_age w)
