-- ===== src/Tests/Access.antt =====
-- Connections to the listeners of a shield, with a concrete dictionary and a concrete file of bans.
use fips_shield.Njs.Access.{Conn, admit, Dict, assign, report, access}
use fips_shield.Base.{
  ℕ, suc, ◌+◌, ◌≡◌, refl, true, ◌&&◌, none, some, List, [], ◌∷◌, ltb, ◌==◌, if◌then◌else◌,
}
use fips_shield.Std.Text.{Text, codes, text_eq}
use fips_shield.Std.Number.{to_text, parse_u64}
use fips_shield.Njs.Runtime.{Runtime}
use fips_shield.Njs.Bans.Listed.{Bans}
use fips_shield.Njs.Policy.{Client}

-- A dictionary as a function.
abbrev dict : Dict
dict = record {
  Zone = Text → ℕ;
  incr = λ k z. (suc (z k), λ j. if text_eq j k then suc (z j) else z j);
  add = λ k z. (z k == 0, λ j. if text_eq j k && z k == 0 then 1 else z j);
  held = λ k z. z k;
}

abbrev runtime : Runtime
runtime = record {
  Number = ℕ;
  exceeds = λ x n. ltb n x;
  print = to_text;
  parse_json = λ s. none;
  date_now = λ i. 1_000_000 + i;
  stat_sync = λ p i. some (7, 12);
  read_file = λ p i. some (codes "fd00::9 0\nfd00::8 12\n");
  parse_float = parse_u64;
}

abbrev peer : Text → Text → Client
peer address port = record {
  remote_address = address;
  server_port = some port;
  variables = λ v.
      if text_eq v (codes "shield_cfg_22")
      then some (codes "service=ssh;ban_file=/bans;conn_rate=1")
      else if text_eq v (codes "shield_cfg_80")
      then some (codes "ban_file=/bans;conn_rate=2")
      else none;
}

abbrev conn : Text → Text → ℕ → Conn
conn address port i = record { client = peer address port; reading = i }

-- Two connections to port 80, and one to port 22 of the same client.
abbrev before : List Conn
before =
    conn (codes "fd00::1") (codes "80") 0
    ∷ conn (codes "fd00::1") (codes "80") 2
    ∷ conn (codes "fd00::9") (codes "22") 4
    ∷ []

abbrev ssh : Conn
ssh = conn (codes "fd00::1") (codes "22") 6

-- The third connection to port 80 is refused, and the limit of port 22 is its own.
refuses_third :
    (access dict runtime
      (peer (codes "fd00::1") (codes "80"))
      6
      (admit dict runtime before (some (λ k. 0)))).1.0
    ≡ assign (codes "shield_service") (codes "unknown")
      ∷ report (codes "unknown") (codes "access") (codes "conn-rate") (codes "max=2")
unfolding access admit text_eq parse_u64 to_text
refuses_third = refl

allows_ssh : (access dict runtime ssh.client 6 (admit dict runtime before (some (λ k. 0)))).0 ≡ true
unfolding access admit text_eq parse_u64 to_text
allows_ssh = refl

refuses_banned :
    (access dict runtime (peer (codes "fd00::9") (codes "22")) 6 (some (λ k. 0))).1.0
    ≡ assign (codes "shield_service") (codes "ssh")
      ∷ report (codes "ssh") (codes "ban") (codes "banned") (codes "rejected-at-accept")
unfolding access admit text_eq parse_u64 to_text
refuses_banned = refl

abbrev bans : Bans
bans = (codes "fd00::9", 0) ∷ (codes "fd00::8", 12) ∷ []
