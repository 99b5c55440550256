-- ===== src/Njs/Access.antt =====
-- `access` of core/njs/shield_core.js: the check of a connection when it is accepted.
pub mod Keys
pub mod Counting
use fips_shield.Base.{
  ℕ, suc, ◌+◌, ◌/◌, ◌≡◌, ◌≢◌, Bool, true, false, not, Option, none, some, List, [], ◌∷◌, ◌++◌, ltb,
  ◌==◌, if◌then◌else◌, unwrap_or,
}
use fips_shield.Std.Text.{Text, codes}
use fips_shield.Std.Number.{to_text}
use fips_shield.Njs.Runtime.{Runtime}
use fips_shield.Njs.Bans.{empty_cache, is_banned}
use fips_shield.Njs.Session.{is_path}
use fips_shield.Njs.Policy.{Client, AccessCfg, access_cfg}

-- `ngx.shared.shield_connrate`, the dictionary that all connections share. Its memory is enough.
pub record Dict : Type 1 where
  pub Zone : Type 0
  -- `dict.incr(key, 1, 0)`: the new number
  pub incr : Text → Zone → ℕ × Zone
  -- `dict.add(key, 1)`: whether the key was added, which is false also where it throws
  pub add : Text → Zone → Bool × Zone
  -- the number under a key, 0 if the key is absent
  pub held : Text → Zone → ℕ

-- What nginx documents of `incr` and `add`, as long as no entry is older than the timeout of the zone.
pub record DictLaws (D : Dict) : Type 0 where
  pub incr_new : (k : Text) (z : D.Zone) → (D.incr k z).0 ≡ suc (D.held k z)
  pub held-incr : (k : Text) (z : D.Zone) → D.held k (D.incr k z).1 ≡ suc (D.held k z)
  pub held-incr_ne : (j k : Text) (z : D.Zone) → j ≢ k → D.held j (D.incr k z).1 ≡ D.held j z
  pub held-add_ne : (j k : Text) (z : D.Zone) → j ≢ k → D.held j (D.add k z).1 ≡ D.held j z

-- What a callback leaves behind: a line of the log, or a variable that is set if it is declared.
pub data Line : Type 0 where
  -- `verdict`: the service, the layer, the rule and the detail
  verdict : Text → Text → Text → Text → Line
  warning : Text → Line
  assign : Text → Text → Line

-- `verdict`, without the form of the line.
unfoldable pub report : Text → Text → Text → Text → List Line
report service layer rule detail =
    verdict service layer rule detail ∷ assign (codes "shield_verdict") rule ∷ []

unfoldable pub port_of : Client → Text
port_of s = unwrap_or (codes "?") s.server_port

-- `Math.floor(now / 1000 / window)`, in text; `now` is above 0.
unfoldable pub window_text : ℕ → ℕ → Text
window_text now window = if window == 0 then codes "Infinity" else to_text (now / 1000 / window)

-- The key of a counter.
unfoldable pub conn_key : Text → Text → Text → Text
conn_key port address window = port ++ (b':' ∷ (address ++ (b':' ∷ window)))

-- A connection, and the reading of the clock at which it is accepted.
pub record Conn : Type 0 where
  pub client : Client
  pub reading : ℕ

module _ (D : Dict) where
  -- The dictionary is none if nginx declares none.
  unfoldable pub warn_periodically : Text → Text → Option D.Zone → List Line × Option D.Zone
  warn_periodically key msg none = ([], none)
  warn_periodically key msg (some z) =
      let (first, z') = D.add key z in (if first then warning msg ∷ [] else [], some z')

  module _ (R : Runtime) where
    -- At a reading of the clock.
    unfoldable pub conn_rate_exceeded :
        Client → AccessCfg → ℕ → Option D.Zone → Bool × Option D.Zone
    unfolding conn_key port_of window_text
    conn_rate_exceeded s cfg i zone = if cfg.conn_rate == 0 then (false, zone) else elim zone [
      | none ↦ (false, none)
      | some z ↦
          let (n, z') =
            D.incr
              (conn_key (port_of s) s.remote_address (window_text (R.date_now i) cfg.conn_window))
              z in
          (ltb cfg.conn_rate n, some z')
    ]

    -- The check of the bans, of which a session that is not banned goes on: whether the address is
    -- banned, and what is logged besides the verdict. Each connection has a cache of its own.
    unfoldable pub check_bans :
        Client → AccessCfg → ℕ → Option D.Zone → Bool × (List Line × Option D.Zone)
    unfolding is_banned warn_periodically port_of
    check_bans s cfg i zone =
        let port = port_of s in
        let (banned, cache) = is_banned R cfg.ban_file i s.remote_address empty_cache in
        let nobanfile =
          warn_periodically (codes "__shield_warn_nobanfile:" ++ port)
            (codes "shield-config no ban_file for port "
              ++ (port
                  ++ (codes
                      ": BAN ENFORCEMENT IS DISABLED on this listener (is SHIELD_BAN_FILE set?)")))
            zone in
        let banload =
          warn_periodically (codes "__shield_warn_banload:" ++ port)
            (codes "shield-config banlist "
              ++ (cfg.ban_file ++ (codes " is missing or unreadable: ban enforcement is inactive")))
            zone in
        if is_path cfg.ban_file
        then (banned, if cache.load_failed then banload else ([], zone))
        else (false, nobanfile)

    -- Whether the connection is allowed, what is logged, and the dictionary.
    unfoldable pub access : Client → ℕ → Option D.Zone → Bool × (List Line × Option D.Zone)
    unfolding access_cfg check_bans conn_rate_exceeded report
    access s i zone =
        let cfg = access_cfg R s in
        let (banned, (noted, zone')) = check_bans s cfg i zone in
        let (exceeded, zone'') = conn_rate_exceeded s cfg (i + 1) zone' in
        let lines = assign (codes "shield_service") cfg.service ∷ noted in
        let as_banned =
          report cfg.service (codes "ban") (codes "banned") (codes "rejected-at-accept") in
        let as_exceeded =
          report cfg.service (codes "access") (codes "conn-rate")
            (codes "max=" ++ to_text cfg.conn_rate) in
        if banned
        then (false, (lines ++ as_banned, zone'))
        else if exceeded
        then (false, (lines ++ as_exceeded, zone''))
        else (true, (lines, zone''))

    -- The dictionary after connections, in order.
    unfoldable pub admit : List Conn → Option D.Zone → Option D.Zone
    admit [] o = o
    admit (d ∷ ds) o = admit ds (access d.client d.reading o).1.1
