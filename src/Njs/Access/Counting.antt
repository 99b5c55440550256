-- ===== src/Njs/Access/Counting.antt =====
-- Which connections are allowed, of any sequence of connections to all listeners, against a count of
-- the connections before.
use fips_shield.Base.{
  ℕ, ◌+◌, ◌≡◌, Bool, not, ◌&&◌, Option, some, List, [], ◌∷◌, All, ◌==◌, if◌then◌else◌,
}
use fips_shield.Std.Text.{Text, text_eq}
use fips_shield.Njs.Runtime.{Runtime}
use fips_shield.Njs.Bans.{empty_cache, is_banned}
use fips_shield.Njs.Session.{is_path}
use fips_shield.Njs.Policy.{AccessCfg, access_cfg}
use fips_shield.Njs.Access.{Conn, Dict, DictLaws, port_of, window_text, conn_key}
use fips_shield.Njs.Access.Keys.{IsPortChar}

abbrev pub IsPort : Conn → Type 0
IsPort c = All IsPortChar (port_of c.client)

module _ (R : Runtime) where
  abbrev pub cfg_of : Conn → AccessCfg
  cfg_of c = access_cfg R c.client

  abbrev pub window_of : Conn → Text
  window_of c = window_text (R.date_now (c.reading + 1)) (cfg_of c).conn_window

  abbrev pub key_of : Conn → Text
  key_of c = conn_key (port_of c.client) c.client.remote_address (window_of c)

  -- The address is banned when the connection is accepted.
  unfoldable pub banned : Conn → Bool
  banned c =
      is_path (cfg_of c).ban_file
      && (is_banned R (cfg_of c).ban_file c.reading c.client.remote_address empty_cache).0

  -- A connection that is not banned counts if there is a limit.
  abbrev pub counts : Conn → Bool
  counts c = not (banned c) && not ((cfg_of c).conn_rate == 0)

  -- The same port, address and window.
  abbrev pub alike : Conn → Conn → Bool
  alike c d =
      text_eq (port_of c.client) (port_of d.client)
      && (text_eq c.client.remote_address d.client.remote_address
          && text_eq (window_of c) (window_of d))

  -- The connections among some that count for one.
  unfoldable pub attempts : Conn → List Conn → ℕ
  attempts c [] = 0
  attempts c (d ∷ ds) = (if counts d && alike c d then 1 else 0) + attempts c ds

module _ (D : Dict) (L : DictLaws D) where
  -- The dictionary is there and holds a number under a key.
  abbrev Holds : Text → ℕ → Option D.Zone → Type 0
  Holds k n o = (z : D.Zone) × ((o ≡ some z) × (D.held k z ≡ n))
