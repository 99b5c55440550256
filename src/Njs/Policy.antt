-- ===== src/Njs/Policy.antt =====
-- The policy of a listener: `policy`, `num`, `keyset` and `accessCfg` of core/njs/shield_core.js, and
-- `readCfg` of core/njs/shield_ws.js.
use fips_shield.Base.{
  ℕ, ◌+◌, ◌/◌, ◌≡◌, refl, true, not, Option, none, some, List, [], ◌∷◌, ◌++◌, if◌then◌else◌,
  unwrap_or,
}
use fips_shield.Std.Text.{Text, codes, text_eq, split, split_once}
use fips_shield.Njs.Runtime.{Runtime}
use fips_shield.Njs.Bans.{is_space}
use fips_shield.Njs.Session.{Cfg}

unfoldable pub trim_left : Text → Text
unfolding is_space
trim_left [] = []
trim_left (c ∷ s) = let rest = trim_left s in if is_space c then rest else c ∷ s

unfoldable pub trim_right : Text → Text
unfolding is_space
trim_right [] = []
trim_right (c ∷ s) =
    let rest = trim_right s in
    elim rest [ [] ↦ if is_space c then [] else c ∷ [] | d ∷ r ↦ c ∷ d ∷ r ]

-- `s.trim()`
unfoldable pub trim : Text → Text
unfolding trim_left trim_right
trim s = trim_right (trim_left s)

-- Keys and values, the last one of the text first.
abbrev pub Pairs : Type 0
Pairs = List (Text × Text)

-- A part of the text, `key=value`; without a key it is ignored.
unfoldable pub pair : Text → Option (Text × Text)
unfolding trim split_once
pair s = elim (split_once b'=' s) [
  | none ↦ none
  | some (k, v) ↦ elim k [ [] ↦ none | c ∷ k' ↦ some (trim (c ∷ k'), v) ]
]

unfoldable pub pairs : List Text → Pairs → Pairs
unfolding pair
pairs [] m = m
pairs (s ∷ ss) m = pairs ss (elim (pair s) [ none ↦ m | some p ↦ p ∷ m ])

unfoldable pub knob : Text → Pairs → Option Text
unfolding text_eq
knob k [] = none
knob k (p ∷ m) = let rest = knob k m in if text_eq p.0 k then some p.1 else rest

-- The non-empty parts of a list with commas.
unfoldable pub members : List Text → List Text
unfolding trim
members [] = []
members (p ∷ ps) = let rest = members ps in elim (trim p) [ [] ↦ rest | c ∷ s ↦ (c ∷ s) ∷ rest ]

unfoldable pub keyset : Option Text → Text → List Text
unfolding members split
keyset v dflt =
    members (split b',' (elim v [ none ↦ dflt | some s ↦ elim s [ [] ↦ dflt | c ∷ t ↦ c ∷ t ] ]))

-- `v || dflt`
unfoldable pub or_default : Option Text → Text → Text
or_default none dflt = dflt
or_default (some []) dflt = dflt
or_default (some (c ∷ s)) dflt = c ∷ s

abbrev pub default_types : Text
default_types = codes "EVENT,REQ,CLOSE,COUNT,AUTH,NEG-OPEN,NEG-MSG,NEG-CLOSE"

-- What a session of nginx tells: the address of the client, the port of the listener, or none if
-- the variable cannot be read, and the other variables, where none stands for `undefined` and for a
-- variable that cannot be read.
pub record Client : Type 0 where
  pub remote_address : Text
  pub server_port : Option Text
  pub variables : Text → Option Text

unfoldable pub policy : Client → Pairs
unfolding pairs split
policy s = elim s.server_port [
  | none ↦ []
  | some port ↦ pairs (split b';' (unwrap_or [] (s.variables (codes "shield_cfg_" ++ port)))) []
]

pub record AccessCfg : Type 0 where
  pub service : Text
  pub ban_file : Text
  pub conn_rate : ℕ
  pub conn_window : ℕ

module _ (R : Runtime) where
  open R use {parse_float}

  unfoldable pub num : Option Text → ℕ → ℕ
  num none dflt = dflt
  num (some s) dflt = unwrap_or dflt (parse_float s)

  unfoldable pub access_cfg : Client → AccessCfg
  unfolding policy or_default num knob
  access_cfg s =
      let p = policy s in
      record {
        service = or_default (knob (codes "service") p) (codes "unknown");
        ban_file = or_default (knob (codes "ban_file") p) [];
        conn_rate = num (knob (codes "conn_rate") p) 0;
        conn_window = num (knob (codes "conn_window") p) 60;
      }

  -- All but the service and the buckets.
  unfoldable pub read_cfg : Client → Cfg
  unfolding policy or_default num knob keyset text_eq
  read_cfg s =
      let p = policy s in
      let max_msg = num (knob (codes "ws_max_msg") p) 131072 in
      record {
        remote_address = s.remote_address;
        ban_file = or_default (knob (codes "ban_file") p) [];
        ban_recheck = num (knob (codes "ban_recheck") p) 10;
        max_msg = max_msg;
        max_subs = num (knob (codes "ws_max_subs") p) 20;
        max_filters = num (knob (codes "ws_max_filters") p) 10;
        max_filter_items = num (knob (codes "ws_max_filter_items") p) 500;
        max_limit = num (knob (codes "ws_max_limit") p) 5000;
        max_filter_value = num (knob (codes "ws_max_filter_value") p) 512;
        require_narrowing = elim (knob (codes "ws_require_narrowing") p) [
          | none ↦ true
          | some v ↦ not (text_eq v (codes "false"))
        ];
        max_hs_reads = num (knob (codes "ws_max_hs_reads") p) 32;
        max_msg_reads = num (knob (codes "ws_max_msg_reads") p) ((max_msg + 1023) / 1024 + 64);
        types = keyset (knob (codes "nostr_types") p) default_types;
        kind_deny = keyset (knob (codes "nostr_kind_deny") p) [];
      }

-- A policy with a value that has a comma, a key with blanks around it, and one that is given twice.
two_services :
    pairs (split b';' (codes "service=a; nostr_types =EVENT,REQ;=x;y;service=b")) []
    ≡ (codes "service", codes "b")
      ∷ (codes "nostr_types", codes "EVENT,REQ")
      ∷ (codes "service", codes "a")
      ∷ []
unfolding pairs split
two_services = refl
