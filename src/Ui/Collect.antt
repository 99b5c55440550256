-- ===== src/Ui/Collect.antt =====
-- Reading state, ui/src/collect.rs: the configuration, the services, the bans and the counters,
-- from the outputs of the tools that print them, and the tails of logs.
pub mod Bans
pub mod Stats
pub mod Logs
pub mod Limits
use fips_shield.Base.{
  ℕ, zero, suc, ◌+◌, ◌-◌, ◌*◌, ◌≡◌, refl, Bool, true, false, not, ◌&&◌, ◌||◌, Option, none, some,
  List, [], ◌∷◌, ◌++◌, ltb, leb, ◌==◌, if◌then◌else◌, length, find, keep, map, Result, ok, err,
  unwrap_or, collect_some, drop, min,
}
use fips_shield.Std.Text.{
  Text, codes, text_eq, split, splitn3, trim, trim_end, lines, strip_prefix, starts_with, contains,
  split_whitespace,
}
use fips_shield.Std.Number.{parse_u64}
use fips_shield.Std.Utf8.{Bytes, from_utf8_lossy}
use fips_shield.Ui.Json

-- A path, which need not be UTF-8.
pub data FilePath : Type 0 where
  utf8 : Text → FilePath
  not_utf8 : Bytes → FilePath

-- `to_str().ok_or_else(…)`
abbrev pub to_str : FilePath → Text → Result Text Text
to_str (utf8 s) why = ok s
to_str (not_utf8 b) why = err why

-- What `Command::output` gives.
pub data Output : Type 0 where
  not_started : Text → Output
  -- whether it succeeded, the status as text, the standard output and the standard error
  exited : Bool → Text → Bytes → Bytes → Output

-- The commands of the machine.
abbrev pub Commands : Type 0
Commands = Text → List Text → Output

is_blank : Text → Bool
is_blank l = elim (trim l) [ [] ↦ true | c ∷ s ↦ false ]

unfoldable pub run : Commands → Text → List Text → Result Text Text
unfolding is_blank
run exec bin args = elim (exec bin args) [
  | not_started e ↦ err (bin ++ (codes ": " ++ e))
  | exited success status stdout stderr ↦
      if success
      then ok (from_utf8_lossy stdout)
      else elim (unwrap_or [] (find (λ l. not (is_blank l)) (lines (from_utf8_lossy stderr)))) [
        | [] ↦ err (bin ++ (codes " exited " ++ status))
        | c ∷ first ↦ err (bin ++ (codes ": " ++ (c ∷ first)))
      ]
]

-- SOURCE, KEY, VALUE
abbrev pub Entry : Type 0
Entry = Text × Text × Text

pub record Config : Type 0 where
  pub entries : List Entry

-- SOURCE<TAB>KEY<TAB>VALUE; a value may hold tabs.
unfoldable pub parse_entry : Text → Option Entry
unfolding splitn3
parse_entry l =
    let (source, rest) = splitn3 b'\t' l in
    elim rest [ none ↦ none | some kv ↦ some (source, kv.0, unwrap_or [] kv.1) ]

unfoldable pub parse_config : Text → Config
unfolding parse_entry lines
parse_config out = record { entries = collect_some parse_entry (lines out) }

-- `Config::load`
unfoldable pub load : Commands → FilePath → Option FilePath → Result Text Config
unfolding run parse_config
load exec shield_config env_file =
    elim (to_str shield_config (codes "shield-config path is not valid UTF-8")) [
      | err e ↦ err e
      | ok bin ↦
          let show = codes "show" ∷ codes "--porcelain" ∷ [] in
          let args : List Text = elim env_file [
            | none ↦ show
            | some p ↦ elim p [ utf8 f ↦ show ++ (codes "-f" ∷ f ∷ []) | not_utf8 b ↦ show ]
          ] in
          elim (run exec bin args) [ err e ↦ err e | ok out ↦ ok (parse_config out) ]
    ]

-- `Config::get` and `Config::source`
unfoldable pub get : Config → Text → Option Text
unfolding text_eq
get cfg key = elim (find (λ e. text_eq e.1 key) cfg.entries) [ none ↦ none | some e ↦ some e.2 ]

unfoldable pub source : Config → Text → Option Text
unfolding text_eq
source cfg key = elim (find (λ e. text_eq e.1 key) cfg.entries) [ none ↦ none | some e ↦ some e.0 ]

unfoldable pub is_empty : Text → Bool
is_empty [] = true
is_empty (c ∷ s) = false

-- `Config::profiles`
unfoldable pub profiles : Config → List Text
unfolding get split trim is_empty
profiles cfg =
    keep (λ s. not (is_empty s))
      (map trim (split b',' (unwrap_or (codes "strfry") (get cfg (codes "SHIELD_PROFILES")))))

pub record Service : Type 0 where
  pub profile : Text
  pub log_name : Text
  pub listen_port : Text
  pub upstream : Text
  pub preset : Text
  pub limits : List Entry

-- The keys of the service name, the port, the upstream and the connection rate.
pub record Keys : Type 0 where
  pub svc_key : Text
  pub port_key : Text
  pub up_key : Text
  pub rate_key : Text

unfoldable pub keys_for : Text → Keys
unfolding text_eq
keys_for profile =
    if text_eq profile (codes "strfry")
    then record {
      svc_key = [];
      port_key = codes "SHIELD_LISTEN_PORT";
      up_key = codes "SHIELD_UPSTREAM";
      rate_key = codes "SHIELD_STRFRY_CONN_RATE";
    }
    else if text_eq profile (codes "http")
    then record {
      svc_key = codes "SHIELD_HTTP_SERVICE";
      port_key = codes "SHIELD_HTTP_LISTEN_PORT";
      up_key = codes "SHIELD_HTTP_UPSTREAM";
      rate_key = codes "SHIELD_HTTP_CONN_RATE";
    }
    else if text_eq profile (codes "tcp")
    then record {
      svc_key = codes "SHIELD_TCP_SERVICE";
      port_key = codes "SHIELD_TCP_LISTEN_PORT";
      up_key = codes "SHIELD_TCP_UPSTREAM";
      rate_key = codes "SHIELD_TCP_CONN_RATE";
    }
    else record { svc_key = []; port_key = []; up_key = []; rate_key = [] }

unfoldable pub relevant_to : Text → Text → Bool
unfolding text_eq starts_with
relevant_to key profile =
    if text_eq profile (codes "http")
    then starts_with key (codes "SHIELD_HTTP_")
    else if text_eq profile (codes "tcp")
    then starts_with key (codes "SHIELD_TCP_")
    else if text_eq profile (codes "strfry")
    then starts_with key (codes "SHIELD_WS_")
      || starts_with key (codes "SHIELD_STRFRY_")
      || text_eq key (codes "SHIELD_MAX_CONNS_PER_NODE")
      || starts_with key (codes "SHIELD_HANDSHAKE_")
    else false

unfoldable pub is_limit : Text → Bool
unfolding contains
is_limit k =
    contains k (codes "RATE")
    || contains k (codes "MAX")
    || contains k (codes "TIMEOUT")
    || contains k (codes "BURST")

-- The preset's name in a source `preset:<profile>/<name>`.
unfoldable pub preset_of : Option Text → Text
unfolding strip_prefix split
preset_of none = codes "custom"
preset_of (some s) = elim (strip_prefix s (codes "preset:")) [
  | none ↦ codes "custom"
  | some r ↦ elim (split b'/' r) [
    | [] ↦ codes "custom"
    | p ∷ ps ↦ elim ps [ [] ↦ codes "custom" | name ∷ more ↦ name ]
  ]
]

unfoldable pub service_of : Config → Text → Service
unfolding keys_for get source preset_of is_limit relevant_to is_empty
service_of cfg profile =
    let keys = keys_for profile in
    record {
      profile = profile;
      log_name =
          if is_empty keys.svc_key then profile else unwrap_or profile (get cfg keys.svc_key);
      listen_port = unwrap_or [] (get cfg keys.port_key);
      upstream = unwrap_or [] (get cfg keys.up_key);
      preset = preset_of (source cfg keys.rate_key);
      limits =
          map (λ e. (e.1, e.2, e.0))
            (keep (λ e. is_limit e.1 && relevant_to e.1 profile) cfg.entries);
    }

unfoldable pub services : Config → List Service
unfolding profiles service_of
services cfg = map (service_of cfg) (profiles cfg)
