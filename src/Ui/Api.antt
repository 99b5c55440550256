-- ===== src/Ui/Api.antt =====
-- The dashboard's endpoints and its start, ui/src/main.rs.
pub mod Logs
pub mod Order
pub mod Bind
pub mod Documents
use fips_shield.Base.{
  ℕ, zero, suc, ◌+◌, ◌*◌, ◌≡◌, refl, Bool, true, false, not, ◌&&◌, ◌||◌, Option, none, some, List,
  [], ◌∷◌, ◌++◌, ltb, leb, ◌==◌, if◌then◌else◌, length, map, Result, ok, err, unwrap_or, take,
  some_of,
}
use mathlib.Core.List.{reverse}
use fips_shield.Std.Text.{Text, codes, text_eq}
use fips_shield.Std.Number.{u64_max, parse_usize}
use fips_shield.Std.Sort.{sort_by}
use fips_shield.Std.Utf8.{from_utf8_lossy}
use fips_shield.Std.IpAddr.{IpAddr, parse_socket, is_loopback}
use fips_shield.Ui.Json
use fips_shield.Ui.Http.{Request, Response, param, json, html, error}
use fips_shield.Ui.Collect.{
  FilePath, utf8, not_utf8, Commands, Config, load, get, Service, services,
}
use fips_shield.Ui.Collect.Bans.{Ban, bans, ban_json}
use fips_shield.Ui.Collect.Stats.{guard_stats}
use fips_shield.Ui.Collect.Logs.{
  Files, TailResult, tail_lines, tail_not_found, tail_failed, tail, log_path, service_json,
}

abbrev pub max_tail_bytes : ℕ
max_tail_bytes = 2 * 1024 * 1024

abbrev pub max_tail_lines : ℕ
max_tail_lines = 1000

pub record Args : Type 0 where
  pub bind : Text
  pub insecure_bind : Bool
  pub env_file : Option FilePath
  pub log_dir : Text
  pub shield_config : FilePath
  pub shield_ban : FilePath
  pub fips_guard : FilePath

-- What a request finds on the machine: commands, files, whether a path exists, and the clock's
-- readings while it is handled.
pub record Machine : Type 0 where
  pub exec : Commands
  pub files : Files
  pub exists : FilePath → Bool
  pub now : ℕ → ℕ

-- `State::config`
unfoldable pub config : Machine → Args → Result Text Config
unfolding load
config m args = load m.exec args.shield_config args.env_file

unfoldable pub known_services : Machine → Args → List Text
unfolding config
known_services m args = elim (config m args) [
  | err e ↦ []
  | ok cfg ↦ map (λ (s : Service). s.log_name) (services cfg)
]

display : FilePath → Text
display (utf8 s) = s
display (not_utf8 b) = from_utf8_lossy b

pub data Tool : Type 0 where
  config_tool bans_tool guard_tool : Tool

-- `State::hint`
unfoldable pub hint : Args → Tool → Text
unfolding display
hint args config_tool =
    codes "shield-ui runs `"
    ++ (display args.shield_config
        ++ (codes
              " show --porcelain`. Install it with `sudo make install` (host mode), or point --shield-config at it. "
            ++ codes
                "In container mode it lives inside the image, so the host needs its own copy plus presets/. If it is installed, it may simply not have found a shield.env — pass --env-file."))
hint args bans_tool =
    codes "shield-ui runs `"
    ++ (display args.shield_ban
        ++ (codes
              " list`. Install it with `sudo make install` or `sudo make install-guard`. With the eBPF backend it execs fips-guard, "
            ++ codes
                "which needs CAP_BPF to open the pinned maps — a unit with an empty CapabilityBoundingSet cannot, even as root."))
hint args guard_tool =
    codes "shield-ui runs `"
    ++ (display args.fips_guard
        ++ (codes
              " stats`. This is optional: without the eBPF guard, bans are enforced by the banlist file. "
            ++ codes "If you do run it, note that reading the pinned maps needs CAP_BPF."))

-- The key by which bans are sorted: a permanent one comes last.
unfoldable pub sort_key : Ban → ℕ
sort_key b = if b.until == 0 then u64_max else b.until

-- Whether a ban may stand before another.
unfoldable pub sorts_before : Ban → Ban → Bool
unfolding sort_key
sorts_before b c = leb (sort_key b) (sort_key c)

unfoldable pub sort_by_key : List Ban → List Ban
unfolding sort_by sorts_before
sort_by_key l = sort_by sorts_before l

-- The bans that the status shows.
unfoldable pub recent : List Ban → List Ban
unfolding sort_by_key
recent l = take 20 (reverse (sort_by_key l))

status_config : Machine → Args → Json.Obj → Json.Obj
unfolding hint Json.raw Json.str Json.bool Json.arr
status_config m args o = elim (config m args) [
  | ok cfg ↦ Json.bool (codes "config_ok") true (
      Json.str (codes "preset") (unwrap_or (codes "default") (get cfg (codes "SHIELD_PRESET"))) (
        Json.str (codes "bind_addr") (unwrap_or [] (get cfg (codes "SHIELD_BIND_ADDR")))
          (Json.raw (codes "services") (Json.arr (map service_json (services cfg))) o)))
  | err e ↦ Json.str (codes "config_hint") (hint args config_tool) (
      Json.str (codes "config_error") e
        (Json.bool (codes "config_ok") false (Json.raw (codes "services") (codes "[]") o)))
]

-- The object, and the readings of the clock made.
status_bans : Machine → Args → Json.Obj → Json.Obj × ℕ
unfolding hint recent Json.raw Json.str Json.bool Json.num Json.arr
status_bans m args o = elim (bans m.exec args.shield_ban) [
  | ok l ↦ (
    Json.raw (codes "bans") (Json.arr (map (λ b. ban_json b (m.now 0)) (recent l)))
        (Json.bool (codes "bans_ok") true (Json.num (codes "ban_count") (length l) o)),
    1,
  )
  | err e ↦ (
    Json.str (codes "bans_hint") (hint args bans_tool) (
        Json.str (codes "bans_error") e (
          Json.raw (codes "bans") (codes "[]")
            (Json.num (codes "ban_count") 0 (Json.bool (codes "bans_ok") false o)))),
    0,
  )
]

stat_json : Text × Text → Text
unfolding Json.str Json.done
stat_json (k, v) = Json.done (Json.str (codes "value") v (Json.str (codes "label") k Json.new_obj))

status_guard : Machine → Args → Json.Obj → Json.Obj
unfolding hint stat_json Json.raw Json.str Json.bool Json.arr
status_guard m args o = elim (guard_stats m.exec args.fips_guard) [
  | ok stats ↦
      Json.raw (codes "guard") (Json.arr (map stat_json stats))
        (Json.bool (codes "guard_ok") true o)
  | err e ↦ Json.str (codes "guard_hint") (hint args guard_tool) (
      Json.str (codes "guard_error") e (
        Json.bool (codes "guard_installed") (m.exists args.fips_guard)
          (Json.raw (codes "guard") (codes "[]") (Json.bool (codes "guard_ok") false o))))
]

unfoldable pub api_status : Machine → Args → Response
unfolding status_config status_bans status_guard Json.num Json.done
api_status m args =
    let (o, readings) = status_bans m args (status_config m args Json.new_obj) in
    json (Json.done (Json.num (codes "now") (m.now readings) (status_guard m args o)))

unfoldable pub api_bans : Machine → Args → Response
unfolding Json.num Json.raw Json.done Json.arr error
api_bans m args = elim (bans m.exec args.shield_ban) [
  | err e ↦ error 500 e
  | ok l ↦ json (
      Json.done (
        Json.raw (codes "bans") (Json.arr (map (λ b. ban_json b (m.now 0)) l))
          (Json.num (codes "count") (length l) Json.new_obj)))
]

-- `.clamp(1, MAX_TAIL_LINES)`
unfoldable pub clamp : ℕ → ℕ → ℕ → ℕ
clamp lo hi n = if ltb n lo then lo else if ltb hi n then hi else n

unfoldable pub requested_lines : Option Text → ℕ
unfolding clamp parse_usize
requested_lines v =
    clamp 1 max_tail_lines (elim v [ none ↦ 100 | some s ↦ unwrap_or 100 (parse_usize s) ])

-- The answer with the lines as an array.
unfoldable pub logs_json : Text → Text → Text → Response
unfolding Json.str Json.raw Json.done
logs_json service kind lines = json (
    Json.done (
      Json.raw (codes "lines") lines
        (Json.str (codes "kind") kind (Json.str (codes "service") service Json.new_obj))))

unfoldable pub read_log : Machine → Args → Text → Text → ℕ → Response
unfolding Json.str_arr error
read_log m args service kind n =
    elim (tail m.files (log_path args.log_dir service kind) n max_tail_bytes) [
      | tail_lines lines ↦ logs_json service kind (Json.str_arr lines)
      | tail_not_found ↦ logs_json service kind (codes "[]")
      | tail_failed ↦ error 500 (codes "log could not be read")
    ]

unfoldable pub is_kind : Text → Bool
unfolding text_eq
is_kind kind = text_eq kind (codes "access") || text_eq kind (codes "stream")

unfoldable pub logs_of : Machine → Args → Request → Text → Response
unfolding is_kind error
logs_of m args req service =
    let kind = unwrap_or (codes "stream") (param (codes "kind") req) in
    if not (is_kind kind)
    then error 400 (codes "kind must be access or stream")
    else if not (some_of (λ s. text_eq s service) (known_services m args))
    then error 404 (codes "unknown service")
    else read_log m args service kind (requested_lines (param (codes "n") req))

unfoldable pub api_logs : Machine → Args → Request → Response
unfolding logs_of error
api_logs m args req = elim (param (codes "service") req) [
  | none ↦ error 400 (codes "service is required")
  | some service ↦ logs_of m args req service
]

-- `PAGE` is the file ui/src/page.html.
unfoldable pub handle : Text → Machine → Args → Request → Response
unfolding text_eq error
handle page m args req =
    if text_eq req.path (codes "/") || text_eq req.path (codes "/index.html")
    then html page
    else if text_eq req.path (codes "/api/status")
    then api_status m args
    else if text_eq req.path (codes "/api/bans")
    then api_bans m args
    else if text_eq req.path (codes "/api/logs")
    then api_logs m args req
    else error 404 (codes "no such endpoint")

-- How `main` starts: it does not parse the address, refuses it, or goes on to bind it, with a
-- warning if it is routable.
pub data Start : Type 0 where
  not_an_address refused : Start
  binds : IpAddr → ℕ → Bool → Start

unfoldable pub start : Args → Start
unfolding parse_socket is_loopback
start args = elim (parse_socket args.bind) [
  | none ↦ not_an_address
  | some addr ↦
      if not (is_loopback addr.0) && not args.insecure_bind
      then refused
      else binds addr.0 addr.1 (not (is_loopback addr.0))
]
