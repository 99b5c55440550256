-- ===== src/Tests/Ui.antt =====
-- Runs of the dashboard.
use fips_shield.Base.{
  ◌-◌, if◌then◌else◌, ◌+◌, ◌≤◌, ◌≡◌, ◌↔◌, ◌||◌, ◌++◌, refl, true, false, not, none, some, List, [],
  ◌∷◌, ok, arith, length, map, In, inl,
}
use fips_shield.Std.Text.{Text, codes, text_eq, contains, starts_with}
use fips_shield.Std.Number.{to_text}
use fips_shield.Std.Utf8.{from_utf8_lossy, from_utf8}
use fips_shield.Std.Text.Lines.{unlines}
use fips_shield.Std.IpAddr.{v4, parse_socket, is_loopback}
use fips_shield.Guard.Bans.{ban_line}
use fips_shield.Guard.Stats.{
  line_passed, line_dropped_ban, line_dropped_throttle, line_not_ipv6, line_parse_failed,
}
use fips_shield.Ui.Json.{push_str}
use fips_shield.Ui.Json.Strings.{read_string, read_string-push_str}
use fips_shield.Ui.Http.{
  buffer_size, fetched, Stream, Request, read_request, read_line, read_rest, drain, request_parts,
  request_of, percent_decode, max_request_line, max_header_bytes,
}
use fips_shield.Ui.Http.Decode.{percent_encode, percent_decode-percent_encode}
use fips_shield.Ui.Http.Bounds.{read_request-takes}
use fips_shield.Ui.Collect.{utf8, exited, Config, Entry, service_of, is_limit, relevant_to}
use fips_shield.Ui.Collect.Bans.{Ban, parse_bans}
use fips_shield.Ui.Collect.Bans.RoundTrip.{parse_bans-ban_lines, shown}
use fips_shield.Ui.Collect.Stats.{parse_stat}
use fips_shield.Ui.Collect.Stats.Rows.{parse_stat-line}
use fips_shield.Ui.Collect.Logs.{Files, not_found, contents, log_path}
use fips_shield.Ui.Api.{Args, Machine, handle, start, binds}
use fips_shield.Ui.Api.Logs.{handle-reads_logs}
use fips_shield.Ui.Api.Bind.{start-binds}

read_string-push_str_example :
    (lit : Text) × (push_str [] (codes "a\"b") ≡ [] ++ lit)
    × (read_string (lit ++ codes ",") ≡ some (codes "a\"b", codes ","))
read_string-push_str_example = read_string-push_str [] (codes "a\"b") (codes ",")

percent_decode-percent_encode_example :
    percent_decode (percent_encode (0x41 ∷ 0xff ∷ [])) ≡ from_utf8_lossy (0x41 ∷ 0xff ∷ [])
percent_decode-percent_encode_example =
    percent_decode-percent_encode (0x41 ∷ 0xff ∷ []) (omega arith, (omega arith, tt))

abbrev get_bans : Stream
get_bans = record { bytes = codes "GET /api/bans HTTP/1.1\r\n\r\n"; fails = false }

read_request-takes_example :
    fetched (length get_bans.bytes - length (read_request get_bans).1.bytes) (8192 ∷ 100 ∷ [])
    ≤ max_request_line + max_header_bytes + max_request_line + buffer_size
read_request-takes_example =
    read_request-takes get_bans (8192 ∷ 100 ∷ []) (omega arith, (omega arith, tt))

abbrev bans_request : Request
bans_request = record { path = codes "/api/bans"; query = [] }

accepts : (read_request get_bans).0 ≡ ok bans_request
unfolding read_request read_line from_utf8 read_rest text_eq request_parts drain request_of
accepts = refl

parse_bans-ban_lines_example :
    parse_bans (unlines (map ban_line ((0xfd ∷ 1 ∷ [], 7) ∷ []))) ≡ shown (0xfd ∷ 1 ∷ [], 7) ∷ []
parse_bans-ban_lines_example =
    parse_bans-ban_lines ((0xfd ∷ 1 ∷ [], 7) ∷ []) (((λ q. cc), omega arith), tt)

parse_stat-line_example :
    (parse_stat (line_passed 7) ≡ some (codes "passed", to_text 7))
    × (parse_stat (line_dropped_ban 7) ≡ some (codes "dropped (ban)", to_text 7))
    × (parse_stat (line_dropped_throttle 7) ≡ none)
    × (parse_stat (line_not_ipv6 7) ≡ some (codes "not ipv6", to_text 7))
    × (parse_stat (line_parse_failed 7) ≡ some (codes "parse failed", to_text 7))
parse_stat-line_example = parse_stat-line 7

abbrev pub args : Args
args = record {
  bind = codes "127.0.0.1:8080";
  insecure_bind = false;
  env_file = none;
  log_dir = codes "/l";
  shield_config = utf8 (codes "shield-config");
  shield_ban = utf8 (codes "shield-ban");
  fips_guard = utf8 (codes "fips-guard");
}

abbrev machine : Machine
machine = record {
  exec = λ bin a. exited true [] (codes "env\tSHIELD_PROFILES\tstrfry\n") [];
  files = λ p. not_found;
  exists = λ p. true;
  now = λ i. 1000;
}

-- The same machine with a file that is no log.
abbrev files' : Files
files' p = if text_eq p (codes "/etc/passwd") then contents (codes "root") else not_found

abbrev pub request : Request
request = record {
  path = codes "/api/logs";
  query = (codes "service", codes "../../etc/passwd") ∷ [];
}

handle-reads_logs_example :
    handle [] (record machine { files = files' }) args request ≡ handle [] machine args request
unfolding text_eq log_path
handle-reads_logs_example = handle-reads_logs [] machine args files' request (λ s kind i k. refl)

abbrev two_bans : List Ban
two_bans =
    record { addr = codes "fd00::1"; until = 5 } ∷ record { addr = codes "fd00::2"; until = 0 } ∷ []

start-binds_example : (start args ≡ binds (v4 (127 ∷ 0 ∷ 0 ∷ 1 ∷ [])) 8080 false) ↔ (
    (parse_socket args.bind ≡ some (v4 (127 ∷ 0 ∷ 0 ∷ 1 ∷ []), 8080))
    × ((is_loopback (v4 (127 ∷ 0 ∷ 0 ∷ 1 ∷ [])) || false) ≡ true)
    × (false ≡ not (is_loopback (v4 (127 ∷ 0 ∷ 0 ∷ 1 ∷ [])))))
start-binds_example = start-binds args (v4 (127 ∷ 0 ∷ 0 ∷ 1 ∷ [])) 8080 false

abbrev rate_limit : Entry
rate_limit = (codes "SHIELD_HTTP_RATE", codes "5", codes "custom")

abbrev http_config : Config
http_config = record { entries = (codes "custom", codes "SHIELD_HTTP_RATE", codes "5") ∷ [] }

-- The limit is among those of its profile.
is_shown : In {A = Entry} rate_limit (service_of http_config (codes "http")).limits
unfolding service_of is_limit contains relevant_to text_eq starts_with
is_shown = inl refl
