-- ===== src/Tests/Answers.antt =====
-- Answers of the dashboard on a machine where every command prints the same ban.
use fips_shield.Ui.Http.{
  max_request_line, max_header_bytes, Request, Stream, read_request, request_of, serve_connection,
  Response, json,
}
use fips_shield.Base.{
  ◌+◌, ◌≤◌, arith, length, ◌||◌, true, ◌≡◌, refl, false, some, List, [], ◌∷◌, ok,
}
use fips_shield.Std.Text.{Text, codes, text_eq, lines}
use fips_shield.Ui.Http.Client.{AreLines, joined, is_plain, read_response}
use fips_shield.Ui.Json.Document.{Value, string, number, read_json}
use fips_shield.Ui.Json.Document.Writing.{array_of, object_of}
use fips_shield.Ui.Collect.{exited, run}
use fips_shield.Std.Utf8.{from_utf8_lossy}
use fips_shield.Ui.Collect.Bans.{Ban, bans, parse_bans, parse_ban}
use fips_shield.Ui.Collect.Logs.{contents, tail_lines, tail, log_path}
use fips_shield.Ui.Api.{Machine, api_bans, read_log, handle, max_tail_bytes}
use fips_shield.Ui.Api.Documents.Answers.{handle-read_json}
use fips_shield.Ui.Api.Documents.Contents.{ban_value, api_bans-ban_value, read_log-string}
use fips_shield.Ui.Http.Lines.{sends}
use fips_shield.Ui.Http.Accepting.{is_target, request_text}
use fips_shield.Ui.Http.Asking.{
  Spelled, Params, IsSpelled, AreSpelled, spell, target_of, says, read_request-says,
}
use fips_shield.Ui.Http.Exchange.{received, read_response-serve_connection}
use fips_shield.Tests.Ui.{args, request}

abbrev machine : Machine
machine = record {
  exec = λ bin a. exited true [] (codes "fd00::1 1060\n") [];
  files = λ p. contents (codes "x\"y\n");
  exists = λ p. true;
  now = λ i. 1000;
}

abbrev one_ban : List Ban
one_ban = record { addr = codes "fd00::1"; until = 1060 } ∷ []

not_page : (text_eq request.path (codes "/") || text_eq request.path (codes "/index.html")) ≡ false
unfolding text_eq
not_page = refl

handle-read_json_example : (v : Value) × (read_json (handle [] machine args request).body ≡ some v)
handle-read_json_example = handle-read_json [] machine args request not_page

listed : bans machine.exec args.shield_ban ≡ ok one_ban
unfolding bans run parse_bans lines from_utf8_lossy parse_ban
listed = refl

api_bans-ban_value_example :
    read_json (api_bans machine args).body
    ≡ some (
        object_of (
          (codes "count", number 1)
          ∷ (
            codes "bans",
            array_of (ban_value 1000 (record { addr = codes "fd00::1"; until = 1060 }) ∷ []),
          )
          ∷ []))
api_bans-ban_value_example = api_bans-ban_value machine args one_ban listed

tailed :
    tail machine.files (log_path args.log_dir (codes "strfry") (codes "stream")) 100 max_tail_bytes
    ≡ tail_lines (codes "x\"y" ∷ [])
unfolding tail lines from_utf8_lossy
tailed = refl

read_log-string_example :
    read_json (read_log machine args (codes "strfry") (codes "stream") 100).body
    ≡ some (
        object_of (
          (codes "service", string (codes "strfry"))
          ∷ (codes "kind", string (codes "stream"))
          ∷ (codes "lines", array_of (string (codes "x\"y") ∷ []))
          ∷ []))
read_log-string_example =
    read_log-string machine args (codes "strfry") (codes "stream") 100 (codes "x\"y" ∷ []) tailed

-- A request with one header, on a connection that fails after it.
abbrev target : Text
target = codes "/api/logs?service=web&n=10"

abbrev headers : List Text
headers = codes "Host: localhost" ∷ []

abbrev broken : Stream
broken = record { bytes = codes "more"; fails = true }

is_target-target : is_target target ≡ true
unfolding is_target
is_target-target = refl

AreLines-headers : AreLines headers
unfolding is_plain
AreLines-headers = (refl, tt)

short_head : length (joined headers) ≤ max_header_bytes
unfolding joined
short_head = omega arith

-- `/a%20b?n=1`
abbrev path : Spelled
path = (b'/', true) ∷ (b'a', true) ∷ (b' ', false) ∷ (b'b', true) ∷ []

abbrev params : Params
params = ((b'n', true) ∷ [], (b'1', true) ∷ []) ∷ []

path-IsSpelled : IsSpelled path
path-IsSpelled = ground arith

params-AreSpelled : AreSpelled params
params-AreSpelled = ground arith

short_target : length (target_of path params) + 15 ≤ max_request_line
unfolding spell
short_target = omega arith

read_request-says_example :
    (read_request (sends (request_text (target_of path params) headers) broken)).0
    ≡ ok (says path params)
read_request-says_example =
    read_request-says path params headers broken path-IsSpelled params-AreSpelled short_target
      AreLines-headers (omega arith, tt) (omega arith) short_head

spelled : target_of path params ≡ codes "/a%20b?n=1"
unfolding spell
spelled = refl

-- A handler that answers with the path.
abbrev echo : Request → Response
echo r = json r.path

plain_type : is_plain (echo (request_of target)).content_type ≡ true
unfolding is_plain
plain_type = refl

read_response-serve_connection_example :
    read_response 10 (serve_connection echo (sends (request_text target headers) broken))
    ≡ some (received (echo (request_of target)))
read_response-serve_connection_example =
    read_response-serve_connection echo target headers broken is_target-target (omega arith)
      AreLines-headers (omega arith, tt) (omega arith) short_head plain_type
