-- ===== src/Ui/Api/Documents/Answers.antt =====
-- Every answer of the dashboard but the page is a JSON document (ui/src/main.rs, with the writers of
-- ui/src/collect.rs and ui/src/http.rs).
use fips_shield.Base.{
  ℕ, ◌-◌, ◌≡◌, refl, Bool, true, false, ◌||◌, not, Option, none, some, List, [], ◌∙◌, ap,
  if◌then◌else◌, Result, ok, err, length, ◌==◌, unwrap_or, some_of,
}
use fips_shield.Std.Text.{Text, codes, text_eq}
use fips_shield.Ui.Json
use fips_shield.Ui.Json.Document.{Value, read_json}
use fips_shield.Ui.Json.Document.RoundTrip.{read_json-render}
use fips_shield.Ui.Http.{Request, Response, param, error}
use fips_shield.Ui.Collect.{Config, get, Service, services}
use fips_shield.Ui.Collect.Bans.{Ban, bans, ban_json}
use fips_shield.Ui.Collect.Stats.{guard_stats}
use fips_shield.Ui.Collect.Logs.{
  TailResult, tail_lines, tail_not_found, tail_failed, tail, log_path, limit_json, service_json,
}
use fips_shield.Ui.Api.{
  Args, Machine, config, status_config, status_bans, status_guard, stat_json, api_status, api_bans,
  logs_json, read_log, logs_of, api_logs, handle, max_tail_bytes, hint, recent, config_tool,
  bans_tool, guard_tool, known_services, requested_lines, is_kind,
}
use fips_shield.Ui.Api.Documents.{
  IsDocument, IsObj, empty-IsObj, with_str, with_num, with_bool, with_raw, finished, no_items,
  arr-IsDocument, str_arr-IsDocument,
}

error-IsDocument : (status : ℕ) (msg : Text) → IsDocument (error status msg).body
unfolding error
error-IsDocument status msg = finished (with_str (codes "error") msg empty-IsObj)

limit_json-IsDocument : (limit : Text × Text × Text) → IsDocument (limit_json limit)
unfolding limit_json
limit_json-IsDocument (k, v, src) = finished (
    with_str (codes "source") src
      (with_str (codes "value") v (with_str (codes "key") k empty-IsObj)))

service_json-IsDocument : (s : Service) → IsDocument (service_json s)
unfolding service_json
service_json-IsDocument s = finished (
    with_raw (codes "limits") (arr-IsDocument limit_json limit_json-IsDocument s.limits) (
      with_str (codes "preset") s.preset (
        with_str (codes "upstream") s.upstream (
          with_str (codes "port") s.listen_port (
            with_str (codes "name") s.log_name
              (with_str (codes "profile") s.profile empty-IsObj))))))

ban_json-IsDocument : (now : ℕ) (b : Ban) → IsDocument (ban_json b now)
unfolding ban_json
ban_json-IsDocument now b = finished (
    with_num (codes "remaining") (b.until - now) (
      with_bool (codes "permanent") (b.until == 0)
        (with_num (codes "until") b.until (with_str (codes "addr") b.addr empty-IsObj))))

stat_json-IsDocument : (stat : Text × Text) → IsDocument (stat_json stat)
unfolding stat_json
stat_json-IsDocument (k, v) =
    finished (with_str (codes "value") v (with_str (codes "label") k empty-IsObj))

status_config-IsObj :
    (m : Machine) (args : Args) {o : Json.Obj} → IsObj o → IsObj (status_config m args o)
unfolding status_config
status_config-IsObj m args {o = o} h = go (config m args) refl
  where
    go : (r : Result Text Config) → config m args ≡ r → IsObj (status_config m args o)
    go (ok cfg) e =
        rw (e, status_config)
          (with_bool (codes "config_ok") true (
            with_str (codes "preset")
              (unwrap_or (codes "default") (get cfg (codes "SHIELD_PRESET")))
              (with_str (codes "bind_addr") (unwrap_or [] (get cfg (codes "SHIELD_BIND_ADDR"))) (
                with_raw (codes "services")
                  (arr-IsDocument service_json service_json-IsDocument (services cfg)) h))))
    go (err f) e =
        rw (e, status_config)
          (with_str (codes "config_hint") (hint args config_tool) (
            with_str (codes "config_error") f
              (with_bool (codes "config_ok") false (with_raw (codes "services") no_items h))))

status_bans-IsObj :
    (m : Machine) (args : Args) {o : Json.Obj} → IsObj o → IsObj (status_bans m args o).0
unfolding status_bans
status_bans-IsObj m args {o = o} h = go (bans m.exec args.shield_ban) refl
  where
    go :
        (r : Result Text (List Ban))
        → bans m.exec args.shield_ban ≡ r
        → IsObj (status_bans m args o).0
    go (ok l) e =
        rw (e, status_bans)
          (with_raw (codes "bans")
            (arr-IsDocument (λ b. ban_json b (m.now 0)) (ban_json-IsDocument (m.now 0)) (recent l))
            (with_bool (codes "bans_ok") true (with_num (codes "ban_count") (length l) h)))
    go (err f) e =
        rw (e, status_bans)
          (with_str (codes "bans_hint") (hint args bans_tool) (
            with_str (codes "bans_error") f (
              with_raw (codes "bans") no_items
                (with_num (codes "ban_count") 0 (with_bool (codes "bans_ok") false h)))))

status_guard-IsObj :
    (m : Machine) (args : Args) {o : Json.Obj} → IsObj o → IsObj (status_guard m args o)
unfolding status_guard
status_guard-IsObj m args {o = o} h = go (guard_stats m.exec args.fips_guard) refl
  where
    go :
        (r : Result Text (List (Text × Text)))
        → guard_stats m.exec args.fips_guard ≡ r
        → IsObj (status_guard m args o)
    go (ok stats) e =
        rw (e, status_guard)
          (with_raw (codes "guard") (arr-IsDocument stat_json stat_json-IsDocument stats)
            (with_bool (codes "guard_ok") true h))
    go (err f) e =
        rw (e, status_guard)
          (with_str (codes "guard_hint") (hint args guard_tool) (
            with_str (codes "guard_error") f (
              with_bool (codes "guard_installed") (m.exists args.fips_guard)
                (with_raw (codes "guard") no_items (with_bool (codes "guard_ok") false h)))))

api_status-IsDocument : (m : Machine) (args : Args) → IsDocument (api_status m args).body
unfolding api_status
api_status-IsDocument m args = finished (
    with_num (codes "now") (m.now (status_bans m args (status_config m args Json.new_obj)).1) (
      status_guard-IsObj m args
        (status_bans-IsObj m args (status_config-IsObj m args empty-IsObj))))

api_bans-IsDocument : (m : Machine) (args : Args) → IsDocument (api_bans m args).body
unfolding api_bans
api_bans-IsDocument m args = go (bans m.exec args.shield_ban) refl
  where
    go :
        (r : Result Text (List Ban))
        → bans m.exec args.shield_ban ≡ r
        → IsDocument (api_bans m args).body
    go (err f) e = rw (e, api_bans) (error-IsDocument 500 f)
    go (ok l) e =
        rw (e, api_bans)
          (finished (
            with_raw (codes "bans")
              (arr-IsDocument (λ b. ban_json b (m.now 0)) (ban_json-IsDocument (m.now 0)) l)
              (with_num (codes "count") (length l) empty-IsObj)))

logs_json-IsDocument :
    (service kind lines : Text) → IsDocument lines → IsDocument (logs_json service kind lines).body
unfolding logs_json
logs_json-IsDocument service kind lines d = finished (
    with_raw (codes "lines") d
      (with_str (codes "kind") kind (with_str (codes "service") service empty-IsObj)))

read_log-IsDocument :
    (m : Machine) (args : Args) (service kind : Text) (n : ℕ)
    → IsDocument (read_log m args service kind n).body
unfolding read_log
read_log-IsDocument m args service kind n =
    go (tail m.files (log_path args.log_dir service kind) n max_tail_bytes) refl
  where
    go :
        (r : TailResult)
        → tail m.files (log_path args.log_dir service kind) n max_tail_bytes ≡ r
        → IsDocument (read_log m args service kind n).body
    go (tail_lines lines) e =
        rw (e, read_log)
          (logs_json-IsDocument service kind (Json.str_arr lines) (str_arr-IsDocument lines))
    go tail_not_found e = rw (e, read_log) (logs_json-IsDocument service kind (codes "[]") no_items)
    go tail_failed e = rw (e, read_log) (error-IsDocument 500 (codes "log could not be read"))

branch :
    (b : Bool) (r s : Response)
    → IsDocument r.body
    → IsDocument s.body
    → IsDocument (if b then r else s).body
branch true r s h k = h
branch false r s h k = k

logs_of-IsDocument :
    (m : Machine) (args : Args) (req : Request) (service : Text)
    → IsDocument (logs_of m args req service).body
unfolding logs_of
logs_of-IsDocument m args req service =
    let kind = unwrap_or (codes "stream") (param (codes "kind") req) in
    branch (not (is_kind kind)) _ _ (error-IsDocument 400 (codes "kind must be access or stream")) (
      branch (not (some_of (λ s. text_eq s service) (known_services m args))) _ _
        (error-IsDocument 404 (codes "unknown service"))
        (read_log-IsDocument m args service kind (requested_lines (param (codes "n") req))))

api_logs-IsDocument :
    (m : Machine) (args : Args) (req : Request) → IsDocument (api_logs m args req).body
unfolding api_logs
api_logs-IsDocument m args req = go (param (codes "service") req) refl
  where
    go : (o : Option Text) → param (codes "service") req ≡ o → IsDocument (api_logs m args req).body
    go none e = rw (e, api_logs) (error-IsDocument 400 (codes "service is required"))
    go (some service) e = rw (e, api_logs) (logs_of-IsDocument m args req service)

endpoint-IsDocument :
    (m : Machine) (args : Args) (req : Request)
    → IsDocument
        (if text_eq req.path (codes "/api/status")
          then api_status m args
          else if text_eq req.path (codes "/api/bans")
          then api_bans m args
          else if text_eq req.path (codes "/api/logs")
          then api_logs m args req
          else error 404 (codes "no such endpoint")).body
endpoint-IsDocument m args req =
    branch (text_eq req.path (codes "/api/status")) (api_status m args) _
      (api_status-IsDocument m args)
      (branch (text_eq req.path (codes "/api/bans")) (api_bans m args) _
        (api_bans-IsDocument m args)
        (branch (text_eq req.path (codes "/api/logs")) (api_logs m args req)
          (error 404 (codes "no such endpoint")) (api_logs-IsDocument m args req)
          (error-IsDocument 404 (codes "no such endpoint"))))

-- Whatever is asked for, and whatever the commands, files and logs hold, the answer to a request
-- for anything but the page is one whole JSON document.
pub handle-read_json :
    (page : Text) (m : Machine) (args : Args) (req : Request)
    → (text_eq req.path (codes "/") || text_eq req.path (codes "/index.html")) ≡ false
    → (v : Value) × (read_json (handle page m args req).body ≡ some v)
unfolding handle
handle-read_json page m args req h =
    let d : IsDocument (handle page m args req).body =
      rw (handle, h) (endpoint-IsDocument m args req) in
    (d.value, ap read_json d.text ∙ read_json-render d.value)
