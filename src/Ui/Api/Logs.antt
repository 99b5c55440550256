-- ===== src/Ui/Api/Logs.antt =====
-- What `/api/logs` reads: `api_logs` of ui/src/main.rs.
use fips_shield.Base.{
  ℕ, ◌≤◌, ◌≡◌, refl, true, Option, none, some, List, [], ◌∷◌, arith, In, some_of, Option-cases,
  Bool-cases, inl, inr, unwrap_or,
}
use fips_shield.Std.Text.{Text, codes, text_eq, text_eq→eq}
use fips_shield.Std.Number.{parse_usize}
use fips_shield.Ui.Http.{Request, param}
use fips_shield.Ui.Collect.Logs.{Files, log_path, tail}
use fips_shield.Ui.Api.{
  Args, Machine, known_services, is_kind, requested_lines, read_log, logs_of, api_logs, api_status,
  api_bans, status_config, status_bans, status_guard, hint, handle, clamp, config, max_tail_lines,
}

-- A list of texts that has one equal to `s` holds `s`.
In-some_of : (s : Text) (l : List Text) → some_of (λ t. text_eq t s) l ≡ true → In s l
In-some_of s [] h = absurd (ground arith)
In-some_of s (t ∷ l) h = elim (Bool-cases (text_eq t s)) [
  | inl e ↦ inl (ground (arith, text_eq→eq t s e))
  | inr e ↦ inr (In-some_of s l (ground arith))
]

module _ (page : Text) (m : Machine) (args : Args) (files' : Files) where
  -- Other files, which agree on the logs of the known services.
  abbrev SameLogs : Type 0
  SameLogs =
      (s kind : Text)
      → In s (known_services m args)
      → is_kind kind ≡ true
      → files' (log_path args.log_dir s kind) ≡ m.files (log_path args.log_dir s kind)

  read_log-files :
      (s kind : Text) (n : ℕ)
      → files' (log_path args.log_dir s kind) ≡ m.files (log_path args.log_dir s kind)
      → read_log (record m { files = files' }) args s kind n ≡ read_log m args s kind n
  unfolding read_log tail
  read_log-files s kind n e = ground arith

  known_services-files : known_services (record m { files = files' }) args ≡ known_services m args
  unfolding known_services config
  known_services-files = refl

  logs_of-files :
      (req : Request) (s : Text)
      → SameLogs
      → logs_of (record m { files = files' }) args req s ≡ logs_of m args req s
  unfolding logs_of
  logs_of-files req s same =
      let kind = unwrap_or (codes "stream") (param (codes "kind") req) in
      let n = requested_lines (param (codes "n") req) in
      elim (Bool-cases (is_kind kind)) [
        | inr k ↦ rw k refl
        | inl k ↦ elim (Bool-cases (some_of (λ t. text_eq t s) (known_services m args))) [
          | inr i ↦ ground (arith, known_services-files)
          | inl i ↦ ground (
            arith,
            known_services-files,
            read_log-files s kind n (same s kind (In-some_of s (known_services m args) i) k),
          )
        ]
      ]

  api_logs-files :
      (req : Request)
      → SameLogs
      → api_logs (record m { files = files' }) args req ≡ api_logs m args req
  unfolding api_logs
  api_logs-files req same = elim (Option-cases (param (codes "service") req)) [
    | inl e ↦ ground arith
    | inr (s, e) ↦ ground (arith, logs_of-files req s same)
  ]

  api_status-files : api_status (record m { files = files' }) args ≡ api_status m args
  unfolding api_status status_config status_bans status_guard config hint
  api_status-files = refl

  api_bans-files : api_bans (record m { files = files' }) args ≡ api_bans m args
  unfolding api_bans
  api_bans-files = refl

  -- No request makes the dashboard read a file other than the two logs of a service that the
  -- configuration names: files that agree on those give the same response.
  pub handle-reads_logs :
      (req : Request)
      → SameLogs
      → handle page (record m { files = files' }) args req ≡ handle page m args req
  unfolding handle
  handle-reads_logs req same = rw (api_status-files, api_bans-files, api_logs-files req same) refl

clamp_bounds : (lo hi n : ℕ) → lo ≤ hi → (lo ≤ clamp lo hi n) × (clamp lo hi n ≤ hi)
unfolding clamp
clamp_bounds lo hi n h = (ground arith, ground arith)

-- Whatever `n` a request has, between 1 and 1000 lines are asked of the log.
pub requested_lines_bounds :
    (v : Option Text) → (1 ≤ requested_lines v) × (requested_lines v ≤ max_tail_lines)
unfolding requested_lines
requested_lines_bounds v =
    clamp_bounds 1 max_tail_lines (elim v [ none ↦ 100 | some s ↦ unwrap_or 100 (parse_usize s) ])
      (omega arith)
