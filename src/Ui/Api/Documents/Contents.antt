-- ===== src/Ui/Api/Documents/Contents.antt =====
-- What the answers to /api/bans and /api/logs hold (ui/src/main.rs), as a reader of JSON sees it.
use fips_shield.Ui.Json.Document.Writing.{
  array_of, object_of, arr-render, str_arr-render, new-Holds, str-Holds, num-Holds, bool-Holds,
  raw-Holds, done-Holds,
}
use fips_shield.Base.{ℕ, ◌-◌, ◌≡◌, refl, some, List, [], ◌∷◌, map, ◌∙◌, ap, ok, length, ◌==◌}
use fips_shield.Std.Text.{Text, codes}
use fips_shield.Ui.Json
use fips_shield.Ui.Json.Document.{Value, string, number, boolean, render, read_json}
use fips_shield.Ui.Json.Document.RoundTrip.{read_json-render}
use fips_shield.Ui.Collect.Bans.{Ban, bans, ban_json}
use fips_shield.Ui.Collect.Logs.{tail_lines, tail, log_path}
use fips_shield.Ui.Api.{Args, Machine, api_bans, logs_json, read_log, max_tail_bytes}

-- A ban as a document.
unfoldable pub ban_value : ℕ → Ban → Value
ban_value now b = object_of (
    (codes "addr", string b.addr)
    ∷ (codes "until", number b.until)
    ∷ (codes "permanent", boolean (b.until == 0))
    ∷ (codes "remaining", number (b.until - now))
    ∷ [])

ban_json-ban_value : (now : ℕ) (b : Ban) → ban_json b now ≡ render (ban_value now b)
unfolding ban_json ban_value
ban_json-ban_value now b = done-Holds (
    num-Holds
      (bool-Holds (num-Holds (str-Holds new-Holds (codes "addr") b.addr) (codes "until") b.until)
        (codes "permanent") (b.until == 0))
      (codes "remaining") (b.until - now))

map-ban_json :
    (now : ℕ) (l : List Ban) → map (λ b. ban_json b now) l ≡ map render (map (ban_value now) l)
map-ban_json now [] = refl
map-ban_json now (b ∷ l) =
    ap (λ t. t ∷ map (λ b. ban_json b now) l) (ban_json-ban_value now b)
    ∙ ap (λ r. render (ban_value now b) ∷ r) (map-ban_json now l)

-- If the bans can be listed, the answer to /api/bans reads as an object with their number and with
-- an array of all of them in their order, each with its address, its expiry, whether it is
-- permanent, and the seconds that remain, none if it has lapsed or is permanent.
pub api_bans-ban_value :
    (m : Machine) (args : Args) (l : List Ban)
    → bans m.exec args.shield_ban ≡ ok l
    → read_json (api_bans m args).body
      ≡ some (
          object_of (
            (codes "count", number (length l))
            ∷ (codes "bans", array_of (map (ban_value (m.now 0)) l))
            ∷ []))
unfolding api_bans
api_bans-ban_value m args l e =
    let array = ap Json.arr (map-ban_json (m.now 0) l) ∙ arr-render (map (ban_value (m.now 0)) l) in
    let text = done-Holds (
      raw-Holds (num-Holds new-Holds (codes "count") (length l)) (codes "bans")
        (Json.arr (map (λ b. ban_json b (m.now 0)) l)) (array_of (map (ban_value (m.now 0)) l))
        array) in
    rw (e, api_bans) (ap read_json text ∙ read_json-render _)

-- If the log can be read, the answer with its tail reads as an object with the service, the kind
-- and an array of the lines as strings: what the lines hold makes no other field.
pub read_log-string :
    (m : Machine) (args : Args) (service kind : Text) (n : ℕ) (lines : List Text)
    → tail m.files (log_path args.log_dir service kind) n max_tail_bytes ≡ tail_lines lines
    → read_json (read_log m args service kind n).body
      ≡ some (
          object_of (
            (codes "service", string service)
            ∷ (codes "kind", string kind)
            ∷ (codes "lines", array_of (map string lines))
            ∷ []))
unfolding read_log logs_json
read_log-string m args service kind n lines e =
    let text = done-Holds (
      raw-Holds (str-Holds (str-Holds new-Holds (codes "service") service) (codes "kind") kind)
        (codes "lines") (Json.str_arr lines) (array_of (map string lines))
        (str_arr-render lines)) in
    rw (e, read_log) (ap read_json text ∙ read_json-render _)
