-- ===== src/Ui/Collect/Logs.antt =====
-- `tail`, `log_path` and `service_json` of ui/src/collect.rs.
pub mod Tail
use fips_shield.Base.{
  ℕ, ◌-◌, Bool, true, false, Option, none, some, List, [], ◌∷◌, ◌++◌, ◌==◌, if◌then◌else◌, ltb, map,
  length, drop, min,
}
use fips_shield.Std.Text.{Text, codes, lines}
use fips_shield.Std.FilePath.{join}
use fips_shield.Std.Utf8.{Bytes, from_utf8_lossy}
use fips_shield.Ui.Json
use fips_shield.Ui.Collect.{Service}

-- What opening and reading a file gives.
pub data FileResult : Type 0 where
  not_found : FileResult
  io_error : FileResult
  contents : Bytes → FileResult

-- The files of the machine, by their paths.
abbrev pub Files : Type 0
Files = Text → FileResult

-- The window at the end of a file.
unfoldable pub window : Bytes → ℕ → Bytes
window b max_bytes = drop (length b - min max_bytes (length b)) b

-- `lines.remove(0)`, of a window that does not cover the file and has a line
unfoldable pub drop_fragment : Bool → List Text → List Text
drop_fragment false ls = ls
drop_fragment true [] = []
drop_fragment true (l ∷ ls) = ls

unfoldable pub last_lines : ℕ → List Text → List Text
last_lines n ls = drop (length ls - n) ls

unfoldable pub tail_of : Bytes → ℕ → ℕ → List Text
unfolding window drop_fragment last_lines
tail_of b n max_bytes = last_lines n (
    drop_fragment (ltb (min max_bytes (length b)) (length b))
      (lines (from_utf8_lossy (window b max_bytes))))

-- The lines, or whether the file was not found.
pub data TailResult : Type 0 where
  tail_lines : List Text → TailResult
  tail_not_found : TailResult
  tail_failed : TailResult

unfoldable pub tail : Files → Text → ℕ → ℕ → TailResult
unfolding tail_of
tail fs path n max_bytes = elim (fs path) [
  | not_found ↦ tail_not_found
  | io_error ↦ tail_failed
  | contents b ↦ tail_lines (tail_of b n max_bytes)
]

unfoldable pub log_path : Text → Text → Text → Text
unfolding join
log_path log_dir name kind =
    join log_dir (codes "shield-" ++ (name ++ (b'.' ∷ (kind ++ codes ".log"))))

unfoldable pub limit_json : Text × Text × Text → Text
unfolding Json.str Json.done
limit_json (k, v, src) = Json.done (
    Json.str (codes "source") src
      (Json.str (codes "value") v (Json.str (codes "key") k Json.new_obj)))

unfoldable pub service_json : Service → Text
unfolding limit_json Json.str Json.raw Json.done Json.arr
service_json s = Json.done (
    Json.raw (codes "limits") (Json.arr (map limit_json s.limits)) (
      Json.str (codes "preset") s.preset (
        Json.str (codes "upstream") s.upstream (
          Json.str (codes "port") s.listen_port (
            Json.str (codes "name") s.log_name
              (Json.str (codes "profile") s.profile Json.new_obj))))))
