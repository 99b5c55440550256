-- ===== src/Ui/Api/Documents.antt =====
-- How the answers of the dashboard (ui/src/main.rs) are put together as JSON documents.
pub mod Answers
pub mod Contents
use fips_shield.Ui.Json.Document.Writing.{
  array_of, object_of, arr-render, str_arr-render, Holds, new-Holds, str-Holds, num-Holds,
  bool-Holds, raw-Holds, done-Holds,
}
use fips_shield.Base.{
  ℕ, ◌+◌, ◌-◌, ◌≡◌, refl, Bool, true, false, ◌&&◌, ◌||◌, not, Option, none, some, List, [], ◌∷◌,
  ◌++◌, map, arith, sym, ◌∙◌, ap, if◌then◌else◌, Result, ok, err, length, Option-cases, Bool-cases,
  inl, inr, ◌==◌, unwrap_or, some_of,
}
use fips_shield.Std.Text.{Text, codes, text_eq}
use fips_shield.Ui.Json
use fips_shield.Ui.Json.Document.{Value, string, number, boolean, empty_array, render, read_json}
use fips_shield.Ui.Json.Document.RoundTrip.{read_json-render}
use fips_shield.Ui.Http.{Request, Response, param, error}
use fips_shield.Ui.Collect.{Config, get, Service, services}
use fips_shield.Ui.Collect.Bans.{Ban, bans, ban_json}
use fips_shield.Ui.Collect.Stats.{guard_stats}
use fips_shield.Ui.Collect.Logs.{
  TailResult, tail_lines, tail_not_found, tail_failed, tail, log_path, limit_json, service_json,
}
use fips_shield.Ui.Api.{
  Args, Machine, config, status_config, status_bans, status_guard, stat_json, api_status, api_bans,
  logs_json, read_log, logs_of, api_logs, handle, max_tail_bytes, hint, recent, config_tool,
  bans_tool, guard_tool, known_services, requested_lines, is_kind,
}

-- A text that is a document.
pub record IsDocument (t : Text) : Type 0 where
  pub value : Value
  pub text : t ≡ render value

-- An object in the making.
pub record IsObj (o : Json.Obj) : Type 0 where
  pub fields : List (Text × Value)
  pub holds : Holds o fields

pub empty-IsObj : IsObj Json.new_obj
empty-IsObj = record { fields = []; holds = new-Holds }

pub with_str : (k s : Text) {o : Json.Obj} → IsObj o → IsObj (Json.str k s o)
with_str k s h = record { fields = h.fields ++ ((k, string s) ∷ []); holds = str-Holds h.holds k s }

pub with_num : (k : Text) (n : ℕ) {o : Json.Obj} → IsObj o → IsObj (Json.num k n o)
with_num k n h = record { fields = h.fields ++ ((k, number n) ∷ []); holds = num-Holds h.holds k n }

pub with_bool : (k : Text) (b : Bool) {o : Json.Obj} → IsObj o → IsObj (Json.bool k b o)
with_bool k b h = record {
  fields = h.fields ++ ((k, boolean b) ∷ []);
  holds = bool-Holds h.holds k b;
}

pub with_raw :
    (k : Text) {t : Text} {o : Json.Obj} → IsDocument t → IsObj o → IsObj (Json.raw k t o)
with_raw k {t = t} {o = o} d h = record {
  fields = h.fields ++ ((k, d.value) ∷ []);
  holds = raw-Holds h.holds k t d.value d.text;
}

pub finished : {o : Json.Obj} → IsObj o → IsDocument (Json.done o)
finished h = record { value = object_of h.fields; text = done-Holds h.holds }

module _ {A : Type 0} (f : A → Text) (h : (x : A) → IsDocument (f x)) where
  rendered : (l : List A) → map f l ≡ map render (map (λ x. (h x).value) l)
  rendered [] = refl
  rendered (x ∷ l) =
      ap (λ t. t ∷ map f l) (h x).text ∙ ap (λ r. render (h x).value ∷ r) (rendered l)

  pub arr-IsDocument : (l : List A) → IsDocument (Json.arr (map f l))
  arr-IsDocument l = record {
    value = array_of (map (λ x. (h x).value) l);
    text = ap Json.arr (rendered l) ∙ arr-render (map (λ x. (h x).value) l);
  }

pub no_items : IsDocument (codes "[]")
unfolding render
no_items = record { value = empty_array; text = refl }

pub str_arr-IsDocument : (l : List Text) → IsDocument (Json.str_arr l)
str_arr-IsDocument l = record { value = array_of (map string l); text = str_arr-render l }
