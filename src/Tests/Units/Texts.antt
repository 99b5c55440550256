-- ===== src/Tests/Units/Texts.antt =====
-- The unit tests of ui/src/http.rs and ui/src/json.rs, each a test of the model.
use fips_shield.Base.{
  ◌-◌, if◌then◌else◌, take, ◌≡◌, refl, Bool, true, false, ◌&&◌, none, some, [], ◌∷◌, ◌++◌, ◌==◌,
  length,
}
use fips_shield.Std.Text.{Text, codes, text_eq, ends_with, contains}
use fips_shield.Std.Utf8.{from_utf8_lossy}
use fips_shield.Ui.Json.{push_str, new_obj, str, num, bool, done, arr, str_arr}
use fips_shield.Ui.Http.{Request, param, percent_decode, parse_query, hex_byte}

abbrev decodes_percent_and_plus : Bool
decodes_percent_and_plus =
    text_eq (percent_decode (codes "a%20b+c")) (codes "a b c")
    && text_eq (percent_decode (codes "%2e%2e%2f")) (codes "../")
    && text_eq (percent_decode (codes "100%zz")) (codes "100%zz")
    && text_eq (percent_decode (codes "trailing%")) (codes "trailing%")

decodes_pass : decodes_percent_and_plus ≡ true
unfolding percent_decode text_eq from_utf8_lossy hex_byte
decodes_pass = refl

parses_query_pairs :
    (parse_query (codes "service=web&n=50&flag")
      ≡ (codes "service", codes "web") ∷ (codes "n", codes "50") ∷ (codes "flag", []) ∷ [])
    × (parse_query [] ≡ [])
unfolding parse_query percent_decode from_utf8_lossy
parses_query_pairs = (refl, refl)

abbrev logs_request : Request
logs_request = record { path = codes "/api/logs"; query = parse_query (codes "service=web&n=10") }

request_param_lookup :
    (param (codes "service") logs_request ≡ some (codes "web"))
    × (param (codes "missing") logs_request ≡ none)
unfolding param parse_query percent_decode from_utf8_lossy text_eq
request_param_lookup = (refl, refl)

escapes_what_would_break_out :
    push_str [] (codes "a\"b\\c" ++ (b'\n' ∷ b'd' ∷ b'\t' ∷ b'e' ∷ 0x01 ∷ b'f' ∷ []))
    ≡ codes "\"a\\\"b\\\\c\\nd\\te\\u0001f\""
unfolding push_str
escapes_what_would_break_out = refl

-- Every quote of the text has a backslash before it; the Boolean says whether the last did.
abbrev quotes_escaped : Bool → Text → Bool
quotes_escaped after [] = true
quotes_escaped after (c ∷ s) = (if c == b'"' then after else true) && quotes_escaped (c == b'\\') s

abbrev a_log_line_with_a_quote_stays_one_string : Bool
a_log_line_with_a_quote_stays_one_string = elim (push_str [] (codes "\",\"admin\":true,\"x\":\"")) [
  | [] ↦ false
  | q ∷ more ↦
      q == b'"'
      && ends_with b'"' more
      && contains more (codes "\"")
      && quotes_escaped false (take (length more - 1) more)
]

log_line_passes : a_log_line_with_a_quote_stays_one_string ≡ true
unfolding push_str ends_with contains
log_line_passes = refl

object_and_array_shapes :
    (done (bool (codes "c") true (num (codes "b") 2 (str (codes "a") (codes "1") new_obj)))
      ≡ codes "{\"a\":\"1\",\"b\":2,\"c\":true}")
    × (arr (codes "1" ∷ codes "2" ∷ []) ≡ codes "[1,2]")
    × (str_arr (codes "x" ∷ codes "y" ∷ []) ≡ codes "[\"x\",\"y\"]")
    × (done new_obj ≡ codes "{}")
unfolding done bool num str arr str_arr
object_and_array_shapes = (refl, refl, refl, refl)
