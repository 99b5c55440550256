-- ===== src/Tests/Units.antt =====
-- The unit tests of ui/src/collect.rs, each a test of the model; those of http.rs and json.rs are
-- in Units/Texts.
use fips_shield.Base.{
  ℕ, zero, suc, ◌+◌, ◌-◌, ◌<◌, ◌≡◌, refl, Bool, true, false, not, ◌&&◌, ◌||◌, Option, none, some,
  List, [], ◌∷◌, ◌++◌, length, ◌==◌, ltb, if◌then◌else◌, some_of,
}
mod Texts
use fips_shield.Std.Utf8.{from_utf8_lossy}
use fips_shield.Std.Text.{Text, codes, text_eq, starts_with, trim, lines}
use fips_shield.Std.Number.{to_text}
use fips_shield.Ui.Json.{push_str, new_obj, str, num, bool, done, arr, str_arr}
use fips_shield.Ui.Http.{Request, param, percent_decode, parse_query}
use fips_shield.Ui.Collect.{Config, Entry, Service, profiles, services}
use fips_shield.Ui.Collect.Stats.{split_at_gap}
use fips_shield.Ui.Collect.Logs.{tail_of}

-- `assert_eq!` of lists of texts
abbrev texts_eq : List Text → List Text → Bool
texts_eq [] [] = true
texts_eq [] (t ∷ ts) = false
texts_eq (s ∷ ss) [] = false
texts_eq (s ∷ ss) (t ∷ ts) = text_eq s t && texts_eq ss ts

abbrev cfg : List Entry → Config
cfg pairs = record { entries = pairs }

-- A test of the first service, false if there is none.
abbrev first_service : Config → (Service → Bool) → Bool
first_service c test = elim (services c) [ [] ↦ false | s ∷ more ↦ test s ]

abbrev profiles_split_and_trim : Bool
profiles_split_and_trim =
    texts_eq
      (profiles (cfg ((codes "custom", codes "SHIELD_PROFILES", codes "strfry, http ,tcp") ∷ [])))
      (codes "strfry" ∷ codes "http" ∷ codes "tcp" ∷ [])
    && texts_eq (profiles (cfg [])) (codes "strfry" ∷ [])
    && texts_eq (profiles (cfg ((codes "custom", codes "SHIELD_PROFILES", codes "tcp,") ∷ [])))
        (codes "tcp" ∷ [])

profiles_pass : profiles_split_and_trim ≡ true
unfolding profiles text_eq
profiles_pass = refl

abbrev strfry_uses_unprefixed_keys : Bool
strfry_uses_unprefixed_keys =
    first_service
      (cfg (
        (codes "custom", codes "SHIELD_PROFILES", codes "strfry")
        ∷ (codes "preset:strfry/strict", codes "SHIELD_LISTEN_PORT", codes "80")
        ∷ (codes "preset:strfry/strict", codes "SHIELD_UPSTREAM", codes "127.0.0.1:7777")
        ∷ (codes "preset:strfry/strict", codes "SHIELD_STRFRY_CONN_RATE", codes "30")
        ∷ []))
      (λ s.
        text_eq s.listen_port (codes "80")
        && text_eq s.upstream (codes "127.0.0.1:7777")
        && text_eq s.log_name (codes "strfry")
        && text_eq s.preset (codes "strict"))

strfry_passes : strfry_uses_unprefixed_keys ≡ true
unfolding services text_eq
strfry_passes = refl

abbrev service_name_comes_from_the_service_key : Bool
service_name_comes_from_the_service_key =
    first_service
      (cfg (
        (codes "custom", codes "SHIELD_PROFILES", codes "tcp")
        ∷ (codes "custom", codes "SHIELD_TCP_SERVICE", codes "ssh")
        ∷ (codes "preset:tcp/loose", codes "SHIELD_TCP_CONN_RATE", codes "30")
        ∷ []))
      (λ s. text_eq s.log_name (codes "ssh") && text_eq s.preset (codes "loose"))

service_name_passes : service_name_comes_from_the_service_key ≡ true
unfolding services text_eq
service_name_passes = refl

abbrev a_custom_rate_reports_as_custom : Bool
a_custom_rate_reports_as_custom =
    first_service
      (cfg (
        (codes "custom", codes "SHIELD_PROFILES", codes "tcp")
        ∷ (codes "custom", codes "SHIELD_TCP_CONN_RATE", codes "7")
        ∷ []))
      (λ s. text_eq s.preset (codes "custom"))

custom_rate_passes : a_custom_rate_reports_as_custom ≡ true
unfolding services text_eq
custom_rate_passes = refl

abbrev limits_do_not_leak_between_profiles : Bool
limits_do_not_leak_between_profiles =
    first_service
      (cfg (
        (codes "custom", codes "SHIELD_PROFILES", codes "tcp")
        ∷ (codes "preset:tcp/default", codes "SHIELD_TCP_CONN_RATE", codes "10")
        ∷ (codes "preset:http/default", codes "SHIELD_HTTP_CONN_RATE", codes "120")
        ∷ []))
      (λ s.
        some_of (λ (l : Entry). text_eq l.0 (codes "SHIELD_TCP_CONN_RATE")) s.limits
        && not (some_of (λ (l : Entry). starts_with l.0 (codes "SHIELD_HTTP_")) s.limits))

limits_pass : limits_do_not_leak_between_profiles ≡ true
unfolding services text_eq starts_with
limits_pass = refl

-- The file of the test: so many lines from this number on.
abbrev numbered : ℕ → ℕ → Text
numbered zero i = []
numbered (suc n) i = codes "line-" ++ (to_text i ++ (b'\n' ∷ numbered n (i + 1)))

abbrev tail_returns_the_last_lines : Bool
tail_returns_the_last_lines =
    texts_eq (tail_of (numbered 500 0) 3 1_048_576)
      (codes "line-497" ∷ codes "line-498" ∷ codes "line-499" ∷ [])

-- A window of 40 bytes starts inside a line, which is dropped.
abbrev tail_drops_a_partial_first : Bool
tail_drops_a_partial_first =
    let got = tail_of (numbered 500 0) 1000 40 in
    not (some_of (λ (l : Text). not (starts_with l (codes "line-"))) got) && ltb (length got) 500

abbrev tail_of_more_lines_than_there_are : Bool
tail_of_more_lines_than_there_are = length (tail_of (numbered 500 0) 10_000 1_048_576) == 500

tail_passes : tail_returns_the_last_lines ≡ true
unfolding tail_of to_text text_eq lines from_utf8_lossy
tail_passes = refl

tail_partial_passes : tail_drops_a_partial_first ≡ true
unfolding tail_of to_text starts_with lines from_utf8_lossy
tail_partial_passes = refl

tail_more_passes : tail_of_more_lines_than_there_are ≡ true
unfolding tail_of to_text lines from_utf8_lossy
tail_more_passes = refl

abbrev guard_stats_labels_may_contain_spaces : Bool
guard_stats_labels_may_contain_spaces = elim (split_at_gap (codes "dropped (ban)      12")) [
  | none ↦ false
  | some (l, v) ↦ text_eq (trim l) (codes "dropped (ban)") && text_eq (trim v) (codes "12")
]

labels_pass : guard_stats_labels_may_contain_spaces ≡ true
unfolding split_at_gap trim text_eq
labels_pass = refl
