-- ===== src/Ui/Collect/Stats/Rows.antt =====
-- The rows that the dashboard reads off what `fips-guard stats` prints: `guard_stats` of
-- ui/src/collect.rs on the lines of `cmd_stats` of guard/src/main.rs.
use fips_shield.Base.{ℕ, ◌≡◌, refl, none, some, [], ◌∷◌, ◌++◌, arith, All}
use fips_shield.Std.Text.{Text, codes, trim, trim_end, trim_start, is_whitespace}
use fips_shield.Std.Text.Words.{IsWord, trim_end-append, trim_end_word, trim_start_word}
use fips_shield.Std.Number.{to_text, IsDigit, to_text-IsDigit, to_text-ne-nil}
use fips_shield.Guard.Stats.{
  line_passed, line_dropped_ban, line_dropped_throttle, line_not_ipv6, line_parse_failed,
}
use fips_shield.Ui.Collect.Stats.{split_at_gap, parse_stat}

IsWord-digits : (t : Text) → All IsDigit t → IsWord t
unfolding is_whitespace
IsWord-digits [] h = tt
IsWord-digits (c ∷ t) (h, hs) = (ground arith, IsWord-digits t hs)

to_text-IsWord : (n : ℕ) → IsWord (to_text n)
to_text-IsWord n = IsWord-digits (to_text n) (to_text-IsDigit n)

split_at_gap_word : (t : Text) → IsWord t → split_at_gap t ≡ none
unfolding split_at_gap is_whitespace
split_at_gap_word [] h = refl
split_at_gap_word (c ∷ []) h = refl
split_at_gap_word (c ∷ d ∷ t) (h, hs) = rw (split_at_gap_word (d ∷ t) hs) (ground arith)

split_at_gap-space : (t : Text) → IsWord t → split_at_gap (b' ' ∷ t) ≡ none
unfolding split_at_gap is_whitespace
split_at_gap-space [] h = refl
split_at_gap-space (d ∷ t) (h, hs) = rw (split_at_gap_word (d ∷ t) (h, hs)) (ground arith)

trim_word : (t : Text) → IsWord t → trim t ≡ t
unfolding trim
trim_word t h = rw (trim_start_word t h) (trim_end_word t h)

-- A counter's line gives its label and its value, but that of the packets dropped by the throttle,
-- whose label fills its column, gives no row.
pub parse_stat-line :
    (n : ℕ)
    → (parse_stat (line_passed n) ≡ some (codes "passed", to_text n))
      × (parse_stat (line_dropped_ban n) ≡ some (codes "dropped (ban)", to_text n))
      × (parse_stat (line_dropped_throttle n) ≡ none)
      × (parse_stat (line_not_ipv6 n) ≡ some (codes "not ipv6", to_text n))
      × (parse_stat (line_parse_failed n) ≡ some (codes "parse failed", to_text n))
unfolding parse_stat split_at_gap trim trim_start is_whitespace line_passed line_dropped_ban
    line_dropped_throttle line_not_ipv6 line_parse_failed
parse_stat-line n =
    let w : IsWord (to_text n) = to_text-IsWord n in
    let tw : trim (to_text n) ≡ to_text n = trim_word (to_text n) w in
    let trimmed : (s : Text) → trim_end (s ++ to_text n) ≡ s ++ to_text n =
      λ s. trim_end-append s (to_text n) (to_text-ne-nil n) w in
    (
      rw (trimmed (codes "passed             "), parse_stat) (rw tw refl),
      rw (trimmed (codes "dropped (ban)      "), parse_stat) (rw tw refl),
      rw (trimmed (codes "dropped (throttle) "), parse_stat)
          (rw (split_at_gap-space (to_text n) w) refl),
      rw (trimmed (codes "not ipv6           "), parse_stat) (rw tw refl),
      rw (trimmed (codes "parse failed       "), parse_stat) (rw tw refl),
    )
