-- ===== src/Ui/Collect/Stats.antt =====
-- `guard_stats` of ui/src/collect.rs.
pub mod Rows
use fips_shield.Base.{
  ℕ, Bool, true, false, ◌&&◌, Option, none, some, List, [], ◌∷◌, ◌==◌, if◌then◌else◌, Result, ok,
  err, collect_some,
}
use fips_shield.Std.Text.{Text, codes, lines, trim, trim_end}
use fips_shield.Ui.Collect.{FilePath, to_str, Commands, run}

-- `l.find("  ")` and `l.split_at(idx)`
unfoldable pub split_at_gap : Text → Option (Text × Text)
split_at_gap [] = none
split_at_gap (c ∷ []) = none
split_at_gap (c ∷ d ∷ s) =
    let rest = split_at_gap (d ∷ s) in
    if c == b' ' && d == b' '
    then some ([], c ∷ d ∷ s)
    else elim rest [ none ↦ none | some lv ↦ some (c ∷ lv.0, lv.1) ]

unfoldable pub parse_stat : Text → Option (Text × Text)
unfolding split_at_gap
parse_stat l = elim (split_at_gap (trim_end l)) [
  | none ↦ none
  | some lv ↦ some (trim lv.0, trim lv.1)
]

unfoldable pub parse_stats : Text → List (Text × Text)
parse_stats out = collect_some parse_stat (lines out)

unfoldable pub guard_stats : Commands → FilePath → Result Text (List (Text × Text))
guard_stats exec fips_guard =
    elim (to_str fips_guard (codes "fips-guard path is not valid UTF-8")) [
      | err e ↦ err e
      | ok bin ↦ elim (run exec bin (codes "stats" ∷ [])) [
        | err e ↦ err e
        | ok out ↦ ok (parse_stats out)
      ]
    ]
