-- ===== src/Ui/Collect/Bans.antt =====
-- `bans` and `ban_json` of ui/src/collect.rs.
pub mod RoundTrip
use fips_shield.Base.{
  ℕ, ◌-◌, Bool, true, false, Option, none, some, List, [], ◌∷◌, ◌==◌, if◌then◌else◌, Result, ok,
  err, collect_some,
}
use fips_shield.Std.Text.{Text, codes, lines, split_whitespace}
use fips_shield.Std.Number.{parse_u64}
use fips_shield.Ui.Json
use fips_shield.Ui.Collect.{FilePath, to_str, Commands, run}

-- `until` is in Unix seconds; 0 means permanent.
pub record Ban : Type 0 where
  pub addr : Text
  pub until : ℕ

-- The first two words of a line, the second a number.
unfoldable pub parse_ban : Text → Option Ban
unfolding split_whitespace parse_u64
parse_ban l = elim (split_whitespace l) [
  | [] ↦ none
  | addr ∷ rest ↦ elim rest [
    | [] ↦ none
    | until ∷ more ↦ elim (parse_u64 until) [
      | none ↦ none
      | some n ↦ some (record { addr = addr; until = n })
    ]
  ]
]

unfoldable pub parse_bans : Text → List Ban
parse_bans out = collect_some parse_ban (lines out)

unfoldable pub bans : Commands → FilePath → Result Text (List Ban)
bans exec shield_ban = elim (to_str shield_ban (codes "shield-ban path is not valid UTF-8")) [
  | err e ↦ err e
  | ok bin ↦ elim (run exec bin (codes "list" ∷ [])) [
    | err e ↦ err e
    | ok out ↦ ok (parse_bans out)
  ]
]

unfoldable pub ban_json : Ban → ℕ → Text
unfolding Json.str Json.num Json.bool Json.done
ban_json b now = Json.done (
    Json.num (codes "remaining") (b.until - now) (
      Json.bool (codes "permanent") (b.until == 0)
        (Json.num (codes "until") b.until (Json.str (codes "addr") b.addr Json.new_obj))))
