-- ===== src/Ui/Collect/Bans/RoundTrip.antt =====
-- The dashboard's reading of what `fips-guard list` prints: `bans` of ui/src/collect.rs against
-- `cmd_list` of guard/src/main.rs.
use fips_shield.Base.{
  ℕ, ◌≡◌, ◌≢◌, ◌≤◌, refl, some, List, [], ◌∷◌, collect_some, map, All, All-append, arith,
}
use fips_shield.Std.Text.{Text, is_whitespace}
use fips_shield.Std.Text.Words.{IsWord, split_whitespace_two}
use fips_shield.Std.Text.Lines.{IsLine, unlines, lines-unlines}
use fips_shield.Std.Number.{to_text, to_text-ne-nil, parse_u64-to_text, u64_max}
use fips_shield.Std.Ipv6.{show_v6}
use fips_shield.Std.Ipv6.Visible.{IsVisible, show_v6-IsVisible, show_v6-ne-nil, to_text-IsVisible}
use fips_shield.Guard.Kernel.{Addr6}
use fips_shield.Guard.Bans.{ban_line}
use fips_shield.Ui.Collect.Bans.{Ban, parse_ban, parse_bans}

visible-IsWord : (t : Text) → All IsVisible t → IsWord t
unfolding is_whitespace
visible-IsWord [] h = tt
visible-IsWord (c ∷ t) (h, hs) = (ground arith, visible-IsWord t hs)

visible-IsLine : (t : Text) → All IsVisible t → IsLine t
visible-IsLine [] h = tt
visible-IsLine (c ∷ t) (h, hs) = (((λ q. omega arith), (λ q. omega arith)), visible-IsLine t hs)

-- An entry as the dashboard holds it.
abbrev pub shown : Addr6 × ℕ → Ban
shown (key, until) = record { addr = show_v6 key; until = until }

-- An address, and a time that is a u64.
abbrev pub IsEntry : Addr6 × ℕ → Type 0
IsEntry (key, until) = (key ≢ []) × (until ≤ u64_max)

ban_line-IsLine : (e : Addr6 × ℕ) → IsLine (ban_line e)
unfolding ban_line
ban_line-IsLine (key, until) =
    All-append _ (show_v6 key) _ (visible-IsLine (show_v6 key) (show_v6-IsVisible key)) (
      ((λ q. omega arith), (λ q. omega arith)),
      visible-IsLine (to_text until) (to_text-IsVisible until),
    )

ban_lines-IsLine : (l : List (Addr6 × ℕ)) → All IsLine (map ban_line l)
ban_lines-IsLine [] = tt
ban_lines-IsLine (e ∷ l) = (ban_line-IsLine e, ban_lines-IsLine l)

parse_ban-ban_line : (e : Addr6 × ℕ) → IsEntry e → parse_ban (ban_line e) ≡ some (shown e)
unfolding parse_ban ban_line
parse_ban-ban_line (key, until) (h, l) =
    rw
      (
        split_whitespace_two (show_v6 key) (to_text until) (show_v6-ne-nil key h)
            (to_text-ne-nil until) (visible-IsWord (show_v6 key) (show_v6-IsVisible key))
            (visible-IsWord (to_text until) (to_text-IsVisible until)),
        parse_ban,
      )
      (rw (parse_u64-to_text until l) refl)

parse_each :
    (l : List (Addr6 × ℕ)) → All IsEntry l → collect_some parse_ban (map ban_line l) ≡ map shown l
parse_each [] h = refl
parse_each (e ∷ l) (h, hs) = ground (arith, parse_ban-ban_line e h, parse_each l hs)

-- What the dashboard reads from the lines that `fips-guard list` prints for some entries is those
-- entries, in their order, each with its address printed and its time, if the addresses are not
-- empty and the times are u64s.
pub parse_bans-ban_lines :
    (l : List (Addr6 × ℕ)) → All IsEntry l → parse_bans (unlines (map ban_line l)) ≡ map shown l
unfolding parse_bans
parse_bans-ban_lines l h =
    rw (lines-unlines (map ban_line l) (ban_lines-IsLine l), parse_bans) (parse_each l h)
