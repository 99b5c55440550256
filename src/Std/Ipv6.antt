-- ===== src/Std/Ipv6.antt =====
-- `Display` of `std::net::Ipv6Addr`.
pub mod Visible
use fips_shield.Base.{
  ℕ, zero, suc, ◌+◌, ◌-◌, ◌*◌, ◌/◌, ◌%◌, ◌≡◌, refl, Bool, true, false, List, [], ◌∷◌, ◌++◌, ltb,
  ◌==◌, if◌then◌else◌, take, drop, map,
}
use fips_shield.Std.Text.{Text, codes, text_eq}
use fips_shield.Std.Number.{to_text}

hex_digit : ℕ → ℕ
hex_digit d = if ltb d 10 then b'0' + d else b'a' + (d - 10)

hex_digits : ℕ → ℕ → Text
unfolding hex_digit
hex_digits zero n = []
hex_digits (suc fuel) n = elim (ltb n 16) [
  | true ↦ hex_digit n ∷ []
  | false ↦ hex_digits fuel (n / 16) ++ (hex_digit (n % 16) ∷ [])
]

-- `{:x}` of a number below 16 ^ 8
unfoldable pub to_hex : ℕ → Text
unfolding hex_digits
to_hex n = hex_digits 8 n

unfoldable pub segments : List ℕ → List ℕ
segments [] = []
segments (a ∷ []) = a ∷ []
segments (a ∷ b ∷ r) = (a * 256 + b) ∷ segments r

pub record Span : Type 0 where
  pub start : ℕ
  pub len : ℕ

-- The first longest run of zero segments; `i` counts the segments.
longest_zeros : ℕ → Span → Span → List ℕ → Span
longest_zeros i cur best [] = best
longest_zeros i cur best (s ∷ r) =
    let grown : Span = record {
      start = if cur.len == 0 then i else cur.start;
      len = cur.len + 1;
    } in
    let cur' : Span = if s == 0 then grown else record { start = 0; len = 0 } in
    longest_zeros (i + 1) cur' (if ltb best.len cur'.len then cur' else best) r

joined : ℕ → List Text → Text
joined sep [] = []
joined sep (t ∷ []) = t
joined sep (t ∷ u ∷ r) = t ++ (sep ∷ joined sep (u ∷ r))

fmt_segments : List ℕ → Text
unfolding to_hex joined
fmt_segments s = joined b':' (map to_hex s)

is_v4_mapped : List ℕ → Bool
is_v4_mapped o = text_eq (take 12 o) (0 ∷ 0 ∷ 0 ∷ 0 ∷ 0 ∷ 0 ∷ 0 ∷ 0 ∷ 0 ∷ 0 ∷ 0xff ∷ 0xff ∷ [])

-- The segments with a run of zeros written `::` if it is longer than one.
compressed : List ℕ → Span → Text
unfolding fmt_segments
compressed s run =
    if ltb 1 run.len
    then fmt_segments (take run.start s)
      ++ (codes "::" ++ fmt_segments (drop (run.start + run.len) s))
    else fmt_segments s

unfoldable pub show_v6 : List ℕ → Text
unfolding compressed is_v4_mapped longest_zeros joined
show_v6 o =
    if is_v4_mapped o
    then codes "::ffff:" ++ joined b'.' (map to_text (drop 12 o))
    else compressed (segments o) (
        longest_zeros 0 (record { start = 0; len = 0 }) (record { start = 0; len = 0 })
          (segments o))

shows :
    (show_v6 (0xfd ∷ 0 ∷ 0 ∷ 0 ∷ 0 ∷ 0 ∷ 0 ∷ 0 ∷ 0 ∷ 0 ∷ 0 ∷ 0 ∷ 0 ∷ 0 ∷ 1 ∷ 0x2f ∷ [])
      ≡ codes "fd00::12f")
    × (show_v6 (0 ∷ 0 ∷ 0 ∷ 0 ∷ 0 ∷ 0 ∷ 0 ∷ 0 ∷ 0 ∷ 0 ∷ 0xff ∷ 0xff ∷ 1 ∷ 2 ∷ 3 ∷ 4 ∷ [])
        ≡ codes "::ffff:1.2.3.4")
    × (show_v6 (0 ∷ 1 ∷ 0 ∷ 0 ∷ 0 ∷ 2 ∷ 0 ∷ 3 ∷ 0 ∷ 4 ∷ 0 ∷ 5 ∷ 0 ∷ 6 ∷ 0 ∷ 7 ∷ [])
        ≡ codes "1:0:2:3:4:5:6:7")
unfolding show_v6 segments text_eq to_text
shows = (refl, refl, refl)
