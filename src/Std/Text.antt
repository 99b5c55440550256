-- ===== src/Std/Text.antt =====
-- `str` as its list of code points, with the methods of `str` that the program calls.
pub mod Words
pub mod Lines
use Prim.Native.Char.{code}
use fips_shield.Base.{
  ℕ, String, ◌≡◌, refl, Bool, true, false, ◌&&◌, ◌||◌, Option, none, some, List, [], ◌∷◌, ◌++◌,
  arith, leb, ◌==◌, if◌then◌else◌,
}

abbrev pub Text : Type 0
Text = List ℕ

-- A literal.
abbrev pub codes : String → Text
codes String.[] = []
codes (String.◌∷◌ c s) = code c ∷ codes s

-- `==` on texts
unfoldable pub text_eq : Text → Text → Bool
text_eq [] [] = true
text_eq [] (b ∷ t) = false
text_eq (a ∷ s) [] = false
text_eq (a ∷ s) (b ∷ t) = a == b && text_eq s t

pub text_eq_refl : (s : Text) → text_eq s s ≡ true
unfolding text_eq
text_eq_refl [] = refl
text_eq_refl (a ∷ s) = ground (arith, text_eq_refl s)

pub text_eq→eq : (s t : Text) → text_eq s t ≡ true → s ≡ t
unfolding text_eq
text_eq→eq [] [] h = refl
text_eq→eq [] (b ∷ t) h = cc
text_eq→eq (a ∷ s) [] h = cc
text_eq→eq (a ∷ s) (b ∷ t) h = ground (arith, text_eq→eq s t)

-- `char::is_whitespace`: the White_Space property.
unfoldable pub is_whitespace : ℕ → Bool
is_whitespace c =
    (leb 9 c && leb c 13)
    || c == 32
    || c == 0x85
    || c == 0xa0
    || c == 0x1680
    || (leb 0x2000 c && leb c 0x200a)
    || c == 0x2028
    || c == 0x2029
    || c == 0x202f
    || c == 0x205f
    || c == 0x3000

unfoldable pub trim_start : Text → Text
unfolding is_whitespace
trim_start [] = []
trim_start (c ∷ s) = let rest = trim_start s in if is_whitespace c then rest else c ∷ s

unfoldable pub trim_end : Text → Text
unfolding is_whitespace
trim_end [] = []
trim_end (c ∷ s) =
    let rest = trim_end s in
    elim rest [ [] ↦ if is_whitespace c then [] else c ∷ [] | d ∷ r ↦ c ∷ d ∷ r ]

unfoldable pub trim : Text → Text
unfolding trim_start trim_end
trim s = trim_end (trim_start s)

-- `s.split(c)`, for a character: always at least one part.
unfoldable pub split : ℕ → Text → List Text
split sep [] = [] ∷ []
split sep (c ∷ s) =
    let rest = split sep s in
    if c == sep then [] ∷ rest else elim rest [ [] ↦ (c ∷ []) ∷ [] | p ∷ ps ↦ (c ∷ p) ∷ ps ]

-- `s.split_once(c)`
unfoldable pub split_once : ℕ → Text → Option (Text × Text)
split_once sep [] = none
split_once sep (c ∷ s) =
    let rest = split_once sep s in
    if c == sep then some ([], s) else elim rest [ none ↦ none | some (a, b) ↦ some (c ∷ a, b) ]

-- `w` is the word so far.
unfoldable pub words : Text → Text → List Text
unfolding is_whitespace
words [] [] = []
words [] (d ∷ w) = (d ∷ w) ∷ []
words (c ∷ s) w =
    let next = words s [] in
    let more = words s (w ++ (c ∷ [])) in
    if is_whitespace c then elim w [ [] ↦ next | d ∷ v ↦ (d ∷ v) ∷ next ] else more

-- `s.split_whitespace()`: the parts between runs of white space, none of them empty.
unfoldable pub split_whitespace : Text → List Text
unfolding words
split_whitespace s = words s []

unfoldable pub starts_with : Text → Text → Bool
starts_with s [] = true
starts_with [] (p ∷ ps) = false
starts_with (c ∷ s) (p ∷ ps) = c == p && starts_with s ps

-- `s.strip_prefix(p)`
unfoldable pub strip_prefix : Text → Text → Option Text
strip_prefix s [] = some s
strip_prefix [] (p ∷ ps) = none
strip_prefix (c ∷ s) (p ∷ ps) = let rest = strip_prefix s ps in if c == p then rest else none

-- `s.contains(p)`, for a text `p`
unfoldable pub contains : Text → Text → Bool
unfolding starts_with
contains [] p = starts_with [] p
contains (c ∷ s) p = starts_with (c ∷ s) p || contains s p

strip_cr : Text → Text
strip_cr [] = []
strip_cr (c ∷ []) = if c == b'\r' then [] else c ∷ []
strip_cr (c ∷ d ∷ s) = c ∷ strip_cr (d ∷ s)

finish_lines : List Text → List Text
unfolding strip_cr
finish_lines [] = []
finish_lines ([] ∷ []) = []
finish_lines ((c ∷ s) ∷ []) = (c ∷ s) ∷ []
finish_lines (p ∷ q ∷ ps) = strip_cr p ∷ finish_lines (q ∷ ps)

-- `s.lines()`: no line for what follows the last newline if it is empty; `\r\n` ends a line too.
unfoldable pub lines : Text → List Text
unfolding split finish_lines
lines s = finish_lines (split b'\n' s)

-- `s.splitn(3, c)`, which yields one part, two or three.
unfoldable pub splitn3 : ℕ → Text → Text × Option (Text × Option Text)
unfolding split_once
splitn3 sep s = elim (split_once sep s) [
  | none ↦ (s, none)
  | some (a, r) ↦ elim (split_once sep r) [
    | none ↦ (a, some (r, none))
    | some (b, c) ↦ (a, some (b, some c))
  ]
]

-- `s.ends_with(c)`, for a character
unfoldable pub ends_with : ℕ → Text → Bool
ends_with c [] = false
ends_with c (d ∷ []) = c == d
ends_with c (d ∷ e ∷ s) = ends_with c (e ∷ s)
