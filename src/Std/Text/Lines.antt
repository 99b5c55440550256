-- ===== src/Std/Text/Lines.antt =====
-- `lines` of a text that was printed line by line.
use fips_shield.Base.{
  sym, ℕ, ◌≡◌, ◌≢◌, refl, List, [], ◌∷◌, ◌++◌, arith, All, if◌then◌else◌, ◌==◌, ◌∙◌, ap,
}
use fips_shield.Std.Text.{Text, split, lines, strip_cr, finish_lines}

-- What a sequence of `println!` writes.
abbrev pub unlines : List Text → Text
unlines [] = []
unlines (l ∷ ls) = l ++ (b'\n' ∷ unlines ls)

-- A text that holds no end of a line.
abbrev pub IsLine : Text → Type 0
IsLine = All (λ c. (c ≢ b'\n') × (c ≢ b'\r'))

split_ne : (sep : ℕ) (s : Text) → (p : Text) × (ps : List Text) × (split sep s ≡ p ∷ ps)
unfolding split
split_ne sep [] = ([], [], refl)
split_ne sep (c ∷ s) =
    let (p, ps, e) = split_ne sep s in
    (if c == sep then [] else c ∷ p, if c == sep then p ∷ ps else ps, ground arith)

pub split_line : (l s : Text) → IsLine l → split b'\n' (l ++ (b'\n' ∷ s)) ≡ l ∷ split b'\n' s
unfolding split
split_line [] s h = refl
split_line (c ∷ l) s ((h, _), hs) = rw (split_line l s hs) (ground arith)

split-ne_nil : (s : Text) → split b'\n' s ≢ []
split-ne_nil s h = let (p, ps, e) = split_ne b'\n' s in ground (arith, e)

strip_cr_line : (l : Text) → IsLine l → strip_cr l ≡ l
unfolding strip_cr
strip_cr_line [] h = refl
strip_cr_line (c ∷ []) h = ground arith
strip_cr_line (c ∷ d ∷ l) (h, hs) = rw (strip_cr_line (d ∷ l) hs)

finish_more :
    (l : Text) (ps : List Text) (s : Text)
    → IsLine l
    → ps ≡ split b'\n' s
    → finish_lines (l ∷ ps) ≡ l ∷ finish_lines ps
unfolding finish_lines
finish_more l [] s h e = absurd (split-ne_nil s (sym e))
finish_more l (p ∷ ps) s h e = ap (λ t. t ∷ finish_lines (p ∷ ps)) (strip_cr_line l h)

-- The lines of a text that was printed line by line.
pub lines-unlines : (ls : List Text) → All IsLine ls → lines (unlines ls) ≡ ls
unfolding lines
lines-unlines [] h = refl
lines-unlines (l ∷ ls) (h, hs) = rw (split_line l (unlines ls) h) (
    finish_more l (split b'\n' (unlines ls)) (unlines ls) h refl
    ∙ ap (λ t. l ∷ t) (lines-unlines ls hs))
