-- ===== src/Ui/Collect/Logs/Tail.antt =====
-- How much of a log `tail` of ui/src/collect.rs yields.
use fips_shield.Base.{
  ltb, ℕ, zero, suc, ◌-◌, ◌≤◌, ◌≡◌, refl, List, [], ◌∷◌, arith, length, drop, min,
}
use fips_shield.Std.Text.{lines}
use fips_shield.Std.Utf8.{Bytes, from_utf8_lossy}
use fips_shield.Ui.Collect.Logs.{window, drop_fragment, last_lines, tail_of}

pub length-drop : {A : Type 0} (n : ℕ) (l : List A) → length (drop n l) ≡ length l - n
length-drop zero [] = refl
length-drop zero (x ∷ l) = omega arith
length-drop (suc n) [] = omega arith
length-drop (suc n) (x ∷ l) = omega (arith, length-drop n l)

-- A tail reads no more bytes of the log than it may, and yields no more lines than asked for.
pub length-tail_of :
    (b : Bytes) (n max_bytes : ℕ)
    → (length (tail_of b n max_bytes) ≤ n) × (length (window b max_bytes) ≤ max_bytes)
unfolding tail_of last_lines window
length-tail_of b n max_bytes =
    let kept =
      drop_fragment (ltb (min max_bytes (length b)) (length b))
        (lines (from_utf8_lossy (window b max_bytes))) in
    (
      omega (arith, length-drop (length kept - n) kept),
      omega (arith, length-drop (length b - min max_bytes (length b)) b),
    )
