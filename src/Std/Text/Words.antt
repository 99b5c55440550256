-- ===== src/Std/Text/Words.antt =====
-- Words without white space, through `trim` and `split_whitespace`.
use fips_shield.Base.{
  sym, ◌≡◌, ◌≢◌, refl, false, [], ◌∷◌, ◌++◌, arith, All, append_assoc, append-nil, ◌∙◌, ap,
}
use fips_shield.Std.Text.{Text, is_whitespace, trim_start, trim_end, words, split_whitespace}

abbrev pub IsWord : Text → Type 0
IsWord = All (λ c. is_whitespace c ≡ false)

pub trim_end_word : (t : Text) → IsWord t → trim_end t ≡ t
unfolding trim_end
trim_end_word [] h = refl
trim_end_word (c ∷ []) (h, hs) = ground arith
trim_end_word (c ∷ d ∷ t) (h, hs) = rw (trim_end_word (d ∷ t) hs)

-- White space before a word at the end is kept.
pub trim_end-append : (s t : Text) → t ≢ [] → IsWord t → trim_end (s ++ t) ≡ s ++ t
unfolding trim_end
trim_end-append [] t n h = trim_end_word t h
trim_end-append (c ∷ s) [] n h = absurd (n refl)
trim_end-append (c ∷ []) (d ∷ t) n h = rw (trim_end_word (d ∷ t) h)
trim_end-append (c ∷ e ∷ s) (d ∷ t) n h = rw (trim_end-append (e ∷ s) (d ∷ t) n h)

pub trim_start_word : (t : Text) → IsWord t → trim_start t ≡ t
unfolding trim_start
trim_start_word [] h = refl
trim_start_word (c ∷ t) (h, hs) = rw h

words-append : (t s w : Text) → IsWord t → words (t ++ s) w ≡ words s (w ++ t)
unfolding words
words-append [] s w h = rw append-nil
words-append (c ∷ t) s w (h, hs) =
    rw h (words-append t s (w ++ (c ∷ [])) hs ∙ ap (words s) (append_assoc w (c ∷ []) t))

words_last : (t : Text) → IsWord t → t ≢ [] → words t [] ≡ t ∷ []
unfolding words
words_last [] h n = absurd (n refl)
words_last (d ∷ b) h n =
    sym (ap (λ t. words t []) (append-nil (d ∷ b))) ∙ words-append (d ∷ b) [] [] h

-- Two words with a space between them.
pub split_whitespace_two :
    (a b : Text)
    → a ≢ []
    → b ≢ []
    → IsWord a
    → IsWord b
    → split_whitespace (a ++ (b' ' ∷ b)) ≡ a ∷ b ∷ []
unfolding split_whitespace
split_whitespace_two [] b na nb ha hb = absurd (na refl)
split_whitespace_two (c ∷ a) [] na nb ha hb = absurd (nb refl)
split_whitespace_two (c ∷ a) (d ∷ b) na nb ha hb =
    words-append (c ∷ a) (b' ' ∷ d ∷ b) [] ha ∙ rw (words_last (d ∷ b) hb nb) refl
