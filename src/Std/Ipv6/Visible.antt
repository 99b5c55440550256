-- ===== src/Std/Ipv6/Visible.antt =====
-- The characters of a printed IPv6 address.
use fips_shield.Base.{
  ℕ, zero, suc, ◌+◌, ◌*◌, ◌/◌, ◌%◌, ◌≤◌, ◌<◌, ◌≡◌, ◌≢◌, refl, List, [], ◌∷◌, ◌++◌, ltb, take, drop,
  map, All, All-append, arith, Bool-cases, inl, inr,
}
use fips_shield.Std.Text.{Text, codes}
use fips_shield.Std.Number.{to_text, IsDigit, to_text-IsDigit}
use fips_shield.Std.Ipv6.{
  hex_digit, hex_digits, to_hex, joined, fmt_segments, show_v6, segments, compressed, is_v4_mapped,
  Span, longest_zeros,
}

-- A printable ASCII character that is no space.
abbrev pub IsVisible : ℕ → Type 0
IsVisible c = (33 ≤ c) × (c ≤ 126)

IsVisible-digits : (t : Text) → All IsDigit t → All IsVisible t
IsVisible-digits [] h = tt
IsVisible-digits (c ∷ t) (h, hs) = (omega arith, IsVisible-digits t hs)

pub to_text-IsVisible : (n : ℕ) → All IsVisible (to_text n)
to_text-IsVisible n = IsVisible-digits (to_text n) (to_text-IsDigit n)

hex_digit-IsVisible : (d : ℕ) → d < 16 → IsVisible (hex_digit d)
unfolding hex_digit
hex_digit-IsVisible d h = ground arith

hex_digits-IsVisible : (fuel n : ℕ) → All IsVisible (hex_digits fuel n)
unfolding hex_digits
hex_digits-IsVisible zero n = tt
hex_digits-IsVisible (suc fuel) n = elim (Bool-cases (ltb n 16)) [
  | inl e ↦ rw (e, hex_digits) (hex_digit-IsVisible n (ground arith), tt)
  | inr e ↦
      rw (e, hex_digits)
        (All-append IsVisible (hex_digits fuel (n / 16)) _ (hex_digits-IsVisible fuel (n / 16))
          (hex_digit-IsVisible (n % 16) (omega arith), tt))
]

joined-IsVisible :
    (sep : ℕ) (f : ℕ → Text) (s : List ℕ)
    → IsVisible sep
    → ((n : ℕ) → All IsVisible (f n))
    → All IsVisible (joined sep (map f s))
unfolding joined
joined-IsVisible sep f [] v h = tt
joined-IsVisible sep f (n ∷ []) v h = h n
joined-IsVisible sep f (n ∷ m ∷ s) v h =
    All-append IsVisible (f n) _ (h n) (v, joined-IsVisible sep f (m ∷ s) v h)

fmt_segments-IsVisible : (s : List ℕ) → All IsVisible (fmt_segments s)
unfolding fmt_segments to_hex
fmt_segments-IsVisible s =
    joined-IsVisible b':' to_hex s (omega arith, omega arith) (hex_digits-IsVisible 8)

compressed-IsVisible : (s : List ℕ) (run : Span) → All IsVisible (compressed s run)
unfolding compressed
compressed-IsVisible s run = elim (Bool-cases (ltb 1 run.len)) [
  | inl e ↦
      rw (e, compressed)
        (All-append IsVisible (fmt_segments (take run.start s)) _
          (fmt_segments-IsVisible (take run.start s))
          (ground (arith, fmt_segments-IsVisible (drop (run.start + run.len) s))))
  | inr e ↦ rw (e, compressed) (fmt_segments-IsVisible s)
]

-- A printed address is visible.
pub show_v6-IsVisible : (o : List ℕ) → All IsVisible (show_v6 o)
unfolding show_v6
show_v6-IsVisible o = elim (Bool-cases (is_v4_mapped o)) [
  | inl m ↦
      rw (m, show_v6)
        (All-append IsVisible (codes "::ffff:") _ (ground arith)
          (joined-IsVisible b'.' to_text (drop 12 o) (omega arith, omega arith) to_text-IsVisible))
  | inr m ↦
      rw (m, show_v6)
        (compressed-IsVisible (segments o) (
          longest_zeros 0 (record { start = 0; len = 0 }) (record { start = 0; len = 0 })
            (segments o)))
]

append_ne_nil : (s t : Text) → t ≢ [] → s ++ t ≢ []
append_ne_nil [] t h = h
append_ne_nil (c ∷ s) t h = λ q. cc

to_hex_ne_nil : (n : ℕ) → to_hex n ≢ []
unfolding to_hex
to_hex_ne_nil n = elim (Bool-cases (ltb n 16)) [
  | inl e ↦ rw (e, to_hex, hex_digits) (λ q. cc)
  | inr e ↦
      rw (e, to_hex, hex_digits)
        (append_ne_nil (hex_digits 7 (n / 16)) (hex_digit (n % 16) ∷ []) (λ q. cc))
]

fmt_segments_ne_nil : (n : ℕ) (s : List ℕ) → fmt_segments (n ∷ s) ≢ []
unfolding fmt_segments joined
fmt_segments_ne_nil n [] = to_hex_ne_nil n
fmt_segments_ne_nil n (m ∷ s) = append_ne_nil (to_hex n) _ (λ q. cc)

compressed_ne_nil : (n : ℕ) (s : List ℕ) (run : Span) → compressed (n ∷ s) run ≢ []
unfolding compressed
compressed_ne_nil n s run = elim (Bool-cases (ltb 1 run.len)) [
  | inl e ↦ rw (e, compressed) (append_ne_nil (fmt_segments (take run.start (n ∷ s))) _ (λ q. cc))
  | inr e ↦ rw (e, compressed) (fmt_segments_ne_nil n s)
]

segments_ne_nil : (o : List ℕ) → o ≢ [] → (n : ℕ) × (s : List ℕ) × (segments o ≡ n ∷ s)
unfolding segments
segments_ne_nil [] h = absurd (h refl)
segments_ne_nil (a ∷ []) h = (a, [], refl)
segments_ne_nil (a ∷ b ∷ o) h = (a * 256 + b, segments o, refl)

pub show_v6-ne-nil : (o : List ℕ) → o ≢ [] → show_v6 o ≢ []
unfolding show_v6
show_v6-ne-nil o h = elim (Bool-cases (is_v4_mapped o)) [
  | inl m ↦ rw (m, show_v6) (λ q. cc)
  | inr m ↦
      let (n, s, e) = segments_ne_nil o h in
      rw (m, show_v6)
        (rw e (
          compressed_ne_nil n s (
            longest_zeros 0 (record { start = 0; len = 0 }) (record { start = 0; len = 0 })
              (n ∷ s))))
]
