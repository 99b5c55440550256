-- ===== src/Ui/Http/Decode.antt =====
-- Percent decoding (`percent_decode` of ui/src/http.rs) against percent encoding.
use fips_shield.Base.{
  Bool-cases, inr, inl, Option-cases, ℕ, zero, suc, ◌+◌, ◌-◌, ◌/◌, ◌%◌, ◌≤◌, ◌<◌, ◌≡◌, refl, Bool,
  true, false, ◌&&◌, Option, none, some, [], ◌∷◌, ◌++◌, ltb, ◌==◌, if◌then◌else◌, arith, append-nil,
  All, ◌∙◌, sym, ap, length,
}
use fips_shield.Std.Utf8.{Bytes, from_utf8_lossy, as_bytes-ascii, IsAscii}
use fips_shield.Ui.Http.{hex_byte, decode_bytes, percent_decode}

-- RFC 3986: the two digits of a byte, in capitals.
unfoldable pub hex_digit : ℕ → ℕ
hex_digit d = if ltb d 10 then b'0' + d else b'A' + (d - 10)

-- Every byte as an escape.
unfoldable pub percent_encode : Bytes → Bytes
unfolding hex_digit
percent_encode [] = []
percent_encode (b ∷ bs) = b'%' ∷ hex_digit (b / 16) ∷ hex_digit (b % 16) ∷ percent_encode bs

abbrev pub IsByte : ℕ → Type 0
IsByte b = b < 256

-- Whether a decoder gives every number below a bound for itself.
gives_each : (ℕ → Option ℕ) → ℕ → Bool
gives_each decoder zero = true
gives_each decoder (suc d) =
    let lower = gives_each decoder d in
    elim (decoder d) [ none ↦ false | some e ↦ (e == d) && lower ]

gives_each_lem :
    (decoder : ℕ → Option ℕ) (bound d : ℕ)
    → d < bound
    → gives_each decoder bound ≡ true
    → decoder d ≡ some d
unfolding gives_each
gives_each_lem decoder zero d below h = absurd (omega arith)
gives_each_lem decoder (suc b) d below h = elim (Option-cases (decoder b)) [
  | inl n ↦ absurd (ground arith)
  | inr (e, f) ↦ elim (Bool-cases (d == b)) [
    | inl same ↦ let at_b : d ≡ b = ground arith in rw at_b (f ∙ ground arith)
    | inr differs ↦ gives_each_lem decoder b d (ground arith) (ground arith)
  ]
]

byte_table : gives_each (λ b. hex_byte (hex_digit (b / 16)) (hex_digit (b % 16))) 256 ≡ true
unfolding gives_each hex_byte hex_digit
byte_table = refl

pub hex_byte_lem : (b : ℕ) → b < 256 → hex_byte (hex_digit (b / 16)) (hex_digit (b % 16)) ≡ some b
hex_byte_lem b h =
    gives_each_lem (λ b. hex_byte (hex_digit (b / 16)) (hex_digit (b % 16))) 256 b h byte_table

sign_table : gives_each (λ d. hex_byte b'+' (hex_digit d)) 16 ≡ true
unfolding gives_each hex_byte hex_digit
sign_table = refl

decode-encode :
    (bs rest : Bytes)
    → All IsByte bs
    → decode_bytes (percent_encode bs ++ rest) ≡ bs ++ decode_bytes rest
unfolding decode_bytes percent_encode
decode-encode [] rest h = refl
decode-encode (b ∷ bs) rest (h, hs) =
    rw (hex_byte_lem b h) (ap (λ t. b ∷ t) (decode-encode bs rest hs))

hex_digit-IsAscii : (d : ℕ) → d < 16 → IsAscii (hex_digit d)
unfolding hex_digit
hex_digit-IsAscii d h = ground arith

percent_encode-IsAscii : (bs : Bytes) → All IsByte bs → All IsAscii (percent_encode bs)
unfolding percent_encode
percent_encode-IsAscii [] h = tt
percent_encode-IsAscii (b ∷ bs) (h, hs) = (
  omega arith,
  (
    hex_digit-IsAscii (b / 16) (omega arith),
    (hex_digit-IsAscii (b % 16) (omega arith), percent_encode-IsAscii bs hs),
  ),
)

decode-All : (bs : Bytes) → All IsByte bs → decode_bytes (percent_encode bs) ≡ bs
unfolding decode_bytes
decode-All bs h =
    ap decode_bytes (sym (append-nil (percent_encode bs))) ∙ decode-encode bs [] h ∙ append-nil bs

-- Decoding a text of escapes gives the text that the escaped bytes spell, whatever bytes they are.
pub percent_decode-percent_encode :
    (bs : Bytes) → All IsByte bs → percent_decode (percent_encode bs) ≡ from_utf8_lossy bs
unfolding percent_decode
percent_decode-percent_encode bs h =
    rw (as_bytes-ascii (percent_encode bs) (percent_encode-IsAscii bs h))
      (ap from_utf8_lossy (decode-All bs h))

-- A decoded text never has more bytes than the text.
pub length-decode_bytes : (b : Bytes) → length (decode_bytes b) ≤ length b
unfolding decode_bytes
length-decode_bytes [] = omega arith
length-decode_bytes (c ∷ []) = omega arith
length-decode_bytes (c ∷ d ∷ []) = omega (arith, length-decode_bytes (d ∷ []))
length-decode_bytes (c ∷ d ∷ e ∷ r) =
    ground (arith, length-decode_bytes (d ∷ e ∷ r), length-decode_bytes r)

-- A percent sign, a plus sign and one hexadecimal digit is no escape, and is decoded all the same,
-- to the byte with the digit's value.
pub decode_bytes_signed :
    (d : ℕ) (rest : Bytes)
    → d < 16
    → decode_bytes (b'%' ∷ b'+' ∷ hex_digit d ∷ rest) ≡ d ∷ decode_bytes rest
unfolding decode_bytes
decode_bytes_signed d rest h =
    rw (gives_each_lem (λ e. hex_byte b'+' (hex_digit e)) 16 d h sign_table)
