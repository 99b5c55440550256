-- ===== src/Std/Utf8.antt =====
-- UTF-8: `as_bytes`, `from_utf8` and `from_utf8_lossy`.
use fips_shield.Base.{
  ℕ, zero, suc, ◌+◌, ◌-◌, ◌*◌, ◌/◌, ◌%◌, ◌<◌, ◌≡◌, refl, ◌&&◌, Option, none, some, List, [], ◌∷◌,
  ◌++◌, arith, leb, ltb, ◌==◌, if◌then◌else◌, All,
}
use fips_shield.Std.Text.{Text}

abbrev pub Bytes : Type 0
Bytes = List ℕ

encode_char : ℕ → Bytes
encode_char c =
    if ltb c 0x80
    then c ∷ []
    else if ltb c 0x800
    then (0xc0 + c / 64) ∷ (0x80 + c % 64) ∷ []
    else if ltb c 0x10000
    then (0xe0 + c / 4096) ∷ (0x80 + c / 64 % 64) ∷ (0x80 + c % 64) ∷ []
    else (0xf0 + c / 262144) ∷ (0x80 + c / 4096 % 64) ∷ (0x80 + c / 64 % 64) ∷ (0x80 + c % 64) ∷ []

-- `s.as_bytes()`
unfoldable pub as_bytes : Text → Bytes
unfolding encode_char
as_bytes [] = []
as_bytes (c ∷ s) = encode_char c ++ as_bytes s

-- What stands at the front of a sequence of bytes.
pub data Front : Type 0 where
  -- a character, and how many more bytes it takes
  char : ℕ → ℕ → Front
  -- a maximal invalid part, and how many more bytes it takes
  invalid : ℕ → Front

-- The last byte of a character; `more` of its bytes are read already.
last_byte : ℕ → ℕ → Bytes → Front
last_byte c more [] = invalid more
last_byte c more (b ∷ r) =
    if leb 0x80 b && leb b 0xbf then char (c * 64 + (b - 0x80)) (more + 1) else invalid more

-- The byte before the last; for the second byte of a character `lo` and `hi` are narrower.
third_byte : ℕ → ℕ → ℕ → ℕ → Bytes → Front
unfolding last_byte
third_byte c more lo hi [] = invalid more
third_byte c more lo hi (b ∷ r) =
    if leb lo b && leb b hi then last_byte (c * 64 + (b - 0x80)) (more + 1) r else invalid more

second_of_four : ℕ → ℕ → ℕ → Bytes → Front
unfolding third_byte
second_of_four c lo hi [] = invalid 0
second_of_four c lo hi (b ∷ r) =
    if leb lo b && leb b hi then third_byte (c * 64 + (b - 0x80)) 1 0x80 0xbf r else invalid 0

front : ℕ → Bytes → Front
unfolding last_byte third_byte second_of_four
front b r =
    if ltb b 0x80
    then char b 0
    else if ltb b 0xc2
    then invalid 0
    else if ltb b 0xe0
    then last_byte (b - 0xc0) 0 r
    else if b == 0xe0
    then third_byte 0 0 0xa0 0xbf r
    else if b == 0xed
    then third_byte 13 0 0x80 0x9f r
    else if ltb b 0xf0
    then third_byte (b - 0xe0) 0 0x80 0xbf r
    else if b == 0xf0
    then second_of_four 0 0x90 0xbf r
    else if ltb b 0xf4
    then second_of_four (b - 0xf0) 0x80 0xbf r
    else if b == 0xf4
    then second_of_four 4 0x80 0x8f r
    else invalid 0

abbrev replacement : ℕ
replacement = 0xfffd

-- The first argument counts the bytes that the last character still takes.
lossy : ℕ → Bytes → Text
unfolding front
lossy skip [] = []
lossy (suc skip) (b ∷ r) = lossy skip r
lossy zero (b ∷ r) = elim (front b r) [
  | char c more ↦ c ∷ lossy more r
  | invalid more ↦ replacement ∷ lossy more r
]

strict : ℕ → Bytes → Option Text
unfolding front
strict skip [] = some []
strict (suc skip) (b ∷ r) = strict skip r
strict zero (b ∷ r) = elim (front b r) [
  | char c more ↦ elim (strict more r) [ none ↦ none | some s ↦ some (c ∷ s) ]
  | invalid more ↦ none
]

-- `String::from_utf8_lossy(b)`
unfoldable pub from_utf8_lossy : Bytes → Text
unfolding lossy
from_utf8_lossy b = lossy 0 b

-- `String::from_utf8(b).ok()`
unfoldable pub from_utf8 : Bytes → Option Text
unfolding strict
from_utf8 b = strict 0 b

abbrev pub IsAscii : ℕ → Type 0
IsAscii c = c < 0x80

-- ASCII bytes are their own characters.
pub from_utf8_lossy-ascii : (b : Bytes) → All IsAscii b → from_utf8_lossy b ≡ b
unfolding from_utf8_lossy
from_utf8_lossy-ascii [] h = refl
from_utf8_lossy-ascii (c ∷ b) (h, hs) = ground (arith, from_utf8_lossy-ascii b hs)

pub from_utf8-ascii : (b : Bytes) → All IsAscii b → from_utf8 b ≡ some b
unfolding from_utf8
from_utf8-ascii [] h = refl
from_utf8-ascii (c ∷ b) (h, hs) = ground (arith, from_utf8-ascii b hs)

pub as_bytes-ascii : (s : Text) → All IsAscii s → as_bytes s ≡ s
unfolding as_bytes
as_bytes-ascii [] h = refl
as_bytes-ascii (c ∷ s) (h, hs) = ground (arith, as_bytes-ascii s hs)

euro : from_utf8_lossy (0xe2 ∷ 0x82 ∷ 0xac ∷ 0xe2 ∷ 0x82 ∷ b'x' ∷ []) ≡ 0x20ac ∷ 0xfffd ∷ b'x' ∷ []
unfolding from_utf8_lossy
euro = refl
