-- ===== src/Ui/Http/Client.antt =====
-- A client of the server of ui/src/http.rs, which reads a response line by line.
use fips_shield.Base.{
  ℕ, zero, suc, ◌<◌, ◌≡◌, refl, Bool, true, false, ◌&&◌, Option, none, some, List, [], ◌∷◌, ◌++◌,
  leb, ltb, ◌==◌, if◌then◌else◌, length, All, All-append, append_assoc, arith, ◌∙◌, ap,
}
use fips_shield.Std.Text.{Text, codes, strip_prefix}
use fips_shield.Std.Number.{IsDigit}
use fips_shield.Std.Number.Decimal.{decimal}
use fips_shield.Std.Utf8.{Bytes, IsAscii}

-- A line and what follows it: lines end with CR and LF.
unfoldable pub until_crlf : Bytes → Option (Bytes × Bytes)
until_crlf [] = none
until_crlf (c ∷ []) = none
until_crlf (c ∷ d ∷ s) =
    let more = until_crlf (d ∷ s) in
    if c == b'\r' && d == b'\n'
    then some ([], s)
    else elim more [ none ↦ none | some (l, r) ↦ some (c ∷ l, r) ]

-- The lines up to the first empty one, and what follows; so many lines at most.
unfoldable pub read_head : ℕ → Bytes → Option (List Bytes × Bytes)
read_head zero s = none
read_head (suc fuel) s = elim (until_crlf s) [
  | none ↦ none
  | some (l, r) ↦ elim l [
    | [] ↦ some ([], r)
    | c ∷ t ↦ elim (read_head fuel r) [ none ↦ none | some (ls, rest) ↦ some ((c ∷ t) ∷ ls, rest) ]
  ]
]

-- The value of the first `Content-Length` header.
unfoldable pub content_length : List Bytes → Option ℕ
unfolding strip_prefix decimal
content_length [] = none
content_length (h ∷ hs) = elim (strip_prefix h (codes "Content-Length: ")) [
  | some value ↦ some (decimal 0 value)
  | none ↦ content_length hs
]

-- The status line, the headers and the body of a response that is as long as it says.
unfoldable pub read_response : ℕ → Bytes → Option (Bytes × List Bytes × Bytes)
read_response fuel s = elim (read_head fuel s) [
  | none ↦ none
  | some (ls, rest) ↦ elim ls [
    | [] ↦ none
    | status ∷ headers ↦ elim (content_length headers) [
      | none ↦ none
      | some n ↦ if n == length rest then some (status, headers, rest) else none
    ]
  ]
]

-- Printable ASCII, so no line break.
unfoldable pub is_plain : Text → Bool
is_plain [] = true
is_plain (c ∷ s) = leb 0x20 c && ltb c 0x7f && is_plain s

pub is_plain-append :
    (s t : Text) → is_plain s ≡ true → is_plain t ≡ true → is_plain (s ++ t) ≡ true
unfolding is_plain
is_plain-append [] t h k = k
is_plain-append (c ∷ s) t h k = ground (arith, is_plain-append s t)

pub is_plain-digits : (s : Text) → All IsDigit s → is_plain s ≡ true
unfolding is_plain
is_plain-digits [] h = refl
is_plain-digits (c ∷ s) (p, h) = ground (arith, is_plain-digits s h)

until_crlf-plain :
    (l rest : Text) → is_plain l ≡ true → until_crlf (l ++ (b'\r' ∷ b'\n' ∷ rest)) ≡ some (l, rest)
unfolding until_crlf is_plain
until_crlf-plain [] rest h = refl
until_crlf-plain (c ∷ []) rest h = ground arith
until_crlf-plain (c ∷ d ∷ l) rest h =
    let e : (c == b'\r') ≡ false = ground arith in
    rw (until_crlf, e, until_crlf-plain (d ∷ l) rest (ground arith)) refl

-- A line that does not end the head.
abbrev pub is_line : Text → Bool
is_line [] = false
is_line (c ∷ s) = is_plain (c ∷ s)

abbrev pub AreLines : List Text → Type 0
AreLines ls = All (λ l. is_line l ≡ true) ls

unfoldable pub joined : List Text → Text
joined [] = []
joined (l ∷ ls) = l ++ (b'\r' ∷ b'\n' ∷ joined ls)

pub read_head-joined :
    (ls : List Text) (fuel : ℕ) (rest : Bytes)
    → AreLines ls
    → length ls < fuel
    → read_head fuel (joined ls ++ (b'\r' ∷ b'\n' ∷ rest)) ≡ some (ls, rest)
unfolding read_head joined until_crlf
read_head-joined ls zero rest h n = absurd (omega arith)
read_head-joined [] (suc fuel) rest h n = refl
read_head-joined ([] ∷ ls) (suc fuel) rest (h, hs) n = absurd (ground arith)
read_head-joined ((c ∷ l) ∷ ls) (suc fuel) rest (h, hs) n =
    ap (read_head (suc fuel))
      (append_assoc (c ∷ l) (b'\r' ∷ b'\n' ∷ joined ls) (b'\r' ∷ b'\n' ∷ rest))
    ∙ rw
        (
          read_head,
          until_crlf-plain (c ∷ l) (joined ls ++ (b'\r' ∷ b'\n' ∷ rest)) h,
          read_head-joined ls fuel rest hs (omega arith),
        )
        refl

pub is_plain-IsAscii : (s : Text) → is_plain s ≡ true → All IsAscii s
unfolding is_plain
is_plain-IsAscii [] h = tt
is_plain-IsAscii (c ∷ s) h = (ground arith, is_plain-IsAscii s (ground arith))

pub joined-IsAscii : (ls : List Text) → AreLines ls → All IsAscii (joined ls)
unfolding joined
joined-IsAscii [] h = tt
joined-IsAscii ([] ∷ ls) (h, hs) = absurd (ground arith)
joined-IsAscii ((c ∷ l) ∷ ls) (h, hs) =
    All-append IsAscii (c ∷ l) (b'\r' ∷ b'\n' ∷ joined ls) (is_plain-IsAscii (c ∷ l) h)
      (omega arith, (omega arith, joined-IsAscii ls hs))
