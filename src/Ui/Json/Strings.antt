-- ===== src/Ui/Json/Strings.antt =====
-- Reading back what ui/src/json.rs writes as a string.
use fips_shield.Base.{
  ℕ, zero, suc, ◌+◌, ◌-◌, ◌*◌, ◌≤◌, ◌≡◌, refl, ◌&&◌, Option, none, some, [], ◌∷◌, ◌++◌, ltb, leb,
  ◌==◌, if◌then◌else◌, arith, append_assoc, append-nil, All, All-append, ◌∙◌,
}
use fips_shield.Std.Text.{Text}
use fips_shield.Ui.Json.{escape, push_chars, push_str}

-- The value of a hexadecimal digit.
hex_value : ℕ → Option ℕ
hex_value c =
    if leb b'0' c && leb c b'9'
    then some (c - b'0')
    else if leb b'a' c && leb c b'f'
    then some (c - b'a' + 10)
    else if leb b'A' c && leb c b'F'
    then some (c - b'A' + 10)
    else none

-- Where a reader of a JSON string stands: in plain text, behind a backslash, or in the four
-- digits of a `\u` escape, with the digits that are still to come and the value so far.
pub data Mode : Type 0 where
  plain escaped : Mode
  digits : ℕ → ℕ → Mode

-- The character of a one-letter escape.
short_escape : ℕ → Option ℕ
short_escape c =
    if c == b'"'
    then some b'"'
    else if c == b'\\'
    then some b'\\'
    else if c == b'/'
    then some b'/'
    else if c == b'b'
    then some 8
    else if c == b'f'
    then some 12
    else if c == b'n'
    then some b'\n'
    else if c == b'r'
    then some b'\r'
    else if c == b't'
    then some b'\t'
    else none

push : ℕ → Option (Text × Text) → Option (Text × Text)
push c none = none
push c (some (s, rest)) = some (c ∷ s, rest)

-- The characters of a string up to its closing quote, and what follows the quote, by the grammar
-- of RFC 8259: no control stands unescaped, and no unknown escape is taken. A surrogate is read
-- as a character of its own; the writer emits none.
read_chars : Mode → Text → Option (Text × Text)
unfolding hex_value short_escape push
read_chars m [] = none
read_chars plain (c ∷ r) =
    let more = push c (read_chars plain r) in
    let esc = read_chars escaped r in
    if c == b'"'
    then some ([], r)
    else if c == b'\\'
    then esc
    else if ltb c 0x20
    then none
    else more
read_chars escaped (c ∷ r) =
    let more = read_chars plain r in
    let hex = read_chars (digits 4 0) r in
    if c == b'u' then hex else elim (short_escape c) [ none ↦ none | some d ↦ push d more ]
read_chars (digits zero v) (c ∷ r) = none
read_chars (digits (suc zero) v) (c ∷ r) =
    let more = read_chars plain r in
    elim (hex_value c) [ none ↦ none | some d ↦ push (v * 16 + d) more ]
read_chars (digits (suc (suc n)) v) (c ∷ r) = elim (hex_value c) [
  | none ↦ none
  | some d ↦ read_chars (digits (suc n) (v * 16 + d)) r
]

-- A JSON string at the front of a text.
unfoldable pub read_string : Text → Option (Text × Text)
unfolding read_chars
read_string [] = none
read_string (c ∷ r) = let s = read_chars plain r in if c == b'"' then s else none

pub escaped_all : Text → Text
escaped_all [] = []
escaped_all (c ∷ s) = escape c ++ escaped_all s

push_chars-escaped_all : (out s : Text) → push_chars out s ≡ out ++ escaped_all s
unfolding push_chars escaped_all
push_chars-escaped_all out [] = rw append-nil
push_chars-escaped_all out (c ∷ s) =
    push_chars-escaped_all (out ++ escape c) s ∙ append_assoc out (escape c) (escaped_all s)

pub push_str_lem : (out s : Text) → push_str out s ≡ out ++ (b'"' ∷ (escaped_all s ++ (b'"' ∷ [])))
unfolding push_str
push_str_lem out s = rw push_chars-escaped_all (simp append_assoc)

read-escape : (c : ℕ) (r : Text) → read_chars plain (escape c ++ r) ≡ push c (read_chars plain r)
unfolding read_chars escape
read-escape c r = ground arith

read-escaped_all :
    (s rest : Text) → read_chars plain (escaped_all s ++ (b'"' ∷ rest)) ≡ some (s, rest)
unfolding escaped_all
read-escaped_all [] rest = unfold read_chars in refl
read-escaped_all (c ∷ s) rest =
    rw append_assoc (read-escape c _ ∙ rw (read-escaped_all s rest) (unfold push in refl))

pub read_string_lem :
    (s rest : Text) → read_string ((b'"' ∷ (escaped_all s ++ (b'"' ∷ []))) ++ rest) ≡ some (s, rest)
unfolding read_string
read_string_lem s rest = rw append_assoc (read-escaped_all s rest)

-- `push_str` appends one JSON string, from which a reader of the grammar gets back the very text
-- that was pushed and stops where that string ends, whatever characters the text holds and
-- whatever follows.
pub read_string-push_str :
    (out s rest : Text)
    → (lit : Text) × (push_str out s ≡ out ++ lit) × (read_string (lit ++ rest) ≡ some (s, rest))
read_string-push_str out s rest =
    (b'"' ∷ (escaped_all s ++ (b'"' ∷ [])), push_str_lem out s, read_string_lem s rest)

escape_visible : (c : ℕ) → All (λ d. 0x20 ≤ d) (escape c)
unfolding escape
escape_visible c = ground arith

escaped_all_visible : (s : Text) → All (λ d. 0x20 ≤ d) (escaped_all s)
unfolding escaped_all
escaped_all_visible [] = tt
escaped_all_visible (c ∷ s) =
    All-append (λ d. 0x20 ≤ d) (escape c) (escaped_all s) (escape_visible c) (escaped_all_visible s)

-- What `push_str` appends holds no control character, so no line break either.
pub push_str-visible :
    (out s : Text) → (lit : Text) × (push_str out s ≡ out ++ lit) × All (λ c. 0x20 ≤ c) lit
push_str-visible out s = (
  b'"' ∷ (escaped_all s ++ (b'"' ∷ [])),
  push_str_lem out s,
  (
    omega arith,
    All-append (λ d. 0x20 ≤ d) (escaped_all s) (b'"' ∷ []) (escaped_all_visible s) (omega arith),
  ),
)
