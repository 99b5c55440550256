-- ===== src/Ui/Json.antt =====
-- The JSON writer, ui/src/json.rs.
pub mod Strings
pub mod Document
use fips_shield.Base.{
  ℕ, zero, suc, ◌+◌, ◌-◌, ◌/◌, ◌%◌, ◌≡◌, refl, Bool, true, false, Option, none, some, List, [], ◌∷◌,
  ◌++◌, ltb, ◌==◌, if◌then◌else◌,
}
use fips_shield.Std.Text.{Text, codes}
use fips_shield.Std.Number.{to_text}

-- `{:x}` of a digit
hex_digit : ℕ → ℕ
hex_digit d = if ltb d 10 then b'0' + d else b'a' + (d - 10)

-- `\u{:04x}` of a C0 control, whose first two digits are zeros
unfoldable pub control : ℕ → Text
unfolding hex_digit
control c = b'\\' ∷ b'u' ∷ b'0' ∷ b'0' ∷ hex_digit (c / 16) ∷ hex_digit (c % 16) ∷ []

-- What `push_str` appends for one character.
unfoldable pub escape : ℕ → Text
unfolding control
escape c =
    if c == b'"'
    then b'\\' ∷ b'"' ∷ []
    else if c == b'\\'
    then b'\\' ∷ b'\\' ∷ []
    else if c == b'\n'
    then b'\\' ∷ b'n' ∷ []
    else if c == b'\r'
    then b'\\' ∷ b'r' ∷ []
    else if c == b'\t'
    then b'\\' ∷ b't' ∷ []
    else if ltb c 0x20
    then control c
    else c ∷ []

push_chars : Text → Text → Text
push_chars out [] = out
push_chars out (c ∷ s) = push_chars (out ++ escape c) s

unfoldable pub push_str : Text → Text → Text
unfolding push_chars escape
push_str out s = push_chars (out ++ (b'"' ∷ [])) s ++ (b'"' ∷ [])

pub record Obj : Type 0 where
  pub buf : Text
  pub first : Bool

-- `Obj::new`
abbrev pub new_obj : Obj
new_obj = record { buf = b'{' ∷ []; first = true }

-- Append the key, and a separator before all but the first.
unfoldable pub key : Text → Obj → Obj
unfolding push_str
key k o = record {
  buf = push_str (if o.first then o.buf else o.buf ++ (b',' ∷ [])) k ++ (b':' ∷ []);
  first = false;
}

-- An already serialised value.
unfoldable pub raw : Text → Text → Obj → Obj
unfolding key
raw k v o = let o' = key k o in record o' { buf = o'.buf ++ v }

unfoldable pub str : Text → Text → Obj → Obj
unfolding key
str k v o = let o' = key k o in record o' { buf = push_str o'.buf v }

unfoldable pub num : Text → ℕ → Obj → Obj
unfolding key to_text
num k v o = let o' = key k o in record o' { buf = o'.buf ++ to_text v }

unfoldable pub bool : Text → Bool → Obj → Obj
unfolding key
bool k v o =
    let o' = key k o in record o' { buf = o'.buf ++ (if v then codes "true" else codes "false") }

-- `done` takes the buffer.
unfoldable pub done : Obj → Text
done o = o.buf ++ (b'}' ∷ [])

-- `i` is the index of the next item.
push_items : ℕ → Text → List Text → Text
push_items i out [] = out
push_items i out (it ∷ items) =
    push_items (i + 1) ((if ltb 0 i then out ++ (b',' ∷ []) else out) ++ it) items

unfoldable pub arr : List Text → Text
unfolding push_items
arr items = push_items 0 (b'[' ∷ []) items ++ (b']' ∷ [])

push_str_items : ℕ → Text → List Text → Text
push_str_items i out [] = out
push_str_items i out (it ∷ items) =
    push_str_items (i + 1) (push_str (if ltb 0 i then out ++ (b',' ∷ []) else out) it) items

unfoldable pub str_arr : List Text → Text
unfolding push_str_items push_str
str_arr items = push_str_items 0 (b'[' ∷ []) items ++ (b']' ∷ [])
