-- ===== src/Ui/Json/Document.antt =====
-- JSON documents as a tree, the text that stands for each, and a reader for them, by the grammar of
-- RFC 8259 as far as ui/src/json.rs uses it: no blanks between tokens, numbers without sign,
-- fraction or exponent, no `null`.
pub mod RoundTrip
pub mod Writing
use fips_shield.Base.{
  ℕ, zero, suc, ◌+◌, ◌-◌, ◌*◌, ◌≡◌, refl, Bool, true, false, ◌&&◌, Option, none, some, List, [],
  ◌∷◌, ◌++◌, ltb, leb, ◌==◌, if◌then◌else◌, length,
}
use fips_shield.Std.Text.{Text, codes, strip_prefix}
use fips_shield.Std.Number.{to_text}
use fips_shield.Std.Number.Decimal.{decimal}
use fips_shield.Ui.Json.Strings.{escaped_all, read_string}

mutual
  pub data Value : Type 0 where
    string : Text → Value
    number : ℕ → Value
    boolean : Bool → Value
    empty_array : Value
    array : Items → Value
    empty_object : Value
    object : Fields → Value

  pub data Items : Type 0 where
    last_item : Value → Items
    item : Value → Items → Items

  pub data Fields : Type 0 where
    last_field : Text → Value → Fields
    field : Text → Value → Fields → Fields

abbrev pub quoted : Text → Text
quoted s = b'"' ∷ (escaped_all s ++ (b'"' ∷ []))

abbrev pub truth : Bool → Text
truth b = if b then codes "true" else codes "false"

unfoldable mutual
  pub render : Value → Text
  render (string s) = quoted s
  render (number n) = to_text n
  render (boolean b) = truth b
  render empty_array = b'[' ∷ b']' ∷ []
  render (array l) = b'[' ∷ render_items l
  render empty_object = b'{' ∷ b'}' ∷ []
  render (object l) = b'{' ∷ render_fields l

  pub render_items : Items → Text
  render_items (last_item v) = render v ++ (b']' ∷ [])
  render_items (item v l) = render v ++ (b',' ∷ render_items l)

  pub render_fields : Fields → Text
  render_fields (last_field k v) = quoted k ++ (b':' ∷ (render v ++ (b'}' ∷ [])))
  render_fields (field k v l) = quoted k ++ (b':' ∷ (render v ++ (b',' ∷ render_fields l)))

-- What the first character of a value says.
pub data Lead : Type 0 where
  quote bracket brace digit letter_t letter_f other : Lead

abbrev pub is_digit : ℕ → Bool
is_digit c = leb b'0' c && leb c b'9'

unfoldable pub lead : ℕ → Lead
lead c =
    if c == b'"'
    then quote
    else if c == b'['
    then bracket
    else if c == b'{'
    then brace
    else if is_digit c
    then digit
    else if c == b't'
    then letter_t
    else if c == b'f'
    then letter_f
    else other

-- The digits at the front of a text, and what follows.
unfoldable pub span_digits : Text → Text × Text
span_digits [] = ([], [])
span_digits (c ∷ s) =
    let (ds, rest) = span_digits s in if is_digit c then (c ∷ ds, rest) else ([], c ∷ s)

-- Digits that a number may have: not none, and no leading zero but in `0`.
unfoldable pub is_number : Text → Bool
is_number [] = false
is_number (c ∷ []) = true
is_number (c ∷ d ∷ s) = if c == b'0' then false else true

unfoldable pub read_number : Text → Option (Value × Text)
unfolding span_digits decimal is_number
read_number s =
    let (ds, rest) = span_digits s in
    if is_number ds then some (number (decimal 0 ds), rest) else none

unfoldable pub read_truth : Bool → Text → Option (Value × Text)
unfolding strip_prefix
read_truth b s = elim (strip_prefix s (truth b)) [
  | none ↦ none
  | some rest ↦ some (boolean b, rest)
]

-- The text behind this character, if it comes first.
unfoldable pub behind : ℕ → Text → Option Text
behind c [] = none
behind c (d ∷ s) = if d == c then some s else none

-- The fuel goes down with each call.
unfoldable mutual
  unfolding lead read_number read_truth behind

  pub read_value : ℕ → Text → Option (Value × Text)
  read_value zero s = none
  read_value (suc fuel) [] = none
  read_value (suc fuel) (c ∷ s) = elim (lead c) [
    | quote ↦ elim (read_string (c ∷ s)) [
      | none ↦ none
      | some (text, rest) ↦ some (string text, rest)
    ]
    | bracket ↦ elim (behind b']' s) [
      | some rest ↦ some (empty_array, rest)
      | none ↦ elim (read_items fuel s) [ none ↦ none | some (l, rest) ↦ some (array l, rest) ]
    ]
    | brace ↦ elim (behind b'}' s) [
      | some rest ↦ some (empty_object, rest)
      | none ↦ elim (read_fields fuel s) [ none ↦ none | some (l, rest) ↦ some (object l, rest) ]
    ]
    | digit ↦ read_number (c ∷ s)
    | letter_t ↦ read_truth true (c ∷ s)
    | letter_f ↦ read_truth false (c ∷ s)
    | other ↦ none
  ]

  pub read_items : ℕ → Text → Option (Items × Text)
  read_items zero s = none
  read_items (suc fuel) s = elim (read_value fuel s) [
    | none ↦ none
    | some (v, rest) ↦ elim (behind b']' rest) [
      | some more ↦ some (last_item v, more)
      | none ↦ elim (behind b',' rest) [
        | none ↦ none
        | some more ↦ elim (read_items fuel more) [
          | none ↦ none
          | some (l, end) ↦ some (item v l, end)
        ]
      ]
    ]
  ]

  pub read_fields : ℕ → Text → Option (Fields × Text)
  read_fields zero s = none
  read_fields (suc fuel) s = elim (read_string s) [
    | none ↦ none
    | some (k, colon) ↦ elim (behind b':' colon) [
      | none ↦ none
      | some at_value ↦ elim (read_value fuel at_value) [
        | none ↦ none
        | some (v, rest) ↦ elim (behind b'}' rest) [
          | some more ↦ some (last_field k v, more)
          | none ↦ elim (behind b',' rest) [
            | none ↦ none
            | some more ↦ elim (read_fields fuel more) [
              | none ↦ none
              | some (l, end) ↦ some (field k v l, end)
            ]
          ]
        ]
      ]
    ]
  ]

-- The whole of a text is one document: the fuel is its length.
unfoldable pub read_json : Text → Option Value
unfolding read_value
read_json s = elim (read_value (length s) s) [
  | none ↦ none
  | some (v, rest) ↦ elim rest [ [] ↦ some v | c ∷ more ↦ none ]
]
