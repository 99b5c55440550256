-- ===== src/Ui/Json/Document/RoundTrip.antt =====
-- The reader of JSON documents gets back the tree that a text was made from.
use fips_shield.Std.Text.{strip_prefix, Text}
use fips_shield.Base.{
  ℕ, zero, suc, ◌+◌, ◌≤◌, ◌<◌, ◌≡◌, ◌≢◌, refl, Bool, true, false, none, some, [], ◌∷◌, ◌++◌, length,
  length-append, arith, All, append_assoc, append-nil, ◌∙◌,
}
use fips_shield.Std.Number.{to_text, digits, IsDigit, to_text-IsDigit, to_text-ne-nil}
use fips_shield.Std.Number.Decimal.{decimal-to_text, starts_with_zero, starts_with_zero-to_text}
use fips_shield.Ui.Json.Strings.{read_string_lem}
use fips_shield.Ui.Json.Document.{
  Value, string, number, boolean, empty_array, array, empty_object, object, Items, last_item, item,
  Fields, last_field, field, quoted, truth, render, render_items, render_fields, lead, digit,
  is_digit, span_digits, is_number, read_number, read_truth, behind, read_value, read_items,
  read_fields, read_json,
}

-- Not a digit next.
abbrev pub starts_with_digit : Text → Bool
starts_with_digit [] = false
starts_with_digit (c ∷ s) = is_digit c

span_digits_lem :
    (ds rest : Text)
    → All IsDigit ds
    → starts_with_digit rest ≡ false
    → span_digits (ds ++ rest) ≡ (ds, rest)
unfolding span_digits
span_digits_lem [] [] d h = refl
span_digits_lem [] (c ∷ rest) d h = rw (span_digits, h) refl
span_digits_lem (c ∷ ds) rest (p, d) h =
    let q : is_digit c ≡ true = ground arith in
    rw (span_digits, q, span_digits_lem ds rest d h) refl

is_number-nonzero : (s : Text) → starts_with_zero s ≡ false → is_number s ≡ true
unfolding is_number
is_number-nonzero [] h = absurd (ground arith)
is_number-nonzero (c ∷ []) h = refl
is_number-nonzero (c ∷ d ∷ s) h = rw h refl

is_number-to_text : (n : ℕ) → is_number (to_text n) ≡ true
unfolding is_number
is_number-to_text zero = unfold to_text digits in refl
is_number-to_text (suc n) =
    is_number-nonzero (to_text (suc n)) (starts_with_zero-to_text (suc n) (omega arith))

read_number-to_text :
    (n : ℕ) (rest : Text)
    → starts_with_digit rest ≡ false
    → read_number (to_text n ++ rest) ≡ some (number n, rest)
unfolding read_number
read_number-to_text n rest h =
    rw
      (
        span_digits_lem (to_text n) rest (to_text-IsDigit n) h,
        is_number-to_text n,
        decimal-to_text n,
      )
      refl

read_truth_lem : (b : Bool) (rest : Text) → read_truth b (truth b ++ rest) ≡ some (boolean b, rest)
unfolding read_truth strip_prefix
read_truth_lem true rest = refl
read_truth_lem false rest = refl

lead-digit : (c : ℕ) → IsDigit c → lead c ≡ digit
unfolding lead
lead-digit c h = ground arith

-- What follows a number.
read_value-digits :
    (fuel : ℕ) (ds rest : Text)
    → ds ≢ []
    → All IsDigit ds
    → read_value (suc fuel) (ds ++ rest) ≡ read_number (ds ++ rest)
unfolding read_value
read_value-digits fuel [] rest h d = absurd (h refl)
read_value-digits fuel (c ∷ ds) rest h (p, d) = rw (read_value, lead-digit c p) refl

-- No value starts with a closing bracket.
behind-digits : (ds rest : Text) → ds ≢ [] → All IsDigit ds → behind b']' (ds ++ rest) ≡ none
unfolding behind
behind-digits [] rest h d = absurd (h refl)
behind-digits (c ∷ ds) rest h (p, d) = ground arith

-- The fuel that the reader needs.
mutual
  pub size : Value → ℕ
  size (string s) = 1
  size (number n) = 1
  size (boolean b) = 1
  size empty_array = 1
  size (array l) = suc (size_items l)
  size empty_object = 1
  size (object l) = suc (size_fields l)

  pub size_items : Items → ℕ
  size_items (last_item v) = suc (size v)
  size_items (item v l) = suc (size v + size_items l)

  pub size_fields : Fields → ℕ
  size_fields (last_field k v) = suc (size v)
  size_fields (field k v l) = suc (size v + size_fields l)

size_pos : (v : Value) → 0 < size v
unfolding size
size_pos (string s) = omega arith
size_pos (number n) = omega arith
size_pos (boolean b) = omega arith
size_pos empty_array = omega arith
size_pos (array l) = omega arith
size_pos empty_object = omega arith
size_pos (object l) = omega arith

size_items_pos : (l : Items) → 0 < size_items l
unfolding size
size_items_pos (last_item v) = omega arith
size_items_pos (item v l) = omega arith

size_fields_pos : (l : Fields) → 0 < size_fields l
unfolding size
size_fields_pos (last_field k v) = omega arith
size_fields_pos (field k v l) = omega arith

no_bracket : (v : Value) (rest : Text) → behind b']' (render v ++ rest) ≡ none
unfolding render behind
no_bracket (string s) rest = refl
no_bracket (number n) rest = behind-digits (to_text n) rest (to_text-ne-nil n) (to_text-IsDigit n)
no_bracket (boolean true) rest = refl
no_bracket (boolean false) rest = refl
no_bracket empty_array rest = refl
no_bracket (array l) rest = refl
no_bracket empty_object rest = refl
no_bracket (object l) rest = refl

no_bracket_items : (l : Items) (rest : Text) → behind b']' (render_items l ++ rest) ≡ none
unfolding render
no_bracket_items (last_item v) rest = rw append_assoc (no_bracket v _)
no_bracket_items (item v l) rest = rw append_assoc (no_bracket v _)

no_brace : (l : Fields) (rest : Text) → behind b'}' (render_fields l ++ rest) ≡ none
unfolding render behind
no_brace (last_field k v) rest = refl
no_brace (field k v l) rest = refl

mutual
  unfolding render size read_value behind

  read_value-render :
      (v : Value) (fuel : ℕ) (rest : Text)
      → size v ≤ fuel
      → starts_with_digit rest ≡ false
      → read_value fuel (render v ++ rest) ≡ some (v, rest)
  read_value-render v zero rest h d = absurd (omega (arith, size_pos v))
  read_value-render (string s) (suc fuel) rest h d = rw (read_value, read_string_lem s rest) refl
  read_value-render (number n) (suc fuel) rest h d =
      read_value-digits fuel (to_text n) rest (to_text-ne-nil n) (to_text-IsDigit n)
      ∙ read_number-to_text n rest d
  read_value-render (boolean true) (suc fuel) rest h d = read_truth_lem true rest
  read_value-render (boolean false) (suc fuel) rest h d = read_truth_lem false rest
  read_value-render empty_array (suc fuel) rest h d = refl
  read_value-render (array l) (suc fuel) rest h d =
      rw (read_value, no_bracket_items l rest, read_items-render l fuel rest (omega arith)) refl
  read_value-render empty_object (suc fuel) rest h d = refl
  read_value-render (object l) (suc fuel) rest h d =
      rw (read_value, no_brace l rest, read_fields-render l fuel rest (omega arith)) refl

  read_items-render :
      (l : Items) (fuel : ℕ) (rest : Text)
      → size_items l ≤ fuel
      → read_items fuel (render_items l ++ rest) ≡ some (l, rest)
  read_items-render l zero rest h = absurd (omega (arith, size_items_pos l))
  read_items-render (last_item v) (suc fuel) rest h =
      rw
        (
          append_assoc (render v) (b']' ∷ []) rest,
          read_value-render v fuel (b']' ∷ rest) (omega arith) refl,
        )
        refl
  read_items-render (item v l) (suc fuel) rest h =
      rw
        (
          append_assoc (render v) (b',' ∷ render_items l) rest,
          read_value-render v fuel (b',' ∷ (render_items l ++ rest)) (omega arith) refl,
          read_items-render l fuel rest (omega arith),
        )
        refl

  read_fields-render :
      (l : Fields) (fuel : ℕ) (rest : Text)
      → size_fields l ≤ fuel
      → read_fields fuel (render_fields l ++ rest) ≡ some (l, rest)
  read_fields-render l zero rest h = absurd (omega (arith, size_fields_pos l))
  read_fields-render (last_field k v) (suc fuel) rest h =
      rw
        (
          read_fields,
          append_assoc (quoted k) (b':' ∷ (render v ++ (b'}' ∷ []))) rest,
          read_string_lem k (b':' ∷ ((render v ++ (b'}' ∷ [])) ++ rest)),
          append_assoc (render v) (b'}' ∷ []) rest,
          read_value-render v fuel (b'}' ∷ rest) (omega arith) refl,
        )
        refl
  read_fields-render (field k v l) (suc fuel) rest h =
      rw
        (
          read_fields,
          append_assoc (quoted k) (b':' ∷ (render v ++ (b',' ∷ render_fields l))) rest,
          read_string_lem k (b':' ∷ ((render v ++ (b',' ∷ render_fields l)) ++ rest)),
          append_assoc (render v) (b',' ∷ render_fields l) rest,
          read_value-render v fuel (b',' ∷ (render_fields l ++ rest)) (omega arith) refl,
          read_fields-render l fuel rest (omega arith),
        )
        refl

nonempty : (s : Text) → s ≢ [] → 1 ≤ length s
nonempty [] h = absurd (h refl)
nonempty (c ∷ s) h = omega arith

mutual
  unfolding render size

  size-le : (v : Value) → size v ≤ length (render v)
  size-le (string s) = omega arith
  size-le (number n) = nonempty (to_text n) (to_text-ne-nil n)
  size-le (boolean true) = omega arith
  size-le (boolean false) = omega arith
  size-le empty_array = omega arith
  size-le (array l) = omega (arith, size_items-le l)
  size-le empty_object = omega arith
  size-le (object l) = omega (arith, size_fields-le l)

  size_items-le : (l : Items) → size_items l ≤ length (render_items l)
  size_items-le (last_item v) = omega (arith, size-le v, length-append (render v) (b']' ∷ []))
  size_items-le (item v l) =
      omega (arith, size-le v, size_items-le l, length-append (render v) (b',' ∷ render_items l))

  size_fields-le : (l : Fields) → size_fields l ≤ length (render_fields l)
  size_fields-le (last_field k v) = omega (
    arith,
    size-le v,
    length-append (render v) (b'}' ∷ []),
    length-append (quoted k) (b':' ∷ (render v ++ (b'}' ∷ []))),
  )
  size_fields-le (field k v l) = omega (
    arith,
    size-le v,
    size_fields-le l,
    length-append (render v) (b',' ∷ render_fields l),
    length-append (quoted k) (b':' ∷ (render v ++ (b',' ∷ render_fields l))),
  )

-- The text of a document reads back as that document: the length of the text is enough fuel.
pub read_json-render : (v : Value) → read_json (render v) ≡ some v
unfolding read_json
read_json-render v =
    let e : read_value (length (render v)) (render v) ≡ some (v, []) =
      rw append-nil at (read_value-render v (length (render v)) [] (size-le v) refl) in
    rw (read_json, e) refl
