-- ===== src/Ui/Json/Document/Writing.antt =====
-- What the writer of ui/src/json.rs makes: the text of a document.
use fips_shield.Base.{
  ℕ, ◌+◌, ◌≡◌, ◌<◌, refl, Bool, true, false, List, [], ◌∷◌, ◌++◌, map, arith, append_assoc,
  append-nil, sym, ◌∙◌, ap, if◌then◌else◌, ltb,
}
use fips_shield.Std.Text.{Text}
use fips_shield.Ui.Json.{
  Obj, new_obj, key, str, num, bool, raw, done, arr, str_arr, push_items, push_str_items, push_str,
}
use fips_shield.Ui.Json.Strings.{push_str_lem}
use fips_shield.Ui.Json.Document.{
  Value, string, number, boolean, empty_array, array, empty_object, object, Items, last_item, item,
  Fields, last_field, field, quoted, render, render_items, render_fields,
}

-- The items of an array with at least one.
items_of : Value → List Value → Items
items_of v [] = last_item v
items_of v (u ∷ l) = item v (items_of u l)

-- An array of these values.
unfoldable pub array_of : List Value → Value
unfolding items_of
array_of [] = empty_array
array_of (v ∷ l) = array (items_of v l)

fields_of : Text × Value → List (Text × Value) → Fields
fields_of (k, v) [] = last_field k v
fields_of (k, v) (f ∷ l) = field k v (fields_of f l)

-- An object with these fields.
unfoldable pub object_of : List (Text × Value) → Value
unfolding fields_of
object_of [] = empty_object
object_of (f ∷ l) = object (fields_of f l)

-- The items behind the first.
more_items : List Value → Text
more_items [] = []
more_items (v ∷ l) = b',' ∷ (render v ++ more_items l)

render-items_of :
    (v : Value) (l : List Value)
    → render_items (items_of v l) ≡ render v ++ (more_items l ++ (b']' ∷ []))
unfolding render items_of more_items
render-items_of v [] = refl
render-items_of v (u ∷ l) = rw (render-items_of u l, append_assoc) refl

push_items_lem :
    (i : ℕ) (out : Text) (l : List Value)
    → 0 < i
    → push_items i out (map render l) ≡ out ++ more_items l
unfolding push_items more_items
push_items_lem i out [] p = sym (append-nil out)
push_items_lem i out (v ∷ l) p =
    let e : ltb 0 i ≡ true = ground arith in
    rw (push_items, e)
      (push_items_lem (i + 1) ((out ++ (b',' ∷ [])) ++ render v) l (omega arith)
        ∙ simp append_assoc)

-- `arr` of texts of documents is the text of their array.
pub arr-render : (l : List Value) → arr (map render l) ≡ render (array_of l)
unfolding arr array_of render push_items
arr-render [] = refl
arr-render (v ∷ l) =
    rw (push_items_lem (0 + 1) ((b'[' ∷ []) ++ render v) l (omega arith), render-items_of v l)
      (simp append_assoc)

push_str_items_lem :
    (i : ℕ) (out : Text) (l : List Text)
    → push_str_items i out l ≡ push_items i out (map render (map string l))
unfolding push_str_items push_items render
push_str_items_lem i out [] = refl
push_str_items_lem i out (s ∷ l) =
    let sep = if ltb 0 i then out ++ (b',' ∷ []) else out in
    push_str_items_lem (i + 1) (push_str sep s) l
    ∙ ap (λ t. push_items (i + 1) t (map render (map string l))) (push_str_lem sep s)

-- `str_arr` is the text of the array of the strings.
pub str_arr-render : (l : List Text) → str_arr l ≡ render (array_of (map string l))
unfolding str_arr arr
str_arr-render l =
    ap (λ t. t ++ (b']' ∷ [])) (push_str_items_lem 0 (b'[' ∷ []) l) ∙ arr-render (map string l)

entry : Text × Value → Text
entry (k, v) = quoted k ++ (b':' ∷ render v)

more_fields : List (Text × Value) → Text
more_fields [] = []
more_fields (f ∷ l) = b',' ∷ (entry f ++ more_fields l)

fields_text : List (Text × Value) → Text
unfolding more_fields
fields_text [] = []
fields_text (f ∷ l) = entry f ++ more_fields l

abbrev is_empty : List (Text × Value) → Bool
is_empty [] = true
is_empty (f ∷ l) = false

-- An object that holds these fields so far.
pub obj_of : List (Text × Value) → Obj
unfolding fields_text
obj_of l = record { buf = b'{' ∷ fields_text l; first = is_empty l }

new-obj_of : new_obj ≡ obj_of []
unfolding obj_of fields_text
new-obj_of = refl

more_fields-last :
    (l : List (Text × Value)) (f : Text × Value)
    → more_fields (l ++ (f ∷ [])) ≡ more_fields l ++ (b',' ∷ entry f)
unfolding more_fields
more_fields-last [] f = rw append-nil refl
more_fields-last (g ∷ l) f = rw (more_fields-last l f, append_assoc) refl

-- Each operation of the writer adds a field.
raw-obj_of :
    (k : Text) (v : Value) (l : List (Text × Value))
    → raw k (render v) (obj_of l) ≡ obj_of (l ++ ((k, v) ∷ []))
unfolding raw key obj_of fields_text entry
raw-obj_of k v [] = rw push_str_lem (simp (append_assoc, append-nil))
raw-obj_of k v (f ∷ l) = rw (push_str_lem, more_fields-last l (k, v)) (simp append_assoc)

str-obj_of :
    (k s : Text) (l : List (Text × Value)) → str k s (obj_of l) ≡ obj_of (l ++ ((k, string s) ∷ []))
unfolding str raw render
str-obj_of k s l =
    ap (λ b. record (key k (obj_of l)) { buf = b }) (push_str_lem (key k (obj_of l)).buf s)
    ∙ raw-obj_of k (string s) l

num-obj_of :
    (k : Text) (n : ℕ) (l : List (Text × Value))
    → num k n (obj_of l) ≡ obj_of (l ++ ((k, number n) ∷ []))
unfolding num raw render
num-obj_of k n l = raw-obj_of k (number n) l

bool-obj_of :
    (k : Text) (b : Bool) (l : List (Text × Value))
    → bool k b (obj_of l) ≡ obj_of (l ++ ((k, boolean b) ∷ []))
unfolding bool raw render
bool-obj_of k b l = raw-obj_of k (boolean b) l

render-fields_of :
    (f : Text × Value) (l : List (Text × Value))
    → render_fields (fields_of f l) ≡ entry f ++ (more_fields l ++ (b'}' ∷ []))
unfolding render fields_of more_fields entry
render-fields_of (k, v) [] = simp append_assoc
render-fields_of (k, v) (f ∷ l) = rw (render-fields_of f l) (simp append_assoc)

-- A finished object is the text of the document with its fields.
done-obj_of : (l : List (Text × Value)) → done (obj_of l) ≡ render (object_of l)
unfolding done obj_of fields_text object_of render
done-obj_of [] = refl
done-obj_of (f ∷ l) = rw (render-fields_of f l) (simp append_assoc)

-- The object holds these fields so far.
pub record Holds (o : Obj) (l : List (Text × Value)) : Type 0 where
  pub same : o ≡ obj_of l

pub new-Holds : Holds new_obj []
new-Holds = record { same = new-obj_of }

-- The operations of the writer on such an object.
module _ {o : Obj} {l : List (Text × Value)} (h : Holds o l) where
  pub str-Holds : (k s : Text) → Holds (str k s o) (l ++ ((k, string s) ∷ []))
  str-Holds k s = record { same = ap (str k s) h.same ∙ str-obj_of k s l }

  pub num-Holds : (k : Text) (n : ℕ) → Holds (num k n o) (l ++ ((k, number n) ∷ []))
  num-Holds k n = record { same = ap (num k n) h.same ∙ num-obj_of k n l }

  pub bool-Holds : (k : Text) (b : Bool) → Holds (bool k b o) (l ++ ((k, boolean b) ∷ []))
  bool-Holds k b = record { same = ap (bool k b) h.same ∙ bool-obj_of k b l }

  pub raw-Holds : (k t : Text) (v : Value) → t ≡ render v → Holds (raw k t o) (l ++ ((k, v) ∷ []))
  raw-Holds k t v d = record {
    same = ap (λ u. raw k u o) d ∙ ap (raw k (render v)) h.same ∙ raw-obj_of k v l;
  }

  pub done-Holds : done o ≡ render (object_of l)
  done-Holds = ap done h.same ∙ done-obj_of l
