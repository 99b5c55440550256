-- ===== src/Njs/Filters.antt =====
-- `isNarrowing` and `checkFilters` of core/njs/shield_ws.js.
use fips_shield.Base.{
  ℕ, suc, ◌+◌, Bool, false, not, ◌&&◌, ◌||◌, Option, none, some, List, [], ◌∷◌, ◌++◌, ltb, ◌==◌,
  if◌then◌else◌, some_of, length, Result, ok, err,
}
use fips_shield.Std.Text.{Text, codes, text_eq}
use fips_shield.Std.Number.{to_text}
use fips_shield.Njs.Runtime.{
  Runtime, Js, Items, Fields, null, bool, num, str, arr, obj, nil, item, end, field, js_length,
}
use fips_shield.Njs.Session.{Cfg}

-- A rule that is broken, and the detail.
abbrev pub Violation : Type 0
Violation = Text × Text

abbrev pub too_complex : Text → Violation
too_complex detail = (codes "filter-complexity", detail)

abbrev pub malformed : Text → Violation
malformed detail = (codes "malformed", detail)

abbrev pub among : List Text → Text → Bool
among ts t = some_of (λ u. text_eq u t) ts

abbrev narrowing : List Text
narrowing =
    codes "ids"
    ∷ codes "authors"
    ∷ codes "kinds"
    ∷ codes "since"
    ∷ codes "until"
    ∷ codes "search"
    ∷ []

-- `ks[i].charAt(0) === '#'`
starts_with_hash : Text → Bool
starts_with_hash [] = false
starts_with_hash (c ∷ k) = c == b'#'

module _ {N : Type 0} where
  unfoldable pub is_narrowing : Fields N → Bool
  unfolding starts_with_hash text_eq
  is_narrowing end = false
  is_narrowing (field k v fs) = starts_with_hash k || among narrowing k || is_narrowing fs

  -- `f[k]`, for a key that is not inherited
  unfoldable pub get : Text → Fields N → Option (Js N)
  unfolding text_eq
  get k end = none
  get k (field j v fs) = let rest = get k fs in if text_eq j k then some v else rest

  -- The number of items of an array, unless one is a string that is too long.
  unfoldable pub check_items : ℕ → Items N → Result Violation ℕ
  check_items most nil = ok 0
  check_items most (item v vs) =
      let rest : Result Violation ℕ = elim (check_items most vs) [
        | err e ↦ err e
        | ok n ↦ ok (suc n)
      ] in
      elim v [
        | str s ↦
            if ltb most (js_length s)
            then err (too_complex (codes "value-len=" ++ to_text (js_length s)))
            else rest
        | _ ↦ rest
      ]

  -- What a value adds to the items.
  unfoldable pub check_value : ℕ → Js N → Result Violation ℕ
  unfolding check_items
  check_value most (arr vs) = check_items most vs
  check_value most (str s) =
      if ltb most (js_length s)
      then err (too_complex (codes "value-len=" ++ to_text (js_length s)))
      else ok 0
  check_value most null = ok 0
  check_value most (bool b) = ok 0
  check_value most (num x) = ok 0
  check_value most (obj fs) = ok 0

  -- The keys and the items of the values, unless a value is too long.
  unfoldable pub check_fields : ℕ → Fields N → Result Violation ℕ
  unfolding check_value
  check_fields most end = ok 0
  check_fields most (field k v fs) = elim (check_value most v) [
    | err e ↦ err e
    | ok n ↦ elim (check_fields most fs) [ err e ↦ err e | ok m ↦ ok (suc (n + m)) ]
  ]

module _ (R : Runtime) where
  open R use {Number, exceeds, print}

  -- `typeof f.limit === 'number' && f.limit > cfg.maxLimit`
  unfoldable pub over_limit : ℕ → Fields Number → Option Violation
  unfolding get
  over_limit most fs = elim (get (codes "limit") fs) [
    | none ↦ none
    | some v ↦ elim v [
      | num x ↦ if exceeds x most then some (too_complex (codes "limit=" ++ print x)) else none
      | _ ↦ none
    ]
  ]

  -- One filter; `none` is `undefined`.
  unfoldable pub check_filter : Cfg → Option (Js Number) → Result Violation ℕ
  unfolding is_narrowing over_limit check_fields
  check_filter cfg none = err (malformed (codes "bad-filter"))
  check_filter cfg (some v) = elim v [
    | obj fs ↦
        if cfg.require_narrowing && not (is_narrowing fs)
        then err (too_complex (codes "unbounded-filter"))
        else elim (over_limit cfg.max_limit fs) [
          | some e ↦ err e
          | none ↦ check_fields cfg.max_filter_value fs
        ]
    | _ ↦ err (malformed (codes "bad-filter"))
  ]

  unfoldable pub check_each : Cfg → List (Option (Js Number)) → Result Violation ℕ
  unfolding check_filter
  check_each cfg [] = ok 0
  check_each cfg (f ∷ fs) = elim (check_filter cfg f) [
    | err e ↦ err e
    | ok n ↦ elim (check_each cfg fs) [ err e ↦ err e | ok m ↦ ok (n + m) ]
  ]

  unfoldable pub check_filters : Cfg → List (Option (Js Number)) → Option Violation
  unfolding check_each
  check_filters cfg fs =
      let n = length fs in
      if ltb n 1
      then some (too_complex (codes "no-filter"))
      else if ltb cfg.max_filters n
      then some (too_complex (codes "filters=" ++ to_text n))
      else elim (check_each cfg fs) [
        | err e ↦ some e
        | ok items ↦
            if ltb cfg.max_filter_items items
            then some (too_complex (codes "items=" ++ to_text items))
            else none
      ]
