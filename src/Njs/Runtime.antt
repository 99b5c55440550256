-- ===== src/Njs/Runtime.antt =====
-- What core/njs/shield_ws.js and shield_core.js take from JavaScript and nginx: values of JSON, and a
-- parameter for numbers, the parser of JSON, the clock and the file of bans.
use fips_shield.Base.{ℕ, ◌+◌, Bool, Option, [], ◌∷◌, leb, if◌then◌else◌}
use fips_shield.Std.Text.{Text}

-- A value that JSON.parse yields. The fields of an object are its own properties, in the order of
-- Object.keys.
mutual
  pub data Js (N : Type 0) : Type 0 where
    null : Js N
    bool : Bool → Js N
    num : N → Js N
    str : Text → Js N
    arr : Items N → Js N
    obj : Fields N → Js N

  pub data Items (N : Type 0) : Type 0 where
    nil : Items N
    item : Js N → Items N → Items N

  pub data Fields (N : Type 0) : Type 0 where
    end : Fields N
    field : Text → Js N → Fields N → Fields N

pub record Runtime : Type 1 where
  pub Number : Type 0
  -- `x > n`, for a knob `n`
  pub exceeds : Number → ℕ → Bool
  -- `String(x)`
  pub print : Number → Text
  -- `JSON.parse`, or whether it throws
  pub parse_json : Text → Option (Js Number)
  -- the readings of `Date.now()`, in milliseconds
  pub date_now : ℕ → ℕ
  -- `fs.statSync` of a file at a reading of the clock: its mtime and its size
  pub stat_sync : Text → ℕ → Option (ℕ × ℕ)
  -- `fs.readFileSync` of a file
  pub read_file : Text → ℕ → Option Text
  -- `parseFloat`, of texts with whole numbers that are not negative; `none` is `NaN`
  pub parse_float : Text → Option ℕ

-- `s.length`, in units of UTF-16
unfoldable pub js_length : Text → ℕ
js_length [] = 0
js_length (c ∷ s) = (if leb 0x10000 c then 2 else 1) + js_length s
