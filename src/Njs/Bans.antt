-- ===== src/Njs/Bans.antt =====
-- The file of bans as core/njs/shield_core.js reads it: `loadBans`, with its cache, and `isBanned`.
pub mod Listed
use fips_shield.Base.{
  ℕ, zero, suc, ◌+◌, ◌-◌, ◌*◌, Bool, true, false, ◌&&◌, ◌||◌, Option, none, some, List, [], ◌∷◌,
  ◌++◌, leb, ltb, ◌==◌, if◌then◌else◌,
}
use fips_shield.Base.Int.{ℤ, pos, negsuc}
use fips_shield.Std.Text.{Text, text_eq, split}
use fips_shield.Njs.Runtime.{Runtime}

-- `\s`, and what `trim` removes
unfoldable pub is_space : ℕ → Bool
is_space c =
    (leb 9 c && leb c 13)
    || c == 32
    || c == 0xa0
    || c == 0x1680
    || (leb 0x2000 c && leb c 0x200a)
    || c == 0x2028
    || c == 0x2029
    || c == 0x202f
    || c == 0x205f
    || c == 0x3000
    || c == 0xfeff

-- The parts of `line.trim().split(/\s+/)`; `w` is the part so far. An empty line has one empty part,
-- which the caller ignores, and here none.
unfoldable pub parts : Text → Text → List Text
unfolding is_space
parts [] [] = []
parts [] (d ∷ w) = (d ∷ w) ∷ []
parts (c ∷ s) w =
    let next = parts s [] in
    let more = parts s (w ++ (c ∷ [])) in
    if is_space c then elim w [ [] ↦ next | d ∷ v ↦ (d ∷ v) ∷ next ] else more

-- The digits at the front of a text, after a number so far.
unfoldable pub leading : ℕ → Text → ℕ
leading n [] = n
leading n (c ∷ s) =
    let rest = leading (n * 10 + (c - b'0')) s in if leb b'0' c && leb c b'9' then rest else n

-- Digits, or `NaN`.
unfoldable pub digits : Text → Option ℕ
unfolding leading
digits [] = none
digits (c ∷ s) = if leb b'0' c && leb c b'9' then some (leading 0 (c ∷ s)) else none

-- `parseInt(s, 10)` of a text with no white space; `none` is `NaN`.
unfoldable pub parse_int : Text → Option ℤ
unfolding digits
parse_int [] = none
parse_int (c ∷ s) =
    if c == b'-'
    then elim (digits s) [ none ↦ none | some zero ↦ some (pos 0) | some (suc n) ↦ some (negsuc n) ]
    else elim (digits (if c == b'+' then s else c ∷ s)) [ none ↦ none | some n ↦ some (pos n) ]

-- An address and the time at which its ban ends.
abbrev pub Entry : Type 0
Entry = Text × Option ℤ

unfoldable pub entry : List Text → Option Entry
unfolding parse_int
entry [] = none
entry (a ∷ []) = none
entry (a ∷ b ∷ more) = some (a, parse_int b)

-- A later line of the file overrides an earlier one: `m` holds the lines so far, the last one first.
unfoldable pub entries : List Text → List Entry → List Entry
unfolding parts entry
entries [] m = m
entries (l ∷ ls) m = entries ls (elim (entry (parts l [])) [ none ↦ m | some e ↦ e ∷ m ])

unfoldable pub lookup : Text → List Entry → Option (Option ℤ)
unfolding text_eq
lookup ip [] = none
lookup ip (e ∷ m) = let rest = lookup ip m in if text_eq e.0 ip then some e.1 else rest

-- `banCache`, with `banLoadFailed`; the path is that of the session throughout.
pub record Cache : Type 0 where
  pub known : Option (ℕ × ℕ)
  pub map : List Entry
  pub load_failed : Bool

abbrev pub empty_cache : Cache
empty_cache = record { known = none; map = []; load_failed = false }

-- Whether the file is the one that the cache holds.
unfoldable pub is_known : ℕ × ℕ → Cache → Bool
is_known (mtime, size) c = elim c.known [ none ↦ false | some (m, n) ↦ m == mtime && n == size ]

-- `until === 0 || until * 1000 > Date.now()`, true for `NaN`
unfoldable pub in_force : Option ℤ → ℕ → Bool
in_force none now = true
in_force (some (pos n)) now = n == 0 || ltb now (n * 1000)
in_force (some (negsuc n)) now = false

module _ (R : Runtime) where
  open R use {date_now, stat_sync, read_file}

  unfoldable pub load_bans : Text → ℕ → Cache → Cache
  unfolding is_known entries split
  load_bans path i c = elim (stat_sync path i) [
    | none ↦ record { known = none; map = []; load_failed = true }
    | some st ↦
        if is_known st c then record c { load_failed = false } else elim (read_file path i) [
          | none ↦ record c { load_failed = false }
          | some s ↦ record {
            known = some st;
            map = entries (split b'\n' s) [];
            load_failed = false;
          }
        ]
  ]

  -- The answer and the cache, at a reading of the clock, for a path that is not empty.
  unfoldable pub is_banned : Text → ℕ → Text → Cache → Bool × Cache
  unfolding load_bans lookup in_force
  is_banned path i ip c =
      let c' = load_bans path i c in
      (elim (lookup ip c'.map) [ none ↦ false | some until ↦ in_force until (date_now i) ], c')
