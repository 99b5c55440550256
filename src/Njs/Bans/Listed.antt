-- ===== src/Njs/Bans/Listed.antt =====
-- What `isBanned` of core/njs/shield_core.js answers for a file with a line for each ban: the address,
-- a blank and the time.
use fips_shield.Base.{
  ℕ, ◌≡◌, ◌≢◌, false, Option, none, some, List, [], ◌∷◌, ◌++◌, All, if◌then◌else◌,
}
use fips_shield.Base.Int.{pos}
use fips_shield.Std.Text.{Text, text_eq}
use fips_shield.Std.Number.{to_text}
use fips_shield.Njs.Runtime.{Runtime}
use fips_shield.Njs.Bans.{is_space, Entry}

-- Bans, each with the second at which it ends.
abbrev pub Bans : Type 0
Bans = List (Text × ℕ)

unfoldable pub ban_file_text : Bans → Text
ban_file_text [] = []
ban_file_text ((a, n) ∷ bs) = (a ++ (32 ∷ to_text n)) ++ (b'\n' ∷ ban_file_text bs)

-- The time of the last ban of an address.
unfoldable pub until : Text → Bans → Option ℕ
until ip [] = none
until ip ((a, n) ∷ bs) = elim (until ip bs) [
  | none ↦ if text_eq a ip then some n else none
  | some m ↦ some m
]

-- No white space.
abbrev pub IsWord : Text → Type 0
IsWord a = All (λ c. is_space c ≡ false) a

abbrev pub IsBan : Text × ℕ → Type 0
IsBan b = (b.0 ≢ []) × IsWord b.0

-- The entries that the bans make, the last one first.
abbrev listed : Bans → List Entry → List Entry
listed [] m = m
listed ((a, n) ∷ bs) m = listed bs ((a, some (pos n)) ∷ m)
