-- ===== src/Guard/Build/Candidates.antt =====
-- The compilers to try, `clang_candidates` of guard/build.rs.
use fips_shield.Base.{
  ℕ, ◌≡◌, ◌≢◌, refl, true, false, Option, none, some, List, [], ◌∷◌, ◌++◌, arith, All, All-append,
  Bool-cases, Option-cases, inl, inr, sym, map, In,
}
use fips_shield.Std.Text.{Text, codes, text_eq, text_eq_refl}
use fips_shield.Std.Utf8.{Bytes, from_utf8_lossy}
use fips_shield.Std.Sort.{
  sort_by, IsSortedBy, Pairwise, sort_by-IsSortedBy, sort_by-Pairwise, All-sort_by,
}
use fips_shield.Guard.Build.{
  Env, Builder, Versioned, version_of, is_seen, add_name, add_entries, add_dirs, path_dirs,
  newer_first, clang_candidates,
}

-- A list whose names have their versions, none of them twice.
abbrev Fits : Versioned → Type 0
Fits v = version_of v.1 ≡ some v.0

abbrev OtherName : Versioned → Versioned → Type 0
OtherName v w = v.1 ≢ w.1

abbrev HasName : Text → List Versioned → Type 0
HasName name versioned = (v : Versioned) × In v versioned × (v.1 ≡ name)

abbrev IsTable : List Versioned → Type 0
IsTable versioned = All Fits versioned × Pairwise newer_first OtherName versioned

unseen :
    (version : ℕ) (name : Text) (versioned : List Versioned)
    → is_seen name versioned ≡ false
    → All (λ v. OtherName v (version, name)) versioned
unfolding is_seen
unseen version name [] h = tt
unseen version name (v ∷ versioned) h = elim (Bool-cases (text_eq v.1 name)) [
  | inl e ↦ absurd (ground arith)
  | inr e ↦ ((λ q. ground (arith, text_eq_refl name)), unseen version name versioned (ground arith))
]

Pairwise-last :
    (versioned : List Versioned) (w : Versioned)
    → Pairwise newer_first OtherName versioned
    → All (λ v. OtherName v w) versioned
    → Pairwise newer_first OtherName (versioned ++ (w ∷ []))
Pairwise-last [] w h k = (tt, tt)
Pairwise-last (v ∷ versioned) w (h, hs) (k, ks) =
    (All-append (OtherName v) versioned (w ∷ []) h (k, tt), Pairwise-last versioned w hs ks)

add_name-IsTable :
    (versioned : List Versioned) (name : Text)
    → IsTable versioned
    → IsTable (add_name versioned name)
unfolding add_name
add_name-IsTable versioned name (f, d) = elim (Option-cases (version_of name)) [
  | inl e ↦ rw (e, add_name) (f, d)
  | inr (version, e) ↦ elim (Bool-cases (is_seen name versioned)) [
    | inl s ↦ rw (e, s, add_name) (f, d)
    | inr s ↦
        rw (e, s, add_name)
          (
            All-append Fits versioned ((version, name) ∷ []) f (e, tt),
            Pairwise-last versioned (version, name) d (unseen version name versioned s),
          )
  ]
]

add_entries-IsTable :
    (entries : List (Option Bytes)) (versioned : List Versioned)
    → IsTable versioned
    → IsTable (add_entries versioned entries)
unfolding add_entries
add_entries-IsTable [] versioned h = h
add_entries-IsTable (none ∷ entries) versioned h = add_entries-IsTable entries versioned h
add_entries-IsTable (some name ∷ entries) versioned h =
    add_entries-IsTable entries (add_name versioned (from_utf8_lossy name))
      (add_name-IsTable versioned (from_utf8_lossy name) h)

add_dirs-IsTable :
    (m : Builder) (dirs : List Bytes) (versioned : List Versioned)
    → IsTable versioned
    → IsTable (add_dirs m versioned dirs)
unfolding add_dirs
add_dirs-IsTable m [] versioned h = h
add_dirs-IsTable m (dir ∷ dirs) versioned h = elim (Option-cases (m.read_dir dir)) [
  | inl e ↦ rw (e, add_dirs) (add_dirs-IsTable m dirs versioned h)
  | inr (entries, e) ↦
      rw (e, add_dirs)
        (add_dirs-IsTable m dirs (add_entries versioned entries)
          (add_entries-IsTable entries versioned h))
]

newer_trans :
    (u v w : Versioned) → newer_first u v ≡ true → newer_first v w ≡ true → newer_first u w ≡ true
unfolding newer_first
newer_trans u v w h k = ground arith

newer_total : (v w : Versioned) → newer_first v w ≡ false → newer_first w v ≡ true
unfolding newer_first
newer_total v w h = ground arith

-- After plain `clang`, the compilers to try are names with a version, the highest version first
-- and no name twice.
pub clang_candidates-IsSortedBy :
    (m : Builder) (env : Env)
    → (versioned : List Versioned) × (clang_candidates m env
        ≡ codes "clang" ∷ map (λ (v : Versioned). v.1) versioned)
      × IsSortedBy newer_first versioned
      × All (λ v. version_of v.1 ≡ some v.0) versioned
      × Pairwise newer_first (λ v w. v.1 ≢ w.1) versioned
unfolding clang_candidates
clang_candidates-IsSortedBy m env =
    let found = add_dirs m [] (path_dirs env) in
    let (fits, others) = add_dirs-IsTable m (path_dirs env) [] (tt, tt) in
    (
      sort_by newer_first found,
      refl,
      sort_by-IsSortedBy newer_first newer_trans newer_total found,
      All-sort_by newer_first Fits found fits,
      sort_by-Pairwise newer_first OtherName (λ v w d e. d (sym e)) found others,
    )
