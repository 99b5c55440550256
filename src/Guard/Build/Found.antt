-- ===== src/Guard/Build/Found.antt =====
-- Which names `clang_candidates` of guard/build.rs finds on PATH.
use fips_shield.Base.{
  ℕ, ◌≡◌, ◌↔◌, ◌⊎◌, refl, true, Option, none, some, List, [], ◌∷◌, ◌++◌, arith, Bool-cases,
  Option-cases, inl, inr, sym, ap, ◌∙◌, map, In,
}
use fips_shield.Std.Text.{Text, codes, text_eq, text_eq→eq}
use fips_shield.Std.Utf8.{Bytes, from_utf8_lossy}
use fips_shield.Std.Sort.{sort_by, In-sort_by}
use fips_shield.Guard.Build.{
  Env, Builder, Versioned, version_of, is_seen, add_name, add_entries, add_dirs, path_dirs,
  newer_first, clang_candidates,
}

abbrev HasName : Text → List Versioned → Type 0
HasName name versioned = (v : Versioned) × In v versioned × (v.1 ≡ name)

-- An entry of that name, which could be read.
abbrev pub HasEntry : Text → List (Option Bytes) → Type 0
HasEntry name entries = (raw : Bytes) × In (some raw) entries × (from_utf8_lossy raw ≡ name)

-- A readable directory with an entry of that name.
abbrev pub IsAmong : Builder → List Bytes → Text → Type 0
IsAmong m dirs name =
    (dir : Bytes) × (entries : List (Option Bytes)) × In dir dirs
    × (m.read_dir dir ≡ some entries)
    × HasEntry name entries

In-append_left : (v : Versioned) (l k : List Versioned) → In v l → In v (l ++ k)
In-append_left v [] k h = absurd h
In-append_left v (w ∷ l) k (inl p) = inl p
In-append_left v (w ∷ l) k (inr i) = inr (In-append_left v l k i)

In-append_last : (v : Versioned) (l : List Versioned) → In v (l ++ (v ∷ []))
In-append_last v [] = inl refl
In-append_last v (w ∷ l) = inr (In-append_last v l)

In-append_cases : (v w : Versioned) (l : List Versioned) → In v (l ++ (w ∷ [])) → In v l ⊎ (v ≡ w)
In-append_cases v w [] (inl p) = inr p
In-append_cases v w [] (inr i) = absurd i
In-append_cases v w (u ∷ l) (inl p) = inl (inl p)
In-append_cases v w (u ∷ l) (inr i) = elim (In-append_cases v w l i) [
  | inl j ↦ inl (inr j)
  | inr p ↦ inr p
]

seen_name :
    (name : Text) (versioned : List Versioned)
    → is_seen name versioned ≡ true
    → HasName name versioned
unfolding is_seen
seen_name name [] h = absurd (ground arith)
seen_name name (v ∷ versioned) h = elim (Bool-cases (text_eq v.1 name)) [
  | inl e ↦ (v, inl refl, text_eq→eq v.1 name e)
  | inr e ↦ let (w, i, p) = seen_name name versioned (ground arith) in (w, inr i, p)
]

add_name-keeps :
    (name x : Text) (versioned : List Versioned)
    → HasName name versioned
    → HasName name (add_name versioned x)
unfolding add_name
add_name-keeps name x versioned (v, i, p) = elim (Option-cases (version_of x)) [
  | inl e ↦ rw (e, add_name) (v, i, p)
  | inr (n, e) ↦ elim (Bool-cases (is_seen x versioned)) [
    | inl s ↦ rw (e, s, add_name) (v, i, p)
    | inr s ↦ rw (e, s, add_name) (v, In-append_left v versioned ((n, x) ∷ []) i, p)
  ]
]

add_name-adds :
    (x : Text) (n : ℕ) (versioned : List Versioned)
    → version_of x ≡ some n
    → HasName x (add_name versioned x)
unfolding add_name
add_name-adds x n versioned e = elim (Bool-cases (is_seen x versioned)) [
  | inl s ↦ rw (e, s, add_name) (seen_name x versioned s)
  | inr s ↦ rw (e, s, add_name) ((n, x), In-append_last (n, x) versioned, refl)
]

add_name-cases :
    (name x : Text) (versioned : List Versioned)
    → HasName name (add_name versioned x)
    → HasName name versioned ⊎ ((name ≡ x) × ((n : ℕ) × (version_of x ≡ some n)))
unfolding add_name
add_name-cases name x versioned h = elim (Option-cases (version_of x)) [
  | inl e ↦ inl (rw (e, add_name) at h)
  | inr (n, e) ↦ elim (Bool-cases (is_seen x versioned)) [
    | inl s ↦ inl (rw (e, s, add_name) at h)
    | inr s ↦
        let (v, i, p) = rw (e, s, add_name) at h in
        elim (In-append_cases v (n, x) versioned i) [
          | inl j ↦ inl (v, j, p)
          | inr q ↦ inr (sym p ∙ ap (λ (w : Versioned). w.1) q, (n, e))
        ]
  ]
]

-- A name with a version.
abbrev pub HasVersion : Text → Type 0
HasVersion name = (n : ℕ) × (version_of name ≡ some n)

add_entries-keeps :
    (name : Text) (entries : List (Option Bytes)) (versioned : List Versioned)
    → HasName name versioned
    → HasName name (add_entries versioned entries)
unfolding add_entries
add_entries-keeps name [] versioned h = h
add_entries-keeps name (none ∷ entries) versioned h = add_entries-keeps name entries versioned h
add_entries-keeps name (some raw ∷ entries) versioned h =
    add_entries-keeps name entries (add_name versioned (from_utf8_lossy raw))
      (add_name-keeps name (from_utf8_lossy raw) versioned h)

add_entries-adds :
    (name : Text) (n : ℕ) (entries : List (Option Bytes)) (versioned : List Versioned)
    → version_of name ≡ some n
    → HasEntry name entries
    → HasName name (add_entries versioned entries)
unfolding add_entries
add_entries-adds name n [] versioned e (raw, i, p) = absurd i
add_entries-adds name n (none ∷ entries) versioned e (raw, inl q, p) = absurd (ground arith)
add_entries-adds name n (none ∷ entries) versioned e (raw, inr i, p) =
    add_entries-adds name n entries versioned e (raw, i, p)
add_entries-adds name n (some first ∷ entries) versioned e (raw, inl q, p) =
    let same : first ≡ raw = ground arith in
    let named : from_utf8_lossy first ≡ name = ap from_utf8_lossy same ∙ p in
    add_entries-keeps name entries (add_name versioned (from_utf8_lossy first))
      (rw named (add_name-adds name n versioned e))
add_entries-adds name n (some first ∷ entries) versioned e (raw, inr i, p) =
    add_entries-adds name n entries (add_name versioned (from_utf8_lossy first)) e (raw, i, p)

add_entries-cases :
    (name : Text) (entries : List (Option Bytes)) (versioned : List Versioned)
    → HasName name (add_entries versioned entries)
    → HasName name versioned ⊎ (HasVersion name × HasEntry name entries)
unfolding add_entries
add_entries-cases name [] versioned h = inl h
add_entries-cases name (none ∷ entries) versioned h =
    elim (add_entries-cases name entries versioned h) [
      | inl k ↦ inl k
      | inr (v, (raw, i, p)) ↦ inr (v, (raw, inr i, p))
    ]
add_entries-cases name (some first ∷ entries) versioned h =
    elim (add_entries-cases name entries (add_name versioned (from_utf8_lossy first)) h) [
      | inl k ↦ elim (add_name-cases name (from_utf8_lossy first) versioned k) [
        | inl j ↦ inl j
        | inr (p, v) ↦ inr (rw p v, (first, inl refl, sym p))
      ]
      | inr (v, (raw, i, p)) ↦ inr (v, (raw, inr i, p))
    ]

module _ (m : Builder) (name : Text) where
  add_dirs-keeps :
      (dirs : List Bytes) (versioned : List Versioned)
      → HasName name versioned
      → HasName name (add_dirs m versioned dirs)
  unfolding add_dirs
  add_dirs-keeps [] versioned h = h
  add_dirs-keeps (dir ∷ dirs) versioned h = elim (Option-cases (m.read_dir dir)) [
    | inl e ↦ rw (e, add_dirs) (add_dirs-keeps dirs versioned h)
    | inr (entries, e) ↦
        rw (e, add_dirs)
          (add_dirs-keeps dirs (add_entries versioned entries)
            (add_entries-keeps name entries versioned h))
  ]

  add_dirs-adds :
      (n : ℕ) (dirs : List Bytes) (versioned : List Versioned)
      → version_of name ≡ some n
      → IsAmong m dirs name
      → HasName name (add_dirs m versioned dirs)
  unfolding add_dirs
  add_dirs-adds n [] versioned v (dir, entries, i, e, h) = absurd i
  add_dirs-adds n (first ∷ dirs) versioned v (dir, entries, inl q, e, h) =
      let read : m.read_dir first ≡ some entries = rw (← q) e in
      rw (read, add_dirs)
        (add_dirs-keeps dirs (add_entries versioned entries)
          (add_entries-adds name n entries versioned v h))
  add_dirs-adds n (first ∷ dirs) versioned v (dir, entries, inr i, e, h) =
      elim (Option-cases (m.read_dir first)) [
        | inl k ↦ rw (k, add_dirs) (add_dirs-adds n dirs versioned v (dir, entries, i, e, h))
        | inr (others, k) ↦
            rw (k, add_dirs)
              (add_dirs-adds n dirs (add_entries versioned others) v (dir, entries, i, e, h))
      ]

  later_dir :
      (first : Bytes) (dirs : List Bytes)
      → HasVersion name × IsAmong m dirs name
      → HasVersion name × IsAmong m (first ∷ dirs) name
  later_dir first dirs (v, (dir, entries, i, e, h)) = (v, (dir, entries, inr i, e, h))

  add_dirs-cases :
      (dirs : List Bytes) (versioned : List Versioned)
      → HasName name (add_dirs m versioned dirs)
      → HasName name versioned ⊎ (HasVersion name × IsAmong m dirs name)
  unfolding add_dirs
  add_dirs-cases [] versioned h = inl h
  add_dirs-cases (first ∷ dirs) versioned h = elim (Option-cases (m.read_dir first)) [
    | inl e ↦ elim (add_dirs-cases dirs versioned (rw (e, add_dirs) at h)) [
      | inl k ↦ inl k
      | inr k ↦ inr (later_dir first dirs k)
    ]
    | inr (entries, e) ↦
        elim (add_dirs-cases dirs (add_entries versioned entries) (rw (e, add_dirs) at h)) [
          | inl k ↦ elim (add_entries-cases name entries versioned k) [
            | inl j ↦ inl j
            | inr (v, j) ↦ inr (v, (first, entries, inl refl, e, j))
          ]
          | inr k ↦ inr (later_dir first dirs k)
        ]
  ]

  In-names :
      (versioned : List Versioned)
      → In name (map (λ (v : Versioned). v.1) versioned) ↔ HasName name versioned
  In-names [] = ((λ h. absurd h), (λ (v, i, p). absurd i))
  In-names (w ∷ versioned) =
      let (to, from) = In-names versioned in
      (
        (λ h. elim h [
          | inl p ↦ (w, inl refl, sym p)
          | inr i ↦ let (v, j, p) = to i in (v, inr j, p)
        ]),
        (λ (v, i, p). elim i [
          | inl q ↦ inl (sym p ∙ ap (λ (x : Versioned). x.1) q)
          | inr j ↦ inr (from (v, j, p))
        ]),
      )

  -- A name is tried if it is plain `clang` or an entry of a readable directory of PATH whose name
  -- has a version, and no other name is.
  pub clang_candidates-HasVersion :
      (env : Env)
      → In name (clang_candidates m env)
        ↔ ((name ≡ codes "clang") ⊎ (HasVersion name × IsAmong m (path_dirs env) name))
  unfolding clang_candidates
  clang_candidates-HasVersion env =
      let dirs = path_dirs env in
      let found = add_dirs m [] dirs in
      let (to, from) = In-names (sort_by newer_first found) in
      (
        (λ h. elim h [
          | inl p ↦ inl p
          | inr i ↦
              let (v, j, p) = to i in
              elim (add_dirs-cases dirs [] (v, (In-sort_by newer_first v found).0 j, p)) [
                | inl (w, k, q) ↦ absurd k
                | inr k ↦ inr k
              ]
        ]),
        (λ h. elim h [
          | inl p ↦ inl p
          | inr ((n, e), k) ↦
              let (v, j, p) = add_dirs-adds n dirs [] e k in
              inr (from (v, (In-sort_by newer_first v found).1 j, p))
        ]),
      )
