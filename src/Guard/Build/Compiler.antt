-- ===== src/Guard/Build/Compiler.antt =====
-- Which compiler builds the object (`main` and `pick_clang` of guard/build.rs).
use fips_shield.Base.{
  ◌≡◌, ◌⊎◌, refl, true, false, none, some, List, [], ◌∷◌, ◌++◌, arith, All, ok, err, Bool-cases,
  Option-cases, inl, inr, sym, ap, ◌∙◌,
}
use fips_shield.Std.Text.{Text}
use fips_shield.Guard.Build.{
  Env, Builder, compiled, no_working_clang, runs, pick_clang, clang_args, candidates_of, compile,
  build,
}

-- The candidates before a compiler, and those after it.
abbrev pub Before : Builder → List Text → Text → Type 0
Before m candidates clang =
    (earlier later : List Text) × (candidates ≡ earlier ++ (clang ∷ later))
    × All (λ c. runs m c ≡ false) earlier
    × (runs m clang ≡ true)

pick_clang-some :
    (m : Builder) (candidates : List Text) (clang : Text)
    → pick_clang m candidates ≡ some clang
    → Before m candidates clang
unfolding pick_clang
pick_clang-some m [] clang h = absurd (ground arith)
pick_clang-some m (c ∷ cs) clang h = elim (Bool-cases (runs m c)) [
  | inl e ↦ let same : c ≡ clang = ground arith in ([], cs, rw same refl, tt, rw (← same) e)
  | inr e ↦
      let (earlier, later, p, q, r) = pick_clang-some m cs clang (ground arith) in
      (c ∷ earlier, later, ap (λ l. c ∷ l) p, (e, q), r)
]

pick_clang-none :
    (m : Builder) (candidates : List Text)
    → pick_clang m candidates ≡ none
    → All (λ c. runs m c ≡ false) candidates
unfolding pick_clang
pick_clang-none m [] h = tt
pick_clang-none m (c ∷ cs) h = elim (Bool-cases (runs m c)) [
  | inl e ↦ absurd (ground arith)
  | inr e ↦ (e, pick_clang-none m cs (ground arith))
]

pick_clang-one : (m : Builder) (c clang : Text) → pick_clang m (c ∷ []) ≡ some clang → c ≡ clang
unfolding pick_clang
pick_clang-one m c clang h = ground arith

module _ (m : Builder) (env : Env) (out : Text) where
  chosen :
      (clang : Text) (args : List Text)
      → build m env out ≡ ok (compiled clang args)
      → (env.prebuilt_obj ≡ none)
        × (pick_clang m (candidates_of m env) ≡ some clang)
        × (args ≡ clang_args m env out)
        × (m.status clang (clang_args m env out) ≡ some true)
  unfolding build compile
  chosen clang args h = elim (Option-cases env.prebuilt_obj) [
    | inr (o, e) ↦ absurd (ground arith)
    | inl e ↦ elim (Option-cases (pick_clang m (candidates_of m env))) [
      | inl n ↦ absurd (ground arith)
      | inr (c, p) ↦ elim (Option-cases (m.status c (clang_args m env out))) [
        | inl n ↦ absurd (ground arith)
        | inr (s, q) ↦
            let same : c ≡ clang = ground arith in
            (e, ground arith, ground arith, rw (← same) (ground arith))
      ]
    ]
  ]

  -- A build that compiles the object had no prebuilt one named, and compiled with the first of the
  -- candidates that answers `--version`; if a compiler was named, that is the one. The compiler
  -- reported success on the arguments of the script.
  pub build-Before :
      (clang : Text) (args : List Text)
      → build m env out ≡ ok (compiled clang args)
      → (env.prebuilt_obj ≡ none)
        × Before m (candidates_of m env) clang
        × ((env.clang ≡ none) ⊎ (env.clang ≡ some clang))
        × (args ≡ clang_args m env out)
        × (m.status clang args ≡ some true)
  unfolding candidates_of
  build-Before clang args h =
      let (none_prebuilt, p, a, s) = chosen clang args h in
      let first = pick_clang-some m (candidates_of m env) clang p in
      (
        none_prebuilt,
        first,
        elim (Option-cases env.clang) [
          | inl n ↦ inl n
          | inr (c, e) ↦
              let only : candidates_of m env ≡ c ∷ [] = rw e refl in
              inr (e ∙ ap some (pick_clang-one m c clang (rw (← only) p)))
        ],
        a,
        rw a s,
      )

  -- A build that ends for want of a compiler names the candidates, none of which answers
  -- `--version`, and no prebuilt object was named.
  pub build-no_working_clang :
      (tried : List Text)
      → build m env out ≡ err (no_working_clang tried)
      → (env.prebuilt_obj ≡ none)
        × (tried ≡ candidates_of m env)
        × All (λ c. runs m c ≡ false) tried
  unfolding build compile
  build-no_working_clang tried h = elim (Option-cases env.prebuilt_obj) [
    | inr (o, e) ↦ absurd (ground arith)
    | inl e ↦ elim (Option-cases (pick_clang m (candidates_of m env))) [
      | inl n ↦
          let same : candidates_of m env ≡ tried = ground arith in
          (e, sym same, rw (← same) (pick_clang-none m (candidates_of m env) n))
      | inr (c, p) ↦ absurd (ground arith)
    ]
  ]
