-- ===== src/Guard/Build.antt =====
-- The build script of the guard, guard/build.rs: where the object of the classifier comes from.
pub mod Candidates
pub mod Compiler
pub mod Found
pub mod Versions
use fips_shield.Base.{
  ℕ, Bool, true, false, Option, none, some, List, [], ◌∷◌, ◌++◌, leb, if◌then◌else◌, map, keep,
  some_of, unwrap_or, Result, ok, err,
}
use fips_shield.Std.Text.{Text, codes, text_eq, split, strip_prefix}
use fips_shield.Std.Number.{parse_u32}
use fips_shield.Std.Utf8.{Bytes, from_utf8_lossy}
use fips_shield.Std.FilePath.{join}
use fips_shield.Std.Sort.{sort_by}

-- The variables of the environment that the script reads; one that is not UTF-8 counts as unset,
-- but for PATH, which is read as bytes.
pub record Env : Type 0 where
  pub out_dir : Option Text
  pub prebuilt_obj : Option Text
  pub clang : Option Text
  pub path : Option Bytes
  pub target_arch : Option Text

-- The machine that builds.
pub record Builder : Type 0 where
  -- whether `std::fs::copy` succeeds
  pub copy : Text → Text → Bool
  -- `read_dir`: the names of the entries, each perhaps an error
  pub read_dir : Bytes → Option (List (Option Bytes))
  -- `Command::status`: whether the command succeeded, if it could be started
  pub status : Text → List Text → Option Bool
  pub is_dir : Text → Bool

pub data Panic : Type 0 where
  no_out_dir : Panic
  cannot_copy : Text → Panic
  no_working_clang : List Text → Panic
  failed_to_run : Text → Panic
  failed_to_build : Text → Panic

-- How a run of the script ends.
pub data Built : Type 0 where
  copied : Text → Text → Built
  compiled : Text → List Text → Built

-- A version with the name that has it.
abbrev pub Versioned : Type 0
Versioned = ℕ × Text

-- `name.strip_prefix("clang-").and_then(|s| s.parse::<u32>().ok())`
unfoldable pub version_of : Text → Option ℕ
unfolding strip_prefix parse_u32
version_of name = elim (strip_prefix name (codes "clang-")) [ none ↦ none | some s ↦ parse_u32 s ]

unfoldable pub is_seen : Text → List Versioned → Bool
unfolding text_eq
is_seen name versioned = some_of (λ v. text_eq v.1 name) versioned

-- One name of an entry: kept if it has a version and was not seen yet.
unfoldable pub add_name : List Versioned → Text → List Versioned
unfolding version_of is_seen
add_name versioned name = elim (version_of name) [
  | none ↦ versioned
  | some version ↦ if is_seen name versioned then versioned else versioned ++ ((version, name) ∷ [])
]

-- The entries of a directory, but for those in error (`entries.flatten()`).
unfoldable pub add_entries : List Versioned → List (Option Bytes) → List Versioned
unfolding add_name from_utf8_lossy
add_entries versioned [] = versioned
add_entries versioned (none ∷ entries) = add_entries versioned entries
add_entries versioned (some name ∷ entries) =
    add_entries (add_name versioned (from_utf8_lossy name)) entries

-- A directory that cannot be read is passed over.
unfoldable pub add_dirs : Builder → List Versioned → List Bytes → List Versioned
unfolding add_entries
add_dirs m versioned [] = versioned
add_dirs m versioned (dir ∷ dirs) = elim (m.read_dir dir) [
  | none ↦ add_dirs m versioned dirs
  | some entries ↦ add_dirs m (add_entries versioned entries) dirs
]

-- `env::split_paths` of Unix
unfoldable pub path_dirs : Env → List Bytes
unfolding split
path_dirs env = elim env.path [ none ↦ [] | some path ↦ split b':' path ]

unfoldable pub newer_first : Versioned → Versioned → Bool
newer_first v w = leb w.0 v.0

unfoldable pub clang_candidates : Builder → Env → List Text
unfolding add_dirs path_dirs sort_by newer_first
clang_candidates m env =
    codes "clang"
    ∷ map (λ (v : Versioned). v.1) (sort_by newer_first (add_dirs m [] (path_dirs env)))

-- Whether `candidate --version` runs and succeeds.
unfoldable pub runs : Builder → Text → Bool
runs m candidate = unwrap_or false (m.status candidate (codes "--version" ∷ []))

-- The loop of `pick_clang`, which panics at its end.
unfoldable pub pick_clang : Builder → List Text → Option Text
unfolding runs
pick_clang m [] = none
pick_clang m (candidate ∷ candidates) =
    let rest = pick_clang m candidates in if runs m candidate then some candidate else rest

unfoldable pub triples : Text → List Text
unfolding text_eq
triples arch =
    if text_eq arch (codes "arm")
    then codes "arm-linux-gnueabihf" ∷ codes "arm-linux-gnueabi" ∷ []
    else if text_eq arch (codes "x86_64")
    then codes "x86_64-linux-gnu" ∷ []
    else if text_eq arch (codes "aarch64")
    then codes "aarch64-linux-gnu" ∷ []
    else if text_eq arch (codes "riscv64")
    then codes "riscv64-linux-gnu" ∷ []
    else if text_eq arch (codes "powerpc64")
    then codes "powerpc64le-linux-gnu" ∷ []
    else []

unfoldable pub multiarch_include_dirs : Env → List Text
unfolding triples join
multiarch_include_dirs env =
    map (λ t. join (codes "/usr/include") t) (triples (unwrap_or [] env.target_arch))

unfoldable pub clang_args : Builder → Env → Text → List Text
unfolding multiarch_include_dirs
clang_args m env out =
    (codes "-O2"
      ∷ codes "-g"
      ∷ codes "-target"
      ∷ codes "bpf"
      ∷ codes "-Wall"
      ∷ codes "-Werror"
      ∷ codes "-c"
      ∷ codes "bpf/shield_guard.bpf.c"
      ∷ codes "-o"
      ∷ out
      ∷ [])
    ++ map (λ dir. codes "-I" ++ dir) (keep m.is_dir (multiarch_include_dirs env))

-- The compilers to try: an explicit one is the only one.
unfoldable pub candidates_of : Builder → Env → List Text
unfolding clang_candidates
candidates_of m env = elim env.clang [
  | some explicit ↦ explicit ∷ []
  | none ↦ clang_candidates m env
]

-- The compilation, once a compiler is chosen.
unfoldable pub compile : Builder → Env → Text → Text → Result Panic Built
unfolding clang_args
compile m env out clang = elim (m.status clang (clang_args m env out)) [
  | none ↦ err (failed_to_run clang)
  | some success ↦
      if success then ok (compiled clang (clang_args m env out)) else err (failed_to_build clang)
]

-- The object is compiled unless a prebuilt one is named.
unfoldable pub build : Builder → Env → Text → Result Panic Built
unfolding candidates_of pick_clang compile
build m env out = elim env.prebuilt_obj [
  | some prebuilt ↦
      if m.copy prebuilt out then ok (copied prebuilt out) else err (cannot_copy prebuilt)
  | none ↦ elim (pick_clang m (candidates_of m env)) [
    | none ↦ err (no_working_clang (candidates_of m env))
    | some clang ↦ compile m env out clang
  ]
]

-- What is printed for cargo, and how the script ends.
unfoldable pub main : Builder → Env → List Text × Result Panic Built
unfolding build join
main m env = (
  codes "cargo:rerun-if-changed=bpf/shield_guard.bpf.c"
      ∷ codes "cargo:rerun-if-env-changed=SHIELD_GUARD_BPF_OBJ"
      ∷ codes "cargo:rerun-if-env-changed=CLANG"
      ∷ [],
  elim env.out_dir [
    | none ↦ err no_out_dir
    | some dir ↦ build m env (join dir (codes "shield_guard.bpf.o"))
  ],
)
