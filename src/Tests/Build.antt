-- ===== src/Tests/Build.antt =====
-- Runs of the build script of the guard on a machine with two compilers.
use fips_shield.Base.{
  if◌then◌else◌, ◌≡◌, ◌↔◌, ◌⊎◌, refl, true, false, Option, none, some, List, [], ◌∷◌, ok, err, All,
  In,
}
use fips_shield.Std.Text.{Text, codes, text_eq}
use fips_shield.Std.Utf8.{Bytes}
use fips_shield.Guard.Build.{
  Env, Builder, compiled, no_working_clang, clang_candidates, clang_args, build, candidates_of,
  runs, path_dirs,
}
use fips_shield.Guard.Build.Compiler.{build-Before, build-no_working_clang, Before}
use fips_shield.Guard.Build.Found.{IsAmong}
use fips_shield.Guard.Build.Versions.{clang_candidates_lem, IsVersioned}

abbrev bin : Bytes
bin = codes "/bin"

abbrev names : List (Option Bytes)
names = some (codes "clang-17") ∷ none ∷ some (codes "clang-tidy") ∷ some (codes "clang-19") ∷ []

-- A machine on which the commands of this name run.
abbrev machine : Text → Builder
machine works = record {
  copy = λ from to. true;
  read_dir = λ dir. if text_eq dir bin then some names else none;
  status = λ command args. if text_eq command works then some true else none;
  is_dir = λ dir. false;
}

abbrev env : Env
env = record {
  out_dir = some (codes "o");
  prebuilt_obj = none;
  clang = none;
  path = some (codes "/none:/bin");
  target_arch = some (codes "x86_64");
}

abbrev out : Text
out = codes "o/shield_guard.bpf.o"

abbrev clang_19 : Text
clang_19 = codes "clang-19"

abbrev tried : List Text
tried = codes "clang" ∷ clang_19 ∷ codes "clang-17" ∷ []

built :
    build (machine clang_19) env out
    ≡ ok (compiled clang_19 (clang_args (machine clang_19) env out))
unfolding build
built = refl

failed : build (machine (codes "gcc")) env out ≡ err (no_working_clang tried)
unfolding build
failed = refl

build-Before_example :
    (env.prebuilt_obj ≡ none)
    × Before (machine clang_19) (candidates_of (machine clang_19) env) clang_19
    × ((env.clang ≡ none) ⊎ (env.clang ≡ some clang_19))
    × (clang_args (machine clang_19) env out ≡ clang_args (machine clang_19) env out)
    × ((machine clang_19).status clang_19 (clang_args (machine clang_19) env out) ≡ some true)
build-Before_example =
    build-Before (machine clang_19) env out clang_19 (clang_args (machine clang_19) env out) built

build-no_working_clang_example :
    (env.prebuilt_obj ≡ none)
    × (tried ≡ candidates_of (machine (codes "gcc")) env)
    × All (λ c. runs (machine (codes "gcc")) c ≡ false) tried
build-no_working_clang_example = build-no_working_clang (machine (codes "gcc")) env out tried failed

clang_candidates_lem_example : In clang_19 (clang_candidates (machine clang_19) env) ↔ (
    (clang_19 ≡ codes "clang")
    ⊎ (IsVersioned clang_19 × IsAmong (machine clang_19) (path_dirs env) clang_19))
clang_candidates_lem_example = clang_candidates_lem (machine clang_19) clang_19 env

-- Both compilers are candidates, the newer first.
both : clang_candidates (machine clang_19) env ≡ tried
unfolding clang_candidates
both = refl
