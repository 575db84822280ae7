-- ===== src/BuildScript.antt =====
-- build.go, the script that builds and packs the program: its variables, what it asks of the system, and how it
-- runs other programs. Log lines are left out, and so are the outputs that it only passes on.
pub mod Version
pub mod Sums
pub mod Packages
pub mod Compile
pub mod Commands
use syncflux.Prelude.{
  ℤ, String, Bool, false, Option, none, some, List, [], ◌∷◌, map, str_eq, if◌then◌else◌,
}
use syncflux.Go.{Error, Outcome, ret, panic, Action, Result, ok, err, pure, fail, ◌>>=◌, ◌>>◌}
use syncflux.Go.Strings.{trim_space}

-- The variables of the script.
pub record Globals : Type 0 where
  pub goarch : String
  pub goos : String
  pub version : String
  pub linux_package_version : String
  pub linux_package_iteration : String
  pub race : Bool
  pub working_dir : String
  pub server_binary_name : String

-- Their values before main, where flag.StringVar sets the first two for the machine that runs it.
unfoldable pub initial_globals : Globals
initial_globals = record {
  goarch = "";
  goos = "";
  version = "v1";
  linux_package_version = "v1";
  linux_package_iteration = "";
  race = false;
  working_dir = "";
  server_binary_name = "syncflux";
}

-- What the script asks of packages os, os/exec, ioutil, io, hash and filepath. A world `W` has files, variables of the
-- environment and a clock; `F` is an open file and `H` a finished hash.
pub record System (W F H : Type 0) : Type 0 where
  pub getenv : String → W → String
  pub setenv : String → String → W → W
  pub getwd : W → Result String
  pub chdir : String → W → W
  pub mkdir : String → W → W
  pub temp_dir : String → W → Result String × W
  pub remove_all : String → W → W
  pub exec_run : String → List String → W → Option Error × W
  pub exec_output : String → List String → W → Result String × W
  pub exec_combined_output : String → List String → W → Result String × W
  pub now : W → ℤ
  pub walk : String → W → List String
  pub open_file : String → W → Result F × W
  pub md5_of : F → W → Result H × W
  pub sha1_of : F → W → Result H × W
  pub create : String → W → Result F × W
  pub print_hex : F → H → W → Option Error × W
  pub close : F → W → Option Error × W

-- An error that ends the script, log.Fatal, as a panic does.
abbrev pub or_fatal : {W A : Type 0} → (W → Result A × W) → Action W A
or_fatal m w = let (r, w') = m w in elim r [ ok a ↦ (ret a, w') | err e ↦ (panic, w') ]

abbrev pub unless_fatal : {W : Type 0} → (W → Option Error × W) → Action W Unit
unless_fatal m w = let (e, w') = m w in elim e [ none ↦ (ret tt, w') | some x ↦ (panic, w') ]

-- A step that gives nothing and cannot fail.
abbrev pub step : {W : Type 0} → (W → W) → Action W Unit
step f w = (ret tt, f w)

-- The steps of a list, one after the other.
unfoldable pub each : {W : Type 0} → List (Action W Unit) → Action W Unit
each [] w = (ret tt, w)
each (m ∷ ms) w = (m >> each ms) w

module _ {W F H : Type 0} (system : System W F H) where
  -- runError.
  unfoldable pub run_error : String → List String → W → Result String × W
  run_error cmd args w =
      let (r, w') = system.exec_combined_output cmd args w in
      (elim r [ ok bs ↦ ok (trim_space bs) | err e ↦ err e ], w')

  -- run.
  unfoldable pub run : String → List String → Action W String
  unfolding run_error
  run cmd args = do bs ← or_fatal (run_error cmd args); pure (trim_space bs)

  -- runPrint.
  unfoldable pub run_print : String → List String → Action W Unit
  run_print cmd args = unless_fatal (system.exec_run cmd args)

  -- rmr.
  unfoldable pub rmr : List String → W → W
  rmr [] w = w
  rmr (path ∷ paths) w = rmr paths (system.remove_all path w)

  -- verifyGitRepoIsClean.
  unfoldable pub verify_git_repo_is_clean : Action W Unit
  unfolding run_error
  verify_git_repo_is_clean = do
    rs ← or_fatal (run_error "git" ("ls-files" ∷ "--modified" ∷ []))
    if str_eq rs "" then pure tt else fail

  -- ChangeWorkingDir.
  unfoldable pub change_working_dir : String → W → W
  change_working_dir dir w = system.chdir dir w
