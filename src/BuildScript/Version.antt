-- ===== src/BuildScript/Version.antt =====
-- The version in build.go: read from git, the changelog or package.json, and cut for the packages.
pub mod Parts
use syncflux.Prelude.{String, Option, none, some, List, [], ◌∷◌}
use syncflux.Go.{Action, Result, pure, ◌>>=◌, ◌>>◌}
use syncflux.Go.Strings.{split, trim_space}
use syncflux.BuildScript.{Globals, System, or_fatal, step}

-- The version and the iteration of a package whose version is in these parts: of two or more, the first two.
unfoldable pub package_parts : String → List String → String × String
package_parts version (a ∷ b ∷ parts) = (a, b)
package_parts version parts = (version, "")

-- What the three readers do with a version.
unfoldable pub set_version : String → Globals → Globals
unfolding package_parts split
set_version version g =
    let (linux, iteration) = package_parts version (split "-" version) in
    record g {
      version = version;
      linux_package_version = linux;
      linux_package_iteration = iteration;
    }

module _ {W F H : Type 0} (system : System W F H) where
  -- The output of a line for bash, as the version.
  unfoldable version_of_output : String → Globals → Action W Globals
  unfolding set_version trim_space
  version_of_output cmd g = do
    out ← or_fatal (system.exec_output "bash" ("-c" ∷ cmd ∷ []))
    pure (set_version (trim_space out) g)

  -- readVersionFromGit.
  unfoldable pub read_version_from_git : Globals → Action W Globals
  unfolding version_of_output
  read_version_from_git = version_of_output "git describe --abbrev=0 --tag"

  -- readVersionFromChangelog.
  unfoldable pub read_version_from_changelog : Globals → Action W Globals
  unfolding version_of_output
  read_version_from_changelog =
      version_of_output
        "grep ' *v *[0-9]*\\.[0-9]*\\.[0-9]' CHANGELOG.md | sed 's/# v *\\([0-9]*\\.[0-9]*\\.[0-9]\\) .*/\\1/g'| head -1"

  -- readVersionFromPackageJson, where `version_in` decodes the file, an error where it is no JSON object with a
  -- text under `version`.
  unfoldable pub read_version_from_package_json :
      (F → W → Result String × W) → Globals → Action W Globals
  unfolding set_version
  read_version_from_package_json version_in g = do
    reader ← or_fatal (system.open_file "package.json")
    v ← or_fatal (version_in reader)
    step (λ w. (system.close reader w).1)
    pure (set_version v g)
