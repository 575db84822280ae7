-- ===== src/BuildScript/Sums.antt =====
-- The checksum files of build.go: md5File, sha1File and sha1FilesInDist.
use Prim.Native.String
use syncflux.Prelude.{String, true, false, Option, none, some, List, [], ◌∷◌}
use syncflux.Go.{Error, Result, ok, err}
use syncflux.Go.Strings.{contains}
use syncflux.BuildScript.{System}

-- A step whose error is returned at once.
abbrev attempt :
    {W A : Type 0} → (W → Result A × W) → (A → W → Option Error × W) → W → Option Error × W
attempt m f w = let (r, w') = m w in elim r [ ok a ↦ f a w' | err e ↦ (some e, w') ]

abbrev also : {W : Type 0} → (W → Option Error × W) → (W → Option Error × W) → W → Option Error × W
also m f w = let (e, w') = m w in elim e [ none ↦ f w' | some x ↦ (some x, w') ]

module _ {W F H : Type 0} (system : System W F H) where
  -- `defer fd.Close()`.
  abbrev closing : F → (W → Option Error × W) → W → Option Error × W
  closing fd m w = let (e, w') = m w in (e, (system.close fd w').1)

  -- What md5File and sha1File do, with their hash and suffix. The file that is written is closed only where all
  -- went well before.
  unfoldable sum_file : (F → W → Result H × W) → String → String → W → Option Error × W
  sum_file hash suffix file = attempt (system.open_file file) λ fd. closing fd (
      attempt (hash fd) λ h.
        attempt (system.create (String.◌++◌ file suffix))
          λ out. also (system.print_hex out h) (system.close out))

  -- md5File.
  unfoldable pub md5_file : String → W → Option Error × W
  unfolding sum_file
  md5_file = sum_file system.md5_of ".md5"

  -- sha1File.
  unfoldable pub sha1_file : String → W → Option Error × W
  unfolding sum_file
  sha1_file = sum_file system.sha1_of ".sha1"

  -- The function that sha1FilesInDist walks with, over the paths that the walk comes to. Its error is dropped.
  unfoldable pub sha1_files : List String → W → W
  unfolding sha1_file contains
  sha1_files [] w = w
  sha1_files (path ∷ paths) w = elim (contains path ".sha1") [
    | true ↦ sha1_files paths w
    | false ↦ sha1_files paths (sha1_file path w).1
  ]

  -- sha1FilesInDist. The names in a directory are read before the walk enters it, so the files that it makes there
  -- are not walked.
  unfoldable pub sha1_files_in_dist : W → W
  unfolding sha1_files
  sha1_files_in_dist w = sha1_files (system.walk "./dist" w) w
