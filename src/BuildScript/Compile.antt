-- ===== src/BuildScript/Compile.antt =====
-- What build.go does to build and to test: the environment, the flags of the linker, and go itself.
use Prim.Native.String
use syncflux.Prelude.{ℤ, String, List, [], ◌∷◌, ◌++◌, length, ltb, str_eq, if◌then◌else◌}
use syncflux.Go.{ok, err, Action, pure, ◌>>=◌, ◌>>◌}
use syncflux.Go.Text.{concat}
use syncflux.Go.Strings.{has_prefix, drop, join, join_with, clean_path}
use syncflux.Go.Strconv.{parse_int, format_int}
use syncflux.BuildScript.{Globals, System, or_fatal, unless_fatal, step, run_error, run_print, rmr}
use syncflux.BuildScript.Sums.{md5_file}

-- buildArch.
unfoldable pub build_arch : Globals → String
build_arch g = concat ((if str_eq g.goos "darwin" then "macosx" else g.goos) ∷ "-" ∷ g.goarch ∷ [])

-- The name of the binary in build.
unfoldable pub binary_of : Globals → String
binary_of g =
    let binary = String.◌++◌ "./bin/" g.server_binary_name in
    if str_eq g.goos "windows" then String.◌++◌ binary ".exe" else binary

-- The flags after the fixed ones in ldflags.
unfoldable pub more_flags : List String → String
more_flags [] = ""
more_flags (f ∷ flags) = String.◌++◌ " " (String.◌++◌ f (more_flags flags))

module _ {W F H : Type 0} (system : System W F H) where
  -- ensureGoPath.
  unfoldable pub ensure_go_path : Action W Unit
  unfolding clean_path join
  ensure_go_path w =
      if str_eq (system.getenv "GOPATH" w) ""
      then (or_fatal (λ v. (system.getwd v, v)) >>= λ cwd.
            step (system.setenv "GOPATH" (clean_path (join (cwd ∷ "../../../../" ∷ [])))))
          w
      else pure tt w

  -- setBuildEnv.
  unfoldable pub set_build_env : Globals → W → W
  unfolding has_prefix drop
  set_build_env g w =
      let w1 = system.setenv "GOOS" g.goos w in
      let w2 =
        if has_prefix g.goarch "armv"
        then system.setenv "GOARM" (drop 4 g.goarch) (system.setenv "GOARCH" "arm" w1)
        else system.setenv "GOARCH" g.goarch w1 in
      if str_eq g.goarch "386" then system.setenv "GO386" "387" w2 else w2

  -- getGitSha, where `replace` is versionRe.ReplaceAllFunc with its function.
  unfoldable pub get_git_sha : (String → String) → W → String × W
  unfolding run_error
  get_git_sha replace w =
      let (r, w') = run_error system "git" ("rev-parse" ∷ "--short" ∷ "HEAD" ∷ []) w in
      (elim r [ ok v ↦ replace v | err e ↦ "unknown-dev" ], w')

  -- buildStamp.
  unfoldable pub build_stamp : W → ℤ × W
  unfolding run_error parse_int
  build_stamp w =
      let (r, w') = run_error system "git" ("show" ∷ "-s" ∷ "--format=%ct" ∷ []) w in
      (elim r [ ok bs ↦ (parse_int bs 64).0 | err e ↦ system.now w' ], w')

  -- ldflags.
  unfoldable pub ldflags : (String → String) → Globals → List String → W → String × W
  unfolding get_git_sha build_stamp more_flags
  ldflags replace g flags w =
      let (sha, w1) = get_git_sha replace w in
      let (stamp, w2) = build_stamp w1 in
      (
        concat (
            "-w"
            ∷ " -X github.com/toni-moreno/syncflux/pkg/agent.Version="
            ∷ g.version
            ∷ " -X github.com/toni-moreno/syncflux/pkg/agent.Commit="
            ∷ sha
            ∷ " -X github.com/toni-moreno/syncflux/pkg/agent.BuildStamp="
            ∷ format_int stamp
            ∷ more_flags flags
            ∷ []),
        w2,
      )

  -- The arguments of `go build`.
  unfoldable pub build_args : Globals → String → List String → String → List String
  unfolding binary_of join_with
  build_args g flags tags pkg =
      ("build" ∷ "-ldflags" ∷ flags ∷ [])
      ++ (if ltb 0 (length tags) then "-tags" ∷ join_with "," tags ∷ [] else [])
      ++ (if g.race then "-race" ∷ [] else [])
      ++ "-v" ∷ "-o" ∷ binary_of g ∷ pkg ∷ []

  -- build.
  unfoldable pub build :
      (String → String) → Globals → String → List String → List String → Action W Unit
  unfolding rmr ldflags build_args set_build_env run_print md5_file
  build replace g pkg tags flags w =
      let binary = binary_of g in
      let w1 = rmr system (binary ∷ String.◌++◌ binary ".md5" ∷ []) w in
      let (linker, w2) = ldflags replace g flags w1 in
      (run_print system "go" ("version" ∷ [])
          >> run_print system "go" (build_args g linker tags pkg)
          >> unless_fatal (md5_file system binary))
        (set_build_env g w2)

  -- test.
  unfoldable pub test : Globals → String → Action W Unit
  unfolding set_build_env run_print
  test g pkg w =
      run_print system "go" ("test" ∷ "-short" ∷ "-timeout" ∷ "60s" ∷ pkg ∷ []) (set_build_env g w)

  -- setup.
  unfoldable pub setup : Action W Unit
  unfolding run_print
  setup =
      run_print system "go" ("get" ∷ "-v" ∷ "github.com/tools/godep" ∷ [])
      >> run_print system "go" ("get" ∷ "-v" ∷ "github.com/blang/semver" ∷ [])

  -- clean.
  unfoldable pub clean : Globals → W → W
  unfolding rmr join
  clean g w =
      let cache =
        concat ("pkg/" ∷ g.goos ∷ "_" ∷ g.goarch ∷ "/github.com/toni-moreno/syncflux" ∷ []) in
      rmr system (join (system.getenv "GOPATH" w ∷ cache ∷ []) ∷ []) w
