-- ===== src/BuildScript/Commands.antt =====
-- main of build.go: the version, the flags, and the commands one after the other; and the two archives that are made
-- with other programs alone.
pub mod Unknown
use Prim.Native.String
use syncflux.Prelude.{String, Bool, true, false, List, [], ◌∷◌, str_eq, if◌then◌else◌}
use syncflux.Go.{Result, ok, err, Action, pure, fail, ◌>>=◌, ◌>>◌}
use syncflux.Go.Text.{concat}
use syncflux.Go.Strings.{join}
use syncflux.BuildScript.{Globals, System, initial_globals, each, step, run_error, run_print}
use syncflux.BuildScript.Version.{read_version_from_git}
use syncflux.BuildScript.Sums.{sha1_files_in_dist}
use syncflux.BuildScript.Packages.{
  package_root_of, create_deb_packages, create_rpm_packages, create_linux_packages,
}
use syncflux.BuildScript.Compile.{ensure_go_path, get_git_sha, build, test, setup, clean}

-- What package flag makes of the command line; where a flag is not given it has its default, the machine's own
-- system and architecture, and no race detector.
pub record BuildFlags : Type 0 where
  pub goarch : String
  pub goos : String
  pub race : Bool
  pub args : List String

module _ {W F H : Type 0} (system : System W F H) (replace : String → String)
    (runtime_goos runtime_goarch : String) where
  -- createMinTar.
  unfoldable pub create_min_tar : Globals → Action W Unit
  unfolding package_root_of run_print each get_git_sha join
  create_min_tar g w =
      let (r, w') = system.temp_dir "syncflux-linux-pack" w in
      let package_root = package_root_of r in
      let at : String → String = λ (dir : String). join (package_root ∷ dir ∷ []) in
      (each (
            run_print system "mkdir" ("-p" ∷ at "/opt/syncflux" ∷ [])
            ∷ run_print system "mkdir" ("-p" ∷ at "/opt/syncflux/conf" ∷ [])
            ∷ run_print system "mkdir" ("-p" ∷ at "/opt/syncflux/bin" ∷ [])
            ∷ run_print system "mkdir" ("-p" ∷ at "/opt/syncflux/log" ∷ [])
            ∷ run_print system "cp" ("conf/sample.syncflux.toml" ∷ at "/opt/syncflux/conf" ∷ [])
            ∷ run_print system "cp" ("bin/syncflux" ∷ at "/opt/syncflux/bin" ∷ [])
            ∷ run_print system "cp" ("bin/syncflux.md5" ∷ at "/opt/syncflux/bin" ∷ [])
            ∷ [])
          >> λ v.
              let (sha, v') = get_git_sha system replace v in
              let tarname = concat (
                "dist/syncflux-" ∷ g.version ∷ "-" ∷ sha ∷ "_" ∷ runtime_goos ∷ "_" ∷ runtime_goarch
                ∷ ".tar.gz" ∷ []) in
              (run_print system "tar" ("zcvf" ∷ tarname ∷ "-C" ∷ package_root ∷ "." ∷ [])
                  >> run_print system "rm" ("-rf" ∷ package_root ∷ []))
                v')
        w'

  -- makeLatestDistCopies. The errors of the copies are dropped.
  unfoldable pub make_latest_dist_copies : Globals → W → W
  unfolding run_error
  make_latest_dist_copies g w =
      let rpm_iteration =
        if str_eq g.linux_package_iteration ""
        then "-1"
        else String.◌++◌ "-" g.linux_package_iteration in
      let deb = concat ("dist/syncflux_" ∷ g.version ∷ "_amd64.deb" ∷ []) in
      let rpm =
        concat ("dist/syncflux-" ∷ g.linux_package_version ∷ rpm_iteration ∷ ".x86_64.rpm" ∷ []) in
      let tar = concat ("dist/syncflux-" ∷ g.version ∷ ".linux-x64.tar.gz" ∷ []) in
      let w1 = (run_error system "cp" (deb ∷ "dist/syncflux_latest_amd64.deb" ∷ []) w).1 in
      let w2 = (run_error system "cp" (rpm ∷ "dist/syncflux-latest-1.x86_64.rpm" ∷ []) w1).1 in
      (run_error system "cp" (tar ∷ "dist/syncflux-latest.linux-x64.tar.gz" ∷ []) w2).1

  -- A packing command: `os.Mkdir("./dist", 0755)`, the packages, and the checksums of what is there.
  unfoldable pub packed : Action W Unit → Action W Unit
  unfolding sha1_files_in_dist
  packed pack = step (system.mkdir "./dist") >> pack >> step (sha1_files_in_dist system)

  -- The switch on a command.
  unfoldable pub run_command : Globals → String → Action W Unit
  unfolding packed create_min_tar make_latest_dist_copies create_deb_packages create_rpm_packages
      create_linux_packages build test setup clean sha1_files_in_dist
  run_command g cmd =
      if str_eq cmd "setup"
      then setup system
      else if str_eq cmd "build"
      then step (clean system g) >> build system replace g "./pkg/" [] []
      else if str_eq cmd "build-static"
      then step (clean system g)
        >> build system replace g "./pkg/" []
            ("-linkmode" ∷ "external" ∷ "-extldflags" ∷ "-static" ∷ [])
      else if str_eq cmd "test"
      then test system g "./pkg/..."
      else if str_eq cmd "package"
      then packed (create_linux_packages system g)
      else if str_eq cmd "pkg-min-tar"
      then packed (create_min_tar g)
      else if str_eq cmd "pkg-rpm"
      then packed (create_rpm_packages system g)
      else if str_eq cmd "pkg-deb"
      then packed (create_deb_packages system g)
      else if str_eq cmd "sha1-dist"
      then step (sha1_files_in_dist system)
      else if str_eq cmd "latest"
      then packed (create_linux_packages system g >> step (make_latest_dist_copies g))
      else if str_eq cmd "clean"
      then step (clean system g)
      else fail

  -- The loop over the commands.
  unfoldable pub run_commands : Globals → List String → Action W Unit
  unfolding run_command
  run_commands g [] w = pure tt w
  run_commands g (cmd ∷ cmds) w = (run_command g cmd >> run_commands g cmds) w

  -- `workingDir, _ = os.Getwd()`: an error leaves the empty text.
  unfoldable pub working_dir_of : Result String → String
  working_dir_of (ok dir) = dir
  working_dir_of (err e) = ""

  -- main.
  unfoldable pub main : BuildFlags → Action W Unit
  unfolding ensure_go_path read_version_from_git run_commands working_dir_of initial_globals
  main flags = ensure_go_path system >> read_version_from_git system initial_globals >>= λ g v.
      elim flags.args [
        | [] ↦ pure tt v
        | cmd ∷ cmds ↦
            let set : Globals = record g {
              goarch = flags.goarch;
              goos = flags.goos;
              race = flags.race;
              working_dir = working_dir_of (system.getwd v);
            } in
            run_commands set (cmd ∷ cmds) v
      ]
