-- ===== src/BuildScript/Packages/Shipped.antt =====
-- createFpmPackage as a whole.
use mathlib.Core.Path.{subst}
use syncflux.Prelude.{String, none, List, [], ◌∷◌, ◌≡◌, refl, sym, arith, All}
use syncflux.Go.{Action, ret, ◌>>◌}
use syncflux.Go.Strings.{join}
use syncflux.BuildScript.{Globals, System, each, run_print}
use syncflux.BuildScript.Packages.{
  LinuxPackageOptions, package_root_of, fpm_args, create_directories, copy_files,
  create_fpm_package,
}
use syncflux.BuildScript.Packages.Staged.{
  FileTools, AreOutside, config_files, config_files-fpm_args, both_ran, ran_well, run_print-Returns,
  copy_files_staged,
}

-- Programs that all end well.
abbrev pub NoneFails : {W F H : Type 0} → System W F H → Type 0
NoneFails {W = W} system =
    (cmd : String) (args : List String) (w : W) → (system.exec_run cmd args w).0 ≡ none

module _ {W F H : Type 0} (system : System W F H) (well : NoneFails system) where
  both_return :
      (m n : Action W Unit)
      → ((w : W) → (m w).0 ≡ ret tt)
      → ((w : W) → (n w).0 ≡ ret tt)
      → (w : W) → ((m >> n) w).0 ≡ ret tt
  both_return m n hm hn w = ground (arith, hm w, hn (m w).1)

  printed : (cmd : String) (args : List String) (w : W) → (run_print system cmd args w).0 ≡ ret tt
  printed cmd args w = run_print-Returns system cmd args w (well cmd args w)

  each-Returns :
      (ms : List (Action W Unit))
      → All (λ m. (w : W) → (m w).0 ≡ ret tt) ms
      → (w : W) → (each ms w).0 ≡ ret tt
  unfolding each
  each-Returns [] h w = refl
  each-Returns (m ∷ ms) (h, hs) w = both_return m (each ms) h (each-Returns ms hs) w

  create_fpm_package-Returns :
      (g : Globals) (options : LinuxPackageOptions) (w : W)
      → (create_fpm_package system g options w).0 ≡ ret tt
  unfolding create_fpm_package create_directories copy_files
  create_fpm_package-Returns g options w =
      let root = package_root_of (system.temp_dir "syncflux-linux-pack" w).0 in
      let dirs = create_directories system options root in
      let files = copy_files system g options root in
      let made = each-Returns dirs (
        printed _ _,
        (printed _ _, (printed _ _, (printed _ _, (printed _ _, (printed _ _, tt))))),
      ) in
      let staged = each-Returns files (
        printed _ _,
        (printed _ _, (printed _ _, (printed _ _, (printed _ _, (printed _ _, tt))))),
      ) in
      both_return (each dirs >> each files) (run_print system "fpm" (fpm_args g options root))
        (both_return (each dirs) (each files) made staged) (printed "fpm" (fpm_args g options root))
        _

-- createFpmPackage returns where none of the programs that it runs fails. Where it returns, it has run fpm last, and
-- when fpm was started each file that its arguments name by `--config-files`, and the binary, was in the package root,
-- if the files to be staged there are not in the directory `bin` of the package's home directory, which is removed.
pub create_fpm_package_lem :
    {W F H : Type 0} (system : System W F H) (has : W → String → Type 0)
    (tools : FileTools system has) (g : Globals) (options : LinuxPackageOptions) (w : W)
    → let root = package_root_of (system.temp_dir "syncflux-linux-pack" w).0 in
      AreOutside options root
      → (NoneFails system → (create_fpm_package system g options w).0 ≡ ret tt)
        × ((w'' : W)
            → create_fpm_package system g options w ≡ (ret tt, w'')
            → (w' : W) × (system.exec_run "fpm" (fpm_args g options root) w' ≡ (none, w''))
              × All
                  (λ f. has w' (join (root ∷ f ∷ [])))
                  (options.bin_path ∷ config_files (fpm_args g options root)))
unfolding create_fpm_package
create_fpm_package_lem system has tools g options w outside =
    let root = package_root_of (system.temp_dir "syncflux-linux-pack" w).0 in
    let w0 = (system.temp_dir "syncflux-linux-pack" w).1 in
    (
      λ well. create_fpm_package-Returns system well g options w,
      λ w'' e.
          let dirs = create_directories system options root in
          let files = copy_files system g options root in
          let (w2, e2, last) =
            both_ran (each dirs >> each files) (run_print system "fpm" (fpm_args g options root)) w0
              w'' e in
          let (w1, e1, staged) = both_ran (each dirs) (each files) w0 w2 e2 in
          let (config, (bin, rest)) =
            copy_files_staged system has tools g options root w1 w2 outside staged in
          let (initd, (default, (systemd, _))) = rest in
          (
            w2,
            ran_well system "fpm" (fpm_args g options root) w2 w'' last,
            subst (λ fs. All (λ f. has w2 (join (root ∷ f ∷ []))) (options.bin_path ∷ fs))
                (sym (config_files-fpm_args g options root))
                (bin, (config, (initd, (default, (systemd, tt))))),
          ),
    )
