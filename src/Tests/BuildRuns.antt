-- ===== src/Tests/BuildRuns.antt =====
-- Runs of the build script on a small system, whose world is the list of the files that have been made.
use syncflux.Prelude.{
  String, Bool, true, false, ◌||◌, none, List, [], ◌∷◌, ◌≡◌, refl, ap, ◌∙◌, inl, inr, pos, str_eq,
  eq_iff, arith, if◌then◌else◌, All, Bool-cases,
}
use syncflux.Go.{ok}
use syncflux.Go.Strings.{
  join, clean_path, clean_from, reversed, join_with, has_prefix, split, prepend,
}
use syncflux.BuildScript.{System, initial_globals}
use syncflux.BuildScript.Packages.{deb_options, create_fpm_package, fpm_args, package_root_of}
use syncflux.BuildScript.Version.{set_version, package_parts}
use syncflux.BuildScript.Version.Parts.{AreParts, set_version_lem}
use syncflux.BuildScript.Packages.Shipped.{create_fpm_package_lem}
use syncflux.BuildScript.Packages.Staged.{FileTools, AreOutside, config_files}

abbrev listed : List String → String → Bool
listed [] q = false
listed (f ∷ w) q = str_eq f q || listed w q

abbrev removed : String → List String → List String
removed p [] = []
removed p (f ∷ w) = if has_prefix f p then removed p w else f ∷ removed p w

abbrev copied_to : List String → List String → List String
copied_to (src ∷ dst ∷ []) w = dst ∷ w
copied_to (flag ∷ src ∷ dst ∷ []) w = dst ∷ w
copied_to _ w = w

abbrev removed_by : List String → List String → List String
removed_by (flag ∷ p ∷ []) w = removed p w
removed_by _ w = w

abbrev system : System (List String) Unit Unit
system = record {
  getenv = λ name w. "";
  setenv = λ name value w. w;
  getwd = λ w. ok "/src";
  chdir = λ dir w. w;
  mkdir = λ dir w. w;
  temp_dir = λ prefix w. (ok "/tmp/pack", w);
  remove_all = λ path w. w;
  exec_run = λ cmd args w. (
    none,
    if str_eq cmd "cp" then copied_to args w else if str_eq cmd "rm" then removed_by args w else w,
  );
  exec_output = λ cmd args w. (ok "v1.2-rc1-3\n", w);
  exec_combined_output = λ cmd args w. (ok "abc", w);
  now = λ w. pos 0;
  walk = λ dir w. [];
  open_file = λ file w. (ok tt, w);
  md5_of = λ f w. (ok tt, w);
  sha1_of = λ f w. (ok tt, w);
  create = λ file w. (ok tt, w);
  print_hex = λ f h w. (none, w);
  close = λ f w. (none, w);
}

abbrev Has : List String → String → Type 0
Has w q = listed w q ≡ true

listed-copied_to : (args w : List String) (q : String) → Has w q → Has (copied_to args w) q
listed-copied_to [] w q h = h
listed-copied_to (a ∷ []) w q h = h
listed-copied_to (a ∷ b ∷ []) w q h = ground (arith, h)
listed-copied_to (a ∷ b ∷ c ∷ []) w q h = ground (arith, h)
listed-copied_to (a ∷ b ∷ c ∷ d ∷ args) w q h = h

listed-removed :
    (p : String) (w : List String) (q : String)
    → has_prefix q p ≡ false
    → Has w q
    → Has (removed p w) q
listed-removed p [] q out h = absurd (ground (arith, h))
listed-removed p (f ∷ w) q out h = elim (Bool-cases (str_eq f q)) [
  | inl same ↦
      let e : f ≡ q = (eq_iff _ _).0 same in ground (arith, ap (λ x. has_prefix x p) e ∙ out, same)
  | inr other ↦
      let rest = listed-removed p w q out (ground (arith, h, other)) in
      elim (Bool-cases (has_prefix f p)) [
        | inl gone ↦ ground (arith, gone, rest)
        | inr kept ↦ ground (arith, kept, rest)
      ]
]

listed_head : (q : String) (w : List String) → Has (q ∷ w) q
listed_head q w = ground (arith, (eq_iff q q).1 refl)

tools : FileTools system Has
tools = record {
  cp_keeps = λ args w q h. listed-copied_to args w q h;
  cp_makes = λ src dst w e. listed_head dst w;
  cp_p_makes = λ src dst w e. listed_head dst w;
  rm_keeps = λ p w q out h. listed-removed p w q out h;
}

outside : AreOutside deb_options "/tmp/pack"
unfolding deb_options join clean_path clean_from reversed join_with has_prefix split prepend
outside = (refl, (refl, (refl, (refl, tt))))

abbrev packed : List String
packed = (create_fpm_package system initial_globals deb_options []).1

create_fpm_package_lem_example :
    (w' : List String) × (system.exec_run "fpm"
        (fpm_args initial_globals deb_options "/tmp/pack")
        w'
      ≡ (none, packed))
    × All
        (λ f. Has w' (join ("/tmp/pack" ∷ f ∷ [])))
        (deb_options.bin_path ∷ config_files (fpm_args initial_globals deb_options "/tmp/pack"))
unfolding create_fpm_package package_root_of
create_fpm_package_lem_example =
    (create_fpm_package_lem system Has tools initial_globals deb_options [] outside).1 packed refl

set_version_lem_example :
    let g = set_version "1.2-rc1-3" initial_globals in
    (g.version ≡ "1.2-rc1-3")
    × AreParts "1.2-rc1-3" (g.linux_package_version, g.linux_package_iteration)
set_version_lem_example = set_version_lem "1.2-rc1-3" initial_globals

-- The third part is dropped.
iteration_cut :
    let g = set_version "1.2-rc1-3" initial_globals in
    (g.linux_package_version ≡ "1.2") × (g.linux_package_iteration ≡ "rc1")
unfolding set_version package_parts split prepend
iteration_cut = (refl, refl)

abbrev replace : String → String
replace sha = sha
