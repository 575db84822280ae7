-- ===== src/BuildScript/Packages/Staged.antt =====
-- What is in the package root when createFpmPackage calls fpm.
use mathlib.Core.Path.{subst}
use syncflux.Prelude.{
  String, false, none, List, [], ◌∷◌, ◌++◌, ◌≡◌, refl, ap, inl, inr, str_eq, arith, if◌then◌else◌,
  All, Option-cases, Bool-cases,
}
use syncflux.Go.{Outcome-cases, Action, ret, ◌>>◌}
use syncflux.Go.Strings.{join, has_prefix}
use syncflux.BuildScript.{Globals, System, each, run_print}
use syncflux.BuildScript.Packages.{
  LinuxPackageOptions, depends_args, iteration_args, fpm_args, copy_files,
}

-- What the programs cp, mkdir and rm do to the files of a world, as their manuals say. What `rm -rf` is given as its
-- path it removes, and what lies below it.
pub record FileTools {W F H : Type 0} (system : System W F H) (has : W → String → Type 0)
    : Type 0 where
  pub cp_keeps :
      (args : List String) (w : W) (q : String) → has w q → has (system.exec_run "cp" args w).1 q
  pub cp_makes :
      (src dst : String) (w : W)
      → (system.exec_run "cp" (src ∷ dst ∷ []) w).0 ≡ none
      → has (system.exec_run "cp" (src ∷ dst ∷ []) w).1 dst
  pub cp_p_makes :
      (src dst : String) (w : W)
      → (system.exec_run "cp" ("-p" ∷ src ∷ dst ∷ []) w).0 ≡ none
      → has (system.exec_run "cp" ("-p" ∷ src ∷ dst ∷ []) w).1 dst
  pub rm_keeps :
      (p : String) (w : W) (q : String)
      → has_prefix q p ≡ false
      → has w q
      → has (system.exec_run "rm" ("-rf" ∷ p ∷ []) w).1 q

-- The values of the flag `--config-files` in arguments that are pairs of a flag and its value.
abbrev pub config_files : List String → List String
config_files [] = []
config_files (flag ∷ []) = []
config_files (flag ∷ value ∷ args) =
    let rest = config_files args in if str_eq flag "--config-files" then value ∷ rest else rest

config_files-depends_args : (deps : List String) → config_files (depends_args deps ++ "." ∷ []) ≡ []
unfolding depends_args
config_files-depends_args [] = refl
config_files-depends_args (dep ∷ deps) = config_files-depends_args deps

pub config_files-fpm_args :
    (g : Globals) (options : LinuxPackageOptions) (root : String)
    → config_files (fpm_args g options root)
      ≡ options.config_file_path ∷ options.initd_script_file_path ∷ options.etc_default_file_path
        ∷ options.systemd_service_file_path ∷ []
unfolding fpm_args iteration_args
config_files-fpm_args g options root = elim (Bool-cases (str_eq g.linux_package_iteration "")) [
  | inl e ↦ rw e (rw (config_files-depends_args options.depends) refl)
  | inr e ↦ rw e (rw (config_files-depends_args options.depends) refl)
]

-- The files that are staged before the `rm`, and the one after it.
abbrev pub early : LinuxPackageOptions → List String
early options =
    options.bin_path ∷ options.initd_script_file_path ∷ options.etc_default_file_path
    ∷ options.systemd_service_file_path ∷ []

-- The files of the package are not in the directory that is removed.
abbrev pub AreOutside : LinuxPackageOptions → String → Type 0
AreOutside options root =
    All
      (λ f. has_prefix (join (root ∷ f ∷ [])) (join (root ∷ options.home_dir ∷ "bin" ∷ [])) ≡ false)
      (early options)

-- Two steps that have ended well.
pub both_ran :
    {W : Type 0} (m n : Action W Unit) (w w' : W)
    → (m >> n) w ≡ (ret tt, w')
    → (v : W) × (m w ≡ (ret tt, v)) × (n v ≡ (ret tt, w'))
both_ran m n w w' e = elim (Outcome-cases (m w).0) [
  | inl x ↦ absurd (ground (arith, e, x))
  | inr (_, x) ↦ ((m w).1, ap (λ o. (o, (m w).1)) x, ground (arith, e, x))
]

-- Steps that have each ended well, one after the other.
abbrev AllRan : {W : Type 0} → List (Action W Unit) → W → W → Type 0
AllRan [] w w' = w ≡ w'
AllRan {W = W} (m ∷ ms) w w' = (v : W) × (m w ≡ (ret tt, v)) × AllRan ms v w'

each-AllRan :
    {W : Type 0} (ms : List (Action W Unit)) (w w' : W) → each ms w ≡ (ret tt, w') → AllRan ms w w'
unfolding each
each-AllRan [] w w' e = ap (λ r. r.1) e
each-AllRan (m ∷ ms) w w' e =
    let (v, one, rest) = both_ran m (each ms) w w' e in (v, one, each-AllRan ms v w' rest)

module _ {W F H : Type 0} (system : System W F H) where
  pub ran_well :
      (cmd : String) (args : List String) (w w' : W)
      → run_print system cmd args w ≡ (ret tt, w')
      → system.exec_run cmd args w ≡ (none, w')
  unfolding run_print
  ran_well cmd args w w' e = elim (Option-cases (system.exec_run cmd args w).0) [
    | inl x ↦ ground (arith, e, x)
    | inr (y, x) ↦ absurd (ground (arith, e, x))
  ]

  pub run_print-Returns :
      (cmd : String) (args : List String) (w : W)
      → (system.exec_run cmd args w).0 ≡ none
      → (run_print system cmd args w).0 ≡ ret tt
  unfolding run_print
  run_print-Returns cmd args w e = ground (arith, e)

module _ {W F H : Type 0} (system : System W F H) (has : W → String → Type 0)
    (tools : FileTools system has) where
  -- A copy that has ended well.
  copied :
      (src dst : String) (w w' : W)
      → run_print system "cp" ("-p" ∷ src ∷ dst ∷ []) w ≡ (ret tt, w')
      → ((q : String) → has w q → has w' q) × has w' dst
  copied src dst w w' e =
      let ran = ran_well system "cp" ("-p" ∷ src ∷ dst ∷ []) w w' e in
      let same = ap (λ r. r.1) ran in
      (
        λ q h. subst (λ v. has v q) same (tools.cp_keeps ("-p" ∷ src ∷ dst ∷ []) w q h),
        subst (λ v. has v dst) same (tools.cp_p_makes src dst w (ap (λ r. r.0) ran)),
      )

  copied_plainly :
      (src dst : String) (w w' : W)
      → run_print system "cp" (src ∷ dst ∷ []) w ≡ (ret tt, w')
      → ((q : String) → has w q → has w' q) × has w' dst
  copied_plainly src dst w w' e =
      let ran = ran_well system "cp" (src ∷ dst ∷ []) w w' e in
      let same = ap (λ r. r.1) ran in
      (
        λ q h. subst (λ v. has v q) same (tools.cp_keeps (src ∷ dst ∷ []) w q h),
        subst (λ v. has v dst) same (tools.cp_makes src dst w (ap (λ r. r.0) ran)),
      )

  removed :
      (p : String) (w w' : W)
      → run_print system "rm" ("-rf" ∷ p ∷ []) w ≡ (ret tt, w')
      → (q : String) → has_prefix q p ≡ false
      → has w q
      → has w' q
  removed p w w' e q out h =
      subst (λ v. has v q) (ap (λ r. r.1) (ran_well system "rm" ("-rf" ∷ p ∷ []) w w' e))
        (tools.rm_keeps p w q out h)

  pub copy_files_staged :
      (g : Globals) (options : LinuxPackageOptions) (root : String) (w w' : W)
      → AreOutside options root
      → each (copy_files system g options root) w ≡ (ret tt, w')
      → All (λ f. has w' (join (root ∷ f ∷ []))) (options.config_file_path ∷ early options)
  unfolding copy_files
  copy_files_staged g options root w w' (out1, (out2, (out3, (out4, _)))) e =
      let (w1, e1, (w2, e2, (w3, e3, (w4, e4, (w5, e5, (w6, e6, f6)))))) =
        each-AllRan (copy_files system g options root) w w' e in
      let (k1, bin) = copied _ _ w w1 e1 in
      let (k2, initd) = copied _ _ w1 w2 e2 in
      let (k3, default) = copied _ _ w2 w3 e3 in
      let (k4, systemd) = copied _ _ w3 w4 e4 in
      let k5 = removed _ w4 w5 e5 in
      let (k6, config) = copied_plainly _ _ w5 w6 e6 in
      let all : All (λ f. has w6 (join (root ∷ f ∷ [])))
          (options.config_file_path ∷ early options) =
        (
          config,
          (
            k6 _ (k5 _ out1 (k4 _ (k3 _ (k2 _ bin)))),
            (
              k6 _ (k5 _ out2 (k4 _ (k3 _ initd))),
              (k6 _ (k5 _ out3 (k4 _ default)), (k6 _ (k5 _ out4 systemd), tt)),
            ),
          ),
        ) in
      subst
        (λ v. All (λ f. has v (join (root ∷ f ∷ []))) (options.config_file_path ∷ early options)) f6
        all
