-- ===== src/BuildScript/Commands/Unknown.antt =====
-- A command line of build.go with a command that it does not know.
use syncflux.Prelude.{
  String, false, List, [], ◌∷◌, ◌++◌, ◌≡◌, refl, ap, ◌∙◌, inl, inr, str_eq, arith, All,
}
use syncflux.Go.{Outcome-cases, ret, panic}
use syncflux.BuildScript.{Globals, System}
use syncflux.BuildScript.Commands.{run_command, run_commands}

-- The commands.
abbrev pub names : List String
names =
    "setup" ∷ "build" ∷ "build-static" ∷ "test" ∷ "package" ∷ "pkg-min-tar" ∷ "pkg-rpm" ∷ "pkg-deb"
    ∷ "sha1-dist" ∷ "latest" ∷ "clean" ∷ []

abbrev pub IsUnknown : String → Type 0
IsUnknown cmd = All (λ name. str_eq cmd name ≡ false) names

module _ {W F H : Type 0} (system : System W F H) (replace : String → String)
    (runtime_goos runtime_goarch : String) (g : Globals) where
  run_command_unknown :
      (cmd : String) (w : W)
      → IsUnknown cmd
      → run_command system replace runtime_goos runtime_goarch g cmd w ≡ (panic, w)
  unfolding run_command
  run_command_unknown cmd w (a, (b, (c, (d, (e, (f, (h, (i, (j, (k, (l, _))))))))))) =
      rw (a, b, c, d, e, f, h, i, j, k, l) refl

  -- Commands one after the other: the first ones, and then the others where these have ended well.
  run_commands-append :
      (xs ys : List String) (w w' : W)
      → run_commands system replace runtime_goos runtime_goarch g xs w ≡ (ret tt, w')
      → run_commands system replace runtime_goos runtime_goarch g (xs ++ ys) w
        ≡ run_commands system replace runtime_goos runtime_goarch g ys w'
  unfolding run_commands
  run_commands-append [] ys w w' ran =
      ap (run_commands system replace runtime_goos runtime_goarch g ys) (ap (λ r. r.1) ran)
  run_commands-append (x ∷ xs) ys w w' ran =
      let one = run_command system replace runtime_goos runtime_goarch g x w in
      elim (Outcome-cases one.0) [
        | inl e ↦ absurd (ground (arith, ran, e))
        | inr (_, e) ↦
            let rest = run_commands-append xs ys (one.1) w' (ground (arith, ran, e)) in
            ground (arith, e, rest)
      ]

  -- A command that is not one of the eleven ends the script where its turn comes: what the commands before it have
  -- done stays done, and those after it do nothing.
  pub run_commands_unknown :
      (xs ys : List String) (cmd : String) (w w' : W)
      → run_commands system replace runtime_goos runtime_goarch g xs w ≡ (ret tt, w')
      → IsUnknown cmd
      → run_commands system replace runtime_goos runtime_goarch g (xs ++ cmd ∷ ys) w ≡ (panic, w')
  unfolding run_commands
  run_commands_unknown xs ys cmd w w' ran unknown =
      run_commands-append xs (cmd ∷ ys) w w' ran
      ∙ ground (arith, run_command_unknown cmd w' unknown)
