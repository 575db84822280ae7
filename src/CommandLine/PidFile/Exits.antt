-- ===== src/CommandLine/PidFile/Exits.antt =====
-- The exits of main.
use syncflux.Prelude.{arith, ℕ, ◌≡◌, ◌≢◌, ◌↔◌, ◌⊎◌, inl, inr, String, Option-cases, none, eq_iff}
use syncflux.Go.{ret}
use syncflux.Go.Time.{Time}
use syncflux.Go.Strconv.{format_nat}
use syncflux.Go.Strings.{dir_of}
use syncflux.Config.{Config}
use syncflux.Influx.{Points, Client}
use syncflux.Agent.Discovery.{Libraries}
use syncflux.CommandLine.InputTime.{Clock, parse_input_time}
use syncflux.CommandLine.Prepare.{Times}
use syncflux.CommandLine.Settings.{Flags}
use syncflux.CommandLine.Dispatch.{exited}
use syncflux.CommandLine.Dispatch.Exits.{IsBad, launch_exits}
use syncflux.CommandLine.PidFile.{Files, write_pid_file, main_with}

-- A PID file is asked for and cannot be written: its directory cannot be made, or the write of the process id fails.
abbrev pub IsUnwritable : {W : Type 0} → Files W → String → W → Type 0
IsUnwritable files pid_file w =
    let (e, w') = files.mkdir_all (dir_of pid_file) w in
    (pid_file ≢ "")
    × ((e ≢ none)
        ⊎ ((e ≡ none) × ((files.write_file pid_file (format_nat (files.getpid w')) w').0 ≢ none)))

write_pid_file-IsUnwritable :
    {W : Type 0} (files : Files W) (pid_file : String) (w : W)
    → ((write_pid_file files pid_file w).0 ≢ none) ↔ IsUnwritable files pid_file w
unfolding write_pid_file
write_pid_file-IsUnwritable files pid_file w =
    ground (arith, eq_iff pid_file "", Option-cases ((files.mkdir_all (dir_of pid_file) w).0))

module _ {P B C W : Type 0} (parse_float : String → ℕ) (api : Points P B) (client : Client C W B)
    (clock : W → Time) (libraries : Libraries) (files : Files W) where
  -- main, after init has settled the flags and the configuration and apart from signals, exits with 1 exactly where the PID file is asked for
  -- and cannot be written, or the end, the start or the chunk is given as a text that cannot be parsed. It has tried to
  -- write the PID file then and no more.
  pub main_with_exits :
      (pid_file : String) (sleep : W → W) (parsers : Clock) (times : Times) (flags : Flags)
      (config : Config) (master slave : String) (rounds : ℕ) (w : W)
      → let run =
          main_with parse_float api client clock libraries files pid_file sleep parsers times flags
            config master slave rounds w in
        let bad =
          IsUnwritable files pid_file w
          ⊎ (IsBad (parse_input_time parsers) flags.end
              ⊎ (IsBad (parse_input_time parsers) flags.start
                  ⊎ IsBad parsers.parse_duration flags.chunk)) in
        ((run.0 ≡ ret (exited 1)) ↔ bad) × (bad → run.1 ≡ (write_pid_file files pid_file w).1)
  unfolding main_with
  main_with_exits pid_file sleep parsers times flags config master slave rounds w =
      let unwritable = write_pid_file-IsUnwritable files pid_file w in
      let launched =
        launch_exits parse_float api client clock libraries sleep parsers times flags config master
          slave rounds (write_pid_file files pid_file w).1 in
      elim (Option-cases ((write_pid_file files pid_file w).0)) [
        | inl e ↦ ground (arith, e, unwritable, launched)
        | inr (x, e) ↦ ground (arith, e, unwritable)
      ]
