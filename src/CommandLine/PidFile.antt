-- ===== src/CommandLine/PidFile.antt =====
-- writePIDFile of pkg/main.go, and main, which calls it first.
pub mod Exits
use syncflux.Prelude.{ℕ, String, Option, none, some, str_eq, if◌then◌else◌}
use syncflux.Go.{Error, Action, pure}
use syncflux.Go.Strconv.{format_nat}
use syncflux.Go.Strings.{dir_of}
use syncflux.Go.Time.{Time}
use syncflux.Config.{Config}
use syncflux.Influx.{Points, Client}
use syncflux.Agent.Discovery.{Libraries}
use syncflux.CommandLine.InputTime.{Clock}
use syncflux.CommandLine.Prepare.{Times}
use syncflux.CommandLine.Settings.{Flags}
use syncflux.CommandLine.Dispatch.{Ended, exited, launch}

-- What it uses of packages os and ioutil.
pub record Files (W : Type 0) : Type 0 where
  pub mkdir_all : String → W → Option Error × W
  pub getpid : W → ℕ
  pub write_file : String → String → W → Option Error × W

-- writePIDFile; an error is the one that log.Fatal ends the program with.
unfoldable pub write_pid_file : {W : Type 0} → Files W → String → W → Option Error × W
unfolding dir_of format_nat
write_pid_file files pid_file w =
    if str_eq pid_file ""
    then (none, w)
    else (let (e, w') = files.mkdir_all (dir_of pid_file) w in
        elim e [
          | some x ↦ (some x, w')
          | none ↦ files.write_file pid_file (format_nat (files.getpid w')) w'
        ])

-- main. log.Fatal exits with 1.
unfoldable pub main_with :
    {P B C W : Type 0} (parse_float : String → ℕ) (api : Points P B) (client : Client C W B)
    (clock : W → Time) (libraries : Libraries)
    → Files W
    → String
    → (W → W)
    → Clock
    → Times
    → Flags
    → Config
    → String
    → String
    → ℕ
    → Action W (Ended C)
unfolding write_pid_file launch
main_with parse_float api client clock libraries files pid_file sleep parsers times flags config
      master slave rounds w =
    let (e, w') = write_pid_file files pid_file w in
    elim e [
      | some x ↦ pure (exited 1) w'
      | none ↦
          launch parse_float api client clock libraries sleep parsers times flags config master
            slave rounds w'
    ]
