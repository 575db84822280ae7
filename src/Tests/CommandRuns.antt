-- ===== src/Tests/CommandRuns.antt =====
-- Runs of the command line.
use syncflux.Prelude.{
  ◌∷◌, arith, ◌+ℤ◌, ◌-ℤ◌, ◌+◌, eq_iff, ◌≡◌, refl, Bool, false, ◌^◌, String, Option, none, some,
  List, [], map, pos, inl,
}
use syncflux.Go.{ret, ok, Result, Outcome}
use syncflux.Agent.Schema.{InfluxSchDb}
use syncflux.Agent.Cluster.{HaCluster}
use syncflux.Agent.Actions.{discover}
use syncflux.Agent.Actions.Schemas.{renamed_entry}
use syncflux.Agent.Startup.{init_cluster}
use syncflux.Go.Strconv.{format_int}
use syncflux.CommandLine.PidFile.{Files, write_pid_file, main_with}
use syncflux.CommandLine.PidFile.Exits.{main_with_exits}
use syncflux.CommandLine.InputTime.{Clock, parse_input_time}
use syncflux.CommandLine.InputTime.Seconds.{parse_input_time_seconds}
use syncflux.CommandLine.Settings.{Flags, default_flags}
use syncflux.CommandLine.Prepare.{Times, initial_times, Prepared, prepare, override}
use syncflux.CommandLine.Prepare.Defaults.{default_span_lem}
use syncflux.Agent.Chunks.{h_length}
use syncflux.CommandLine.Dispatch.{exited}
use syncflux.CommandLine.Signals.{sighup, sigterm, started, receive_all}
use syncflux.CommandLine.Signals.Received.{receive_all_lem}
use syncflux.Tests.StartRuns.{config}
use syncflux.Tests.Toy.{
  World, cluster, world, client, clock, libraries, points_api, parse_float, refused,
}

-- Parsers that take one text each.
abbrev parsers : Clock
parsers = record { parse_duration = λ t. none; parse_rfc3339 = λ t. none; now = pos 0 }

parse_input_time_seconds_example :
    parse_input_time parsers (format_int (pos (2 ^ 31)))
    ≡ parsers.parse_rfc3339 (format_int (pos (2 ^ 31)))
parse_input_time_seconds_example =
    (parse_input_time_seconds parsers (pos (2 ^ 31))).1 (omega arith) (omega arith)

abbrev flags : Flags
flags = record (default_flags (λ a b. b) "") { action = "fullcopy"; newdb = "copy" }

abbrev times : Times
times = record { start = pos 0; end = pos 1 }

abbrev prepared : Option Prepared → Prepared
prepared (some p) = p
prepared none = record {
  config = config;
  span = record { start = pos 0; end = pos 0; full = false };
}

default_span_lem_example :
    ((prepared (
        prepare parsers (initial_times (pos 100_000) (pos 100_000 +ℤ pos 5)) flags config)).span.end
      ≡ pos 100_000 +ℤ pos 5)
    × ((prepared (
          prepare parsers
            (initial_times (pos 100_000) (pos 100_000 +ℤ pos 5))
            flags
            config)).span.start
        ≡ (prepared (
            prepare parsers
              (initial_times (pos 100_000) (pos 100_000 +ℤ pos 5))
              flags
              config)).span.end
          -ℤ pos (86400 + 5))
    × (h_length
          (prepared (
            prepare parsers
              (initial_times (pos 100_000) (pos 100_000 +ℤ pos 5))
              flags
              config)).span.start
          (prepared (
            prepare parsers
              (initial_times (pos 100_000) (pos 100_000 +ℤ pos 5))
              flags
              config)).span.end
          (pos 100_000)
          (pos 0)
        ≡ pos 1)
unfolding default_flags prepare override
default_span_lem_example =
    default_span_lem parsers (pos 100_000) 5 100_000 0 flags config
      (prepared (prepare parsers (initial_times (pos 100_000) (pos 100_000 +ℤ pos 5)) flags config))
      refl refl refl (omega arith) (omega arith) (omega arith)

abbrev settled : Prepared
settled = prepared (prepare parsers times flags config)

abbrev begun : Option (HaCluster Bool) × World
begun = init_cluster client clock (λ w. w) settled.config "m" "s" 1 world

abbrev cluster_in : Option (HaCluster Bool) → HaCluster Bool
cluster_in (some hac) = hac
cluster_in none = cluster

abbrev hac : HaCluster Bool
hac = cluster_in (begun.0)

abbrev found : Outcome (Result (List InfluxSchDb)) × World
found =
    discover parse_float points_api client settled.config.general clock libraries hac flags.db
      flags.rp flags.meas (begun.1)

abbrev schema_of : Outcome (Result (List InfluxSchDb)) → List InfluxSchDb
schema_of (ret (ok schema)) = schema
schema_of _ = []

abbrev named : List InfluxSchDb
named = map (renamed_entry "copy" "") (schema_of (found.0))

-- A reload, and then a request to end.
receive_all_lem_example : (receive_all (sighup ∷ sigterm ∷ []) started).exit_code ≡ none
receive_all_lem_example = receive_all_lem (sighup ∷ sigterm ∷ [])

-- The PID file, where the world is the list of what is made and written.
abbrev files : Files (List String)
files = record {
  mkdir_all = λ dir w. (none, dir ∷ w);
  getpid = λ w. 42;
  write_file = λ name body w. (none, name ∷ body ∷ w);
}

-- A directory that cannot be made.
abbrev readonly : Files World
readonly = record {
  mkdir_all = λ dir w. (some refused, w);
  getpid = λ w. 42;
  write_file = λ name body w. (none, w);
}

main_with_exits_example :
    (main_with parse_float points_api client clock libraries readonly "/run/syncflux/pid"
      (λ w. w)
      parsers
      times
      flags
      config
      "m"
      "s"
      1
      world).0
    ≡ ret (exited 1)
main_with_exits_example =
    (main_with_exits parse_float points_api client clock libraries readonly "/run/syncflux/pid"
        (λ w. w) parsers times flags config "m" "s" 1 world).0.1
      (inl ((λ e. ground (arith, e, eq_iff "/run/syncflux/pid" "")), inl (λ e. absurd (cc e))))

pid_file_written :
    write_pid_file files "/run/syncflux/pid" []
    ≡ (none, "/run/syncflux/pid" ∷ "42" ∷ "/run/syncflux" ∷ [])
unfolding write_pid_file
pid_file_written = refl
