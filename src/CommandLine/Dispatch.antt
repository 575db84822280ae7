-- ===== src/CommandLine/Dispatch.antt =====
-- main of pkg/main.go after the process id file, which runs the action. The
-- signals and the web server, which hamonitor starts last, are left out.
pub mod Exits
pub mod EndToEnd
use syncflux.Prelude.{
  ℕ, String, Bool, Option, none, some, str_eq, if◌then◌else◌, ◌⊎◌, inl, inr, ◌≡◌, ◌≢◌,
}
use syncflux.Go.{Outcome, ret, panic, Action, pure, ◌>>=◌}
use syncflux.Go.Time.{Time, Duration}
use syncflux.Config.{Config}
use syncflux.Influx.{Points, Client}
use syncflux.Agent.Discovery.{Libraries}
use syncflux.Agent.Cluster.{HaCluster}
use syncflux.Agent.Actions.{
  Selection, Span, repl_sch, sch_copy, copy, ha_monitor_start, with_cluster,
}
use syncflux.CommandLine.InputTime.{Clock}
use syncflux.CommandLine.Prepare.{Times, Prepared, prepare}
use syncflux.CommandLine.Settings.{Flags}

-- How a run ends: by an exit, without an action (move and unknown ones), or with what the action gives.
pub data Ended (C : Type 0) : Type 0 where
  exited : ℕ → Ended C
  idle : Ended C
  ran : Option (HaCluster C) → Ended C

unfoldable pub selection : Flags → Selection
selection flags = record {
  dbs = flags.db;
  newdb = flags.newdb;
  rps = flags.rp;
  newrp = flags.newrp;
  meas = flags.meas;
}

module _ {P B C W : Type 0} (parse_float : String → ℕ) (api : Points P B) (client : Client C W B)
    (clock : W → Time) (libraries : Libraries) where
  -- The switch on the action; none for `move` and for a text that is no action.
  unfoldable pub action_of : Flags → Prepared → Option (HaCluster C → Action W (HaCluster C))
  unfolding selection
  action_of flags p =
      let general = p.config.general in
      let chosen = selection flags in
      if str_eq flags.action "hamonitor"
      then some (ha_monitor_start parse_float api client general clock libraries)
      else if str_eq flags.action "copy"
      then some (λ hac. copy parse_float api client general clock libraries hac chosen p.span)
      else if str_eq flags.action "move"
      then none
      else if str_eq flags.action "replicaschema"
      then some (λ hac. repl_sch parse_float api client general clock libraries hac chosen)
      else if str_eq flags.action "fullcopy"
      then some (λ hac. sch_copy parse_float api client general clock libraries hac chosen p.span)
      else none

  -- main after the PID file is written, with the names that init has settled, and so many rounds for the start of the cluster.
  unfoldable pub launch :
      (W → W) → Clock → Times → Flags → Config → String → String → ℕ → Action W (Ended C)
  unfolding prepare action_of
  launch sleep parsers times flags config master slave rounds =
      elim (prepare parsers times flags config) [
        | none ↦ pure (exited 1)
        | some p ↦ elim (action_of flags p) [
          | none ↦ pure idle
          | some action ↦
              with_cluster parse_float api client p.config.general clock libraries sleep p.config
                master slave rounds action
              >>= λ found. pure (ran found)
        ]
      ]
