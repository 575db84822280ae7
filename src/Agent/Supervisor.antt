-- ===== src/Agent/Supervisor.antt =====
-- checkCluster of pkg/agent/hacluster.go as a whole: the critical sections of Agent/Cluster, and between
-- them the recovery, which copies the master's data of the outage to the slave.
pub mod Rounds
pub mod Recovers
use syncflux.Prelude.{ℕ, ℤ, pos, String, Option, none, some, List, []}
use syncflux.Go.{Outcome, ret, panic, Action, Result, ok, err, ◌>>=◌, ◌>>◌, pure, deref}
use syncflux.Go.Time.{Time, Duration, sub}
use syncflux.Config.{GeneralConfig}
use syncflux.Influx.{Points, Client}
use syncflux.Agent.Schema.{InfluxSchDb}
use syncflux.Agent.Monitor.{InfluxMonitor, get_state, update_cli}
use syncflux.Agent.Discovery.{Libraries, get_schema}
use syncflux.Agent.Cluster.{
  HaCluster, Observation, Verdict, settled, recover, begin_check, end_recovery,
}
use syncflux.Agent.Replicate.{replicate_data}

-- What GetState tells the supervisor.
unfoldable pub observe : {C : Type 0} → InfluxMonitor C → Time → Observation
unfolding get_state
observe im now =
    let (up, last_ok, duration) = get_state im now in
    record { up = up; last_ok = last_ok; duration = duration }

module _ {P B C W : Type 0} (parse_float : String → ℕ) (api : Points P B) (client : Client C W B)
    (general : GeneralConfig) (clock : W → Time) (libraries : Libraries) where
  -- The recovery, between its two critical sections: the slave gets the client of its last good ping,
  -- the schema is read again, and the data of the time span is copied. An error in the schema leaves none.
  unfoldable pub recover_slave : Time → Time → HaCluster C → Action W (HaCluster C)
  recover_slave start end hac = do
    let slave = update_cli hac.slave
    c ← deref hac.master.cli
    found ← get_schema libraries client c "" "" ""
    let schema : List InfluxSchDb = elim found [ ok s ↦ s | err e ↦ [] ]
    replicate_data parse_float api client general clock hac.chunk_duration
        hac.max_retention_interval hac.master slave schema start end
    pure (record hac { slave = slave; schema = schema })

  -- What follows the first critical section of checkCluster.
  unfoldable pub conclude : HaCluster C × Verdict → Action W (HaCluster C)
  unfolding recover_slave end_recovery
  conclude (hac, settled) w = (ret hac, w)
  conclude (hac, recover start end) w =
      let (r, w') = recover_slave start end hac w in
      elim r [
        | panic ↦ (panic, w')
        | ret hac' ↦ (ret (end_recovery (sub (clock w') (clock w)) hac'), w')
      ]

  -- checkCluster.
  unfoldable pub check_cluster : HaCluster C → Action W (HaCluster C)
  unfolding begin_check conclude observe
  check_cluster hac w =
      conclude (begin_check (observe hac.master (clock w)) (observe hac.slave (clock w)) hac) w
