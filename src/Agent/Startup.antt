-- ===== src/Agent/Startup.antt =====
-- initCluster of pkg/agent/agent.go: the two databases are looked up in the configuration and pinged, again
-- and again, until both are found and alive.
pub mod Ready
pub mod Alive
use syncflux.Prelude.{
  ℕ, zero, suc, ℤ, pos, ◌-ℤ◌, String, Bool, true, false, ◌&&◌, Option, none, some, List, [], ◌∷◌,
  str_eq, if◌then◌else◌, ◌*◌,
}
use syncflux.Go.{Result, ok, err}
use syncflux.Go.Time.{Time, second}
use syncflux.Config.{GeneralConfig, InfluxDb, Config}
use syncflux.Influx.{Client}
use syncflux.Agent.Monitor.{InfluxMonitor, init_ping, set_cli}
use syncflux.Agent.Cluster.{HaCluster, ok_state}

-- The zero Time of Go: the first of January of the year 1.
abbrev zero_time : Time
zero_time = pos 0 -ℤ pos (62_135_596_800 * second)

-- What a round knows. `masterFound` is true exactly where `MDB` has been set in the round, and so for the
-- slave: an option stands for both.
pub record Found (C : Type 0) : Type 0 where
  pub master : Option (InfluxMonitor C)
  pub slave : Option (InfluxMonitor C)
  pub master_alive : Bool
  pub slave_alive : Bool

-- A name that is empty is taken from the configuration.
unfoldable pub choose : String → String → String
choose name configured = if str_eq name "" then configured else name

module _ {C : Type 0} where
  -- `&InfluxMonitor{cfg: idb, CheckInterval: …}`
  unfoldable pub new_monitor : GeneralConfig → InfluxDb → InfluxMonitor C
  new_monitor general idb = record {
    cfg = idb;
    check_interval = general.check_interval;
    last_ok = zero_time;
    status_ok = false;
    version = "";
    ping_duration = pos 0;
    cli = none;
    lastcli = none;
  }

  abbrev pub nothing_found : Found C
  nothing_found = record { master = none; slave = none; master_alive = true; slave_alive = true }

  -- The end of a round: the cluster, if both databases are found and alive.
  unfoldable pub cluster_of : GeneralConfig → Time → Found C → Option (HaCluster C)
  cluster_of general now st = elim st.master [
    | none ↦ none
    | some mdb ↦ elim st.slave [
      | none ↦ none
      | some sdb ↦
          if st.master_alive && st.slave_alive
          then some (record {
            master = mdb;
            slave = sdb;
            check_interval = general.min_sync_interval;
            cluster_state = ok_state;
            slave_state_ok = true;
            slave_last_ok = now;
            slave_check_duration = pos 0;
            master_state_ok = true;
            master_last_ok = now;
            master_check_duration = pos 0;
            cluster_num_recovers = 0;
            cluster_last_recover_duration = pos 0;
            schema = [];
            chunk_duration = general.data_chunk_duration;
            max_retention_interval = general.max_retention_interval;
          })
          else none
    ]
  ]

  module _ {B W : Type 0} (client : Client C W B) (general : GeneralConfig) where
    -- A new monitor, pinged: whether it is alive, and the monitor with its client, nil if it is not.
    unfoldable pub connect : InfluxDb → W → Bool × InfluxMonitor C × W
    unfolding new_monitor
    connect idb w =
        let (r, im, w') = init_ping client (new_monitor general idb) w in
        elim r [
          | ok (con, dur, ver) ↦ (true, set_cli (some con) im, w')
          | err e ↦ (false, set_cli none im, w')
        ]

    visit_master : String → InfluxDb → Found C × W → Found C × W
    visit_master master idb (st, w) =
        let (alive, im, w') = connect idb w in
        if str_eq idb.name master
        then (record st { master = some im; master_alive = st.master_alive && alive }, w')
        else (st, w)

    visit_slave : String → InfluxDb → Found C × W → Found C × W
    visit_slave slave idb (st, w) =
        let (alive, im, w') = connect idb w in
        if str_eq idb.name slave
        then (record st { slave = some im; slave_alive = st.slave_alive && alive }, w')
        else (st, w)

    -- The loop over the configured databases.
    unfoldable pub visit_all : String → String → List InfluxDb → Found C × W → Found C × W
    unfolding visit_master visit_slave connect
    visit_all master slave [] acc = acc
    visit_all master slave (idb ∷ idbs) acc =
        visit_all master slave idbs (visit_slave slave idb (visit_master master idb acc))

    -- initCluster on the names that it has chosen, for so many rounds; none if they were not enough.
    -- `sleep` is what the world does between two rounds.
    unfoldable pub init_rounds :
        (W → Time) → (W → W) → String → String → List InfluxDb → ℕ → W → Option (HaCluster C) × W
    unfolding visit_all cluster_of
    init_rounds clock sleep master slave idbs zero w = (none, w)
    init_rounds clock sleep master slave idbs (suc rounds) w =
        let (st, w') = visit_all master slave idbs (nothing_found, w) in
        let rest = init_rounds clock sleep master slave idbs rounds (sleep w') in
        elim (cluster_of general (clock w') st) [ some hac ↦ (some hac, w') | none ↦ rest ]

  module _ {B W : Type 0} (client : Client C W B) (clock : W → Time) (sleep : W → W) where
    -- initCluster, for so many rounds.
    unfoldable pub init_cluster : Config → String → String → ℕ → W → Option (HaCluster C) × W
    unfolding init_rounds choose
    init_cluster main_config master slave =
        init_rounds client main_config.general clock sleep
          (choose master main_config.general.master_db) (choose slave main_config.general.slave_db)
          main_config.influx_array
