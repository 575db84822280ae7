-- ===== src/Agent/Startup/Ready.antt =====
-- The cluster that initCluster gives.
use syncflux.Prelude.{
  ◌≢◌, arith, ℕ, zero, suc, ◌≡◌, String, Bool, true, false, Option, none, some, List, [], ◌∷◌,
  eq_iff,
}
use syncflux.Go.{is_nil}
use syncflux.Go.Time.{Time}
use syncflux.Config.{GeneralConfig, InfluxDb, Config}
use syncflux.Influx.{Client}
use syncflux.Agent.Monitor.{InfluxMonitor, set_cli}
use syncflux.Agent.Monitor.Status.{cfg-init_ping}
use syncflux.Agent.Cluster.{HaCluster, ok_state}
use syncflux.Agent.Startup.{
  Found, nothing_found, new_monitor, cluster_of, connect, visit_master, visit_slave, visit_all,
  init_rounds, choose, init_cluster,
}

-- The name that is meant: the one that is given, and the configured one where it is empty.
abbrev pub IsAsked : String → String → String → Type 0
IsAsked name configured meant = (name ≡ "" → meant ≡ configured) × (name ≢ "" → meant ≡ name)

choose-IsAsked :
    (name configured meant : String)
    → IsAsked name configured meant
    → choose name configured ≡ meant
unfolding choose
choose-IsAsked name configured meant asked = ground (arith, eq_iff name "", asked)

module _ {C : Type 0} where
  -- A monitor of this name, with a client if it is alive.
  abbrev IsLive : String → Option (InfluxMonitor C) → Bool → Type 0
  IsLive name none alive = Unit
  IsLive name (some im) alive = (im.cfg.name ≡ name) × (alive ≡ true → is_nil im.cli ≡ false)

  abbrev IsFound : String → String → Found C → Type 0
  IsFound master slave st =
      IsLive master st.master st.master_alive × IsLive slave st.slave st.slave_alive

  -- A cluster of these two databases, both with a client, OK, and with a slave noted as up.
  pub record IsReady (master slave : String) (hac : HaCluster C) : Type 0 where
    pub master_name : hac.master.cfg.name ≡ master
    pub slave_name : hac.slave.cfg.name ≡ slave
    pub master_cli : is_nil hac.master.cli ≡ false
    pub slave_cli : is_nil hac.slave.cli ≡ false
    pub is_ok : hac.cluster_state ≡ ok_state
    pub slave_up : hac.slave_state_ok ≡ true

  abbrev pub IsReadyIfAny : String → String → Option (HaCluster C) → Type 0
  IsReadyIfAny master slave none = Unit
  IsReadyIfAny master slave (some hac) = IsReady master slave hac

  cluster_of-IsReady :
      (general : GeneralConfig) (now : Time) (master slave : String) (st : Found C)
      → IsFound master slave st
      → IsReadyIfAny master slave (cluster_of general now st)
  unfolding cluster_of
  cluster_of-IsReady general now master slave st h = ground arith

  module _ {B W : Type 0} (client : Client C W B) (general : GeneralConfig) where
    connect_lem :
        (idb : InfluxDb) (w : W)
        → ((connect client general idb w).1.cfg ≡ idb)
          × ((connect client general idb w).0 ≡ true
              → is_nil (connect client general idb w).1.cli ≡ false)
    unfolding connect set_cli new_monitor
    connect_lem idb w = ground (arith, cfg-init_ping client (new_monitor general idb) w)

    visit_master-IsFound :
        (master slave : String) (idb : InfluxDb) (st : Found C) (w : W)
        → IsFound master slave st
        → IsFound master slave (visit_master client general master idb (st, w)).0
    unfolding visit_master
    visit_master-IsFound master slave idb st w h =
        ground (arith, connect_lem idb w, eq_iff idb.name master)

    visit_slave-IsFound :
        (master slave : String) (idb : InfluxDb) (st : Found C) (w : W)
        → IsFound master slave st
        → IsFound master slave (visit_slave client general slave idb (st, w)).0
    unfolding visit_slave
    visit_slave-IsFound master slave idb st w h =
        ground (arith, connect_lem idb w, eq_iff idb.name slave)

    visit_all-IsFound :
        (master slave : String) (idbs : List InfluxDb) (acc : Found C × W)
        → IsFound master slave acc.0
        → IsFound master slave (visit_all client general master slave idbs acc).0
    unfolding visit_all
    visit_all-IsFound master slave [] acc h = h
    visit_all-IsFound master slave (idb ∷ idbs) (st, w) h =
        let (st', w') = visit_master client general master idb (st, w) in
        visit_all-IsFound master slave idbs _ (
          visit_slave-IsFound master slave idb st' w'
            (visit_master-IsFound master slave idb st w h))

    init_rounds-IsReady :
        (clock : W → Time) (sleep : W → W) (master slave : String) (idbs : List InfluxDb)
        (rounds : ℕ) (w : W)
        → IsReadyIfAny master slave
            (init_rounds client general clock sleep master slave idbs rounds w).0
    unfolding init_rounds
    init_rounds-IsReady clock sleep master slave idbs zero w = tt
    init_rounds-IsReady clock sleep master slave idbs (suc rounds) w =
        let found = visit_all client general master slave idbs (nothing_found, w) in
        let ready =
          cluster_of-IsReady general (clock found.1) master slave found.0
            (visit_all-IsFound master slave idbs (nothing_found, w) (tt, tt)) in
        let later = init_rounds-IsReady clock sleep master slave idbs rounds (sleep found.1) in
        ground (arith, ready, later)

  module _ {B W : Type 0} (client : Client C W B) (clock : W → Time) (sleep : W → W) where
    -- A cluster that initCluster gives, after any number of rounds, is of the databases with the two names
    -- that are asked for, or with those of the configuration where a name is empty; both have a client, the
    -- cluster is OK, and the slave is noted as up.
    pub init_cluster-IsReady :
        (main_config : Config) (master slave name_m name_s : String) (rounds : ℕ) (w : W)
        → IsAsked master main_config.general.master_db name_m
        → IsAsked slave main_config.general.slave_db name_s
        → IsReadyIfAny name_m name_s
            (init_cluster client clock sleep main_config master slave rounds w).0
    unfolding init_cluster
    init_cluster-IsReady main_config master slave name_m name_s rounds w asked_m asked_s =
        rw
          (
            ← choose-IsAsked master main_config.general.master_db name_m asked_m,
            ← choose-IsAsked slave main_config.general.slave_db name_s asked_s,
          )
          (init_rounds-IsReady client main_config.general clock sleep _ _ main_config.influx_array
            rounds w)
