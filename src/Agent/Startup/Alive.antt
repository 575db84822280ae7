-- ===== src/Agent/Startup/Alive.antt =====
-- When initCluster ends.
use syncflux.Prelude.{
  arith, ℕ, suc, ◌≡◌, refl, ◌⊎◌, inr, String, true, false, List, [], ◌∷◌, eq_iff,
}
use syncflux.Go.{is_nil}
use syncflux.Go.Time.{Time}
use syncflux.Config.{GeneralConfig, InfluxDb, Config}
use syncflux.Influx.{Client}
use syncflux.Agent.Startup.{
  Found, nothing_found, cluster_of, connect, visit_master, visit_slave, visit_all, init_rounds,
  choose, init_cluster,
}

-- A database of this name is configured.
abbrev pub Configured : String → List InfluxDb → Type 0
Configured name [] = ⊥
Configured name (idb ∷ idbs) = (idb.name ≡ name) ⊎ Configured name idbs

module _ {B C W : Type 0} (client : Client C W B) where
  module _ (general : GeneralConfig) (master slave : String)
      (answers : (idb : InfluxDb) (w : W) → (connect client general idb w).0 ≡ true) where
    abbrev IsAlive : Found C → Type 0
    IsAlive st = (st.master_alive ≡ true) × (st.slave_alive ≡ true)

    visit : InfluxDb → Found C × W → Found C × W
    visit idb acc =
        visit_slave client general slave idb (visit_master client general master idb acc)

    -- A visit of a database, all of which answer.
    visit_lem :
        (idb : InfluxDb) (st : Found C) (w : W)
        → IsAlive st
        → let st' = (visit idb (st, w)).0 in
          IsAlive st'
          × (is_nil st.master ≡ false → is_nil st'.master ≡ false)
          × (is_nil st.slave ≡ false → is_nil st'.slave ≡ false)
          × (idb.name ≡ master → is_nil st'.master ≡ false)
          × (idb.name ≡ slave → is_nil st'.slave ≡ false)
    unfolding visit visit_master visit_slave
    visit_lem idb st w h = ground (
      arith,
      answers idb w,
      answers idb (visit_master client general master idb (st, w)).1,
      eq_iff idb.name master,
      eq_iff idb.name slave,
    )

    visit_all_lem :
        (idbs : List InfluxDb) (acc : Found C × W)
        → IsAlive acc.0
        → (is_nil acc.0.master ≡ false) ⊎ Configured master idbs
        → (is_nil acc.0.slave ≡ false) ⊎ Configured slave idbs
        → let st' = (visit_all client general master slave idbs acc).0 in
          IsAlive st' × (is_nil st'.master ≡ false) × (is_nil st'.slave ≡ false)
    unfolding visit_all visit
    visit_all_lem [] acc alive m s = ground arith
    visit_all_lem (idb ∷ idbs) (st, w) alive m s =
        let (alive', kept_m, kept_s, new_m, new_s) = visit_lem idb st w alive in
        visit_all_lem idbs (visit idb (st, w)) alive' (ground arith) (ground arith)

  -- Where both databases are configured and every configured one answers its ping, initCluster gives a
  -- cluster in its first round.
  pub init_cluster_ends :
      (clock : W → Time) (sleep : W → W) (main_config : Config) (master slave : String) (rounds : ℕ)
      (w : W)
      → ((idb : InfluxDb) (v : W) → (connect client main_config.general idb v).0 ≡ true)
      → Configured (choose master main_config.general.master_db) main_config.influx_array
      → Configured (choose slave main_config.general.slave_db) main_config.influx_array
      → is_nil (init_cluster client clock sleep main_config master slave (suc rounds) w).0 ≡ false
  unfolding init_cluster init_rounds cluster_of
  init_cluster_ends clock sleep main_config master slave rounds w answers has_master has_slave =
      let found =
        visit_all_lem main_config.general _ _ answers main_config.influx_array (nothing_found, w)
          (refl, refl) (inr has_master) (inr has_slave) in
      ground (arith, found)
