-- ===== src/Agent/Cluster.antt =====
-- The state of pkg/agent/hacluster.go: the pair of databases, as the supervisor last saw it. Each
-- function below is one critical section of `statsData`.
pub mod States
pub mod Noted
use syncflux.Prelude.{
  ℕ, ◌+◌, ℤ, pos, ◌-ℤ◌, String, Bool, true, false, not, ◌&&◌, Option, none, some, List,
  if◌then◌else◌,
}
use syncflux.Go.Time.{Time, Duration}
use syncflux.Agent.Schema.{InfluxSchDb}
use syncflux.Agent.Monitor.{InfluxMonitor}

-- The texts OK, CHECK_SLAVE_DOWN and RECOVERING, the only ones that the program writes.
pub data ClusterState : Type 0 where
  ok_state check_slave_down recovering : ClusterState

pub record HaCluster (C : Type 0) : Type 0 where
  pub master : InfluxMonitor C
  pub slave : InfluxMonitor C
  pub check_interval : Duration
  pub cluster_state : ClusterState
  pub slave_state_ok : Bool
  pub slave_last_ok : Time
  pub slave_check_duration : Duration
  pub master_state_ok : Bool
  pub master_last_ok : Time
  pub master_check_duration : Duration
  pub cluster_num_recovers : ℕ
  pub cluster_last_recover_duration : Duration
  pub schema : List InfluxSchDb
  pub chunk_duration : Duration
  pub max_retention_interval : Duration

pub record ClusterStatus : Type 0 where
  pub cluster_state : ClusterState
  pub cluster_num_recovers : ℕ
  pub cluster_last_recover_duration : Duration
  pub mid : String
  pub sid : String
  pub master_state : Bool
  pub master_last_ok : Time
  pub slave_state : Bool
  pub slave_last_ok : Time

-- What GetState of a monitor returns.
pub record Observation : Type 0 where
  pub up : Bool
  pub last_ok : Time
  pub duration : Duration

-- What a check of the cluster ends in: nothing more to do, or a recovery of the time between two
-- instants.
pub data Verdict : Type 0 where
  settled : Verdict
  recover : Time → Time → Verdict

module _ {C : Type 0} where
  -- GetStatus.
  unfoldable pub get_status : HaCluster C → ClusterStatus
  get_status hac = record {
    cluster_state = hac.cluster_state;
    cluster_num_recovers = hac.cluster_num_recovers;
    cluster_last_recover_duration = hac.cluster_last_recover_duration;
    mid = hac.master.cfg.name;
    sid = hac.slave.cfg.name;
    master_state = hac.master_state_ok;
    master_last_ok = hac.master_last_ok;
    slave_state = hac.slave_state_ok;
    slave_last_ok = hac.slave_last_ok;
  }

  -- The assignments that the cases of checkCluster share.
  unfoldable pub note_master : Observation → HaCluster C → HaCluster C
  note_master m hac = record hac {
    master_state_ok = m.up;
    master_last_ok = m.last_ok;
    master_check_duration = m.duration;
  }

  unfoldable pub note_slave : Observation → HaCluster C → HaCluster C
  note_slave s hac = record hac {
    slave_last_ok = s.last_ok;
    slave_state_ok = s.up;
    slave_check_duration = s.duration;
  }

  unfoldable pub set_state : ClusterState → HaCluster C → HaCluster C
  set_state state hac = record hac { cluster_state = state }

  -- The switch of checkCluster after its first case, on the cluster's state and the slave's last one.
  switch_state :
      ClusterState → Bool → Observation → Observation → HaCluster C → HaCluster C × Verdict
  unfolding note_master note_slave set_state
  switch_state check_slave_down false m s hac = (note_master m hac, settled)
  switch_state check_slave_down true m s hac = (
    set_state recovering (note_slave s (note_master m hac)),
    recover (hac.slave_last_ok -ℤ hac.check_interval) s.last_ok,
  )
  switch_state recovering up m s hac = (note_slave s (note_master m hac), settled)
  switch_state ok_state true m s hac = (note_slave s (note_master m hac), settled)
  switch_state ok_state false m s hac = (hac, settled)

  -- The first critical section of checkCluster: the whole switch, up to the start of a recovery.
  unfoldable pub begin_check : Observation → Observation → HaCluster C → HaCluster C × Verdict
  unfolding switch_state
  begin_check m s hac =
      if hac.slave_state_ok && not s.up
      then (set_state check_slave_down (note_slave s (note_master m hac)), settled)
      else switch_state hac.cluster_state s.up m s hac

  -- The last critical section of checkCluster, after a recovery.
  unfoldable pub end_recovery : Duration → HaCluster C → HaCluster C
  unfolding set_state
  end_recovery elapsed hac = record hac {
    cluster_state = ok_state;
    cluster_num_recovers = hac.cluster_num_recovers + 1;
    cluster_last_recover_duration = elapsed;
  }

  -- The assignments of startSupervisorGo before its loop.
  unfoldable pub start_supervisor : Observation → Observation → HaCluster C → HaCluster C
  start_supervisor m s hac = record hac {
    master_state_ok = m.up;
    master_last_ok = m.last_ok;
    slave_state_ok = s.up;
    slave_last_ok = s.last_ok;
  }
