-- ===== src/Agent/Supervisor/Recovers.antt =====
-- A check of the cluster that finds the slave up again, with all that it sets off.
use syncflux.Prelude.{arith, ℕ, ◌+◌, ◌*◌, ◌≡◌, refl, pos, ◌-ℤ◌, String, true, some, List}
use syncflux.Go.{ret, ok}
use syncflux.Go.Time.{Time, second, sub}
use syncflux.Config.{GeneralConfig}
use syncflux.Influx.{Placed, Points, Client}
use syncflux.Agent.Schema.{InfluxSchDb}
use syncflux.Agent.Monitor.{update_cli}
use syncflux.Agent.Discovery.{Libraries, get_schema}
use syncflux.Agent.Cluster.{
  HaCluster, Observation, recover, recovering, note_master, note_slave, set_state, ok_state,
  check_slave_down, begin_check, end_recovery,
}
use syncflux.Agent.Sync.Job.{Keeping, CanCopy}
use syncflux.Agent.Sync.Span.{IsSane}
use syncflux.Agent.Replicate.Copies.{AllReplicated}
use syncflux.Agent.Replicate.Ends.{SchemaFits}
use syncflux.Agent.Replicate.Total.{replicate_data_lem}
use syncflux.Agent.Supervisor.{observe, recover_slave, conclude, check_cluster}

module _ {C : Type 0} where
  -- The cluster where a recovery begins.
  abbrev begun_of : Observation → Observation → HaCluster C → HaCluster C
  begun_of m s hac = set_state recovering (note_slave s (note_master m hac))

  begin_check_recovers :
      (m s : Observation) (hac : HaCluster C)
      → hac.cluster_state ≡ check_slave_down
      → s.up ≡ true
      → begin_check m s hac
        ≡ (begun_of m s hac, recover (hac.slave_last_ok -ℤ hac.check_interval) s.last_ok)
  unfolding begin_check
  begin_check_recovers m s hac down up = ground (arith, down, up)

module _ {P B C W : Type 0} (parse_float : String → ℕ) (api : Points P B) (client : Client C W B)
    (general : GeneralConfig) (clock : W → Time) (libraries : Libraries)
    (stored : W → Placed C P → Type 0) (keeping : Keeping api client stored)
    (can : (ddb drp : String) → CanCopy api general ddb drp) (c m span : ℕ) (end : Time) (cm cs : C)
    (sane : IsSane end c span m) where
  -- The master's data between the start and the end has been replicated to the slave with the client of its last good
  -- ping, from one state of the world to another.
  abbrev pub IsRecovered : HaCluster C → List InfluxSchDb → W → W → Type 0
  IsRecovered hac schema w1 w' =
      AllReplicated parse_float api client general stored keeping can (pos (c * second)) (pos m)
        hac.master (update_cli hac.slave) clock (λ rp now. (end -ℤ pos span, end)) w' schema w1 w'

  recover_slave_lem :
      (hac : HaCluster C) (schema : List InfluxSchDb) (w w1 : W)
      → hac.master.cli ≡ some cm
      → hac.slave.lastcli ≡ some cs
      → hac.chunk_duration ≡ pos (c * second)
      → hac.max_retention_interval ≡ pos m
      → get_schema libraries client cm "" "" "" w ≡ (ret (ok schema), w1)
      → SchemaFits client schema
      → (w' : W) × (recover_slave parse_float api client general clock libraries
            (end -ℤ pos span)
            end
            hac
            w
          ≡ (ret (record hac { slave = update_cli hac.slave; schema = schema }), w'))
        × ((p : Placed C P) → stored w1 p → stored w' p)
        × IsRecovered hac schema w1 w'
  unfolding recover_slave update_cli
  recover_slave_lem hac schema w w1 up up' chunk retention found fits =
      let (w', ran, kept, copied) =
        replicate_data_lem parse_float api client general stored keeping can clock c m hac.master
          (update_cli hac.slave) cm cs schema end span w1 up up' sane fits in
      (w', ground (arith, up, found, chunk, retention, ran), kept, copied)

  -- A check that finds the slave up again, after an outage in which it was noted as down, where both databases are
  -- connected, the master's schema is read and its answers fit it, and the window from one check interval before the
  -- slave was last known to be good is within the bounds, with a positive limit of points and a library that makes the
  -- batches: the check returns; the cluster is OK, has the schema that was read and counts one more recovery; what was
  -- stored when the schema had been read is still stored, and each policy of each database of the schema has been
  -- replicated over the window, one after the other, from the master's connection to the one that the slave has got:
  -- each chunk is copied, or has been tried again in pieces, each of which is copied or reported bad. Copied means that
  -- the points of the master's answer are stored behind the slave's connection, in the target database and policy. This
  -- is for a client whose successful write stores the points of a batch there, and whose calls remove none.
  pub check_cluster_recovers :
      (hac : HaCluster C) (schema : List InfluxSchDb) (w w1 : W)
      → hac.cluster_state ≡ check_slave_down
      → (observe hac.slave (clock w)).up ≡ true
      → (observe hac.slave (clock w)).last_ok ≡ end
      → hac.slave_last_ok -ℤ hac.check_interval ≡ end -ℤ pos span
      → hac.master.cli ≡ some cm
      → hac.slave.lastcli ≡ some cs
      → hac.chunk_duration ≡ pos (c * second)
      → hac.max_retention_interval ≡ pos m
      → get_schema libraries client cm "" "" "" w ≡ (ret (ok schema), w1)
      → SchemaFits client schema
      → (hac' : HaCluster C) × (w' : W) × (check_cluster parse_float api client general clock
            libraries hac w
          ≡ (ret hac', w'))
        × (hac'.cluster_state ≡ ok_state)
        × (hac'.cluster_num_recovers ≡ hac.cluster_num_recovers + 1)
        × (hac'.schema ≡ schema)
        × ((p : Placed C P) → stored w1 p → stored w' p)
        × IsRecovered hac schema w1 w'
  unfolding check_cluster conclude end_recovery note_master note_slave set_state
  check_cluster_recovers hac schema w w1 down up last window up_m up_s chunk retention found fits =
      let begun = begun_of (observe hac.master (clock w)) (observe hac.slave (clock w)) hac in
      let begins =
        begin_check_recovers (observe hac.master (clock w)) (observe hac.slave (clock w)) hac down
          up in
      let (w', ran, kept, copied) =
        recover_slave_lem begun schema w w1 up_m up_s chunk retention found fits in
      let after : HaCluster C = record begun { slave = update_cli begun.slave; schema = schema } in
      (
        end_recovery (sub (clock w') (clock w)) after,
        w',
        ground (arith, begins, last, window, ran),
        refl,
        refl,
        refl,
        kept,
        copied,
      )
