-- ===== src/Agent/Actions.antt =====
-- The actions of pkg/agent/agent.go, on the cluster that initCluster has given: ReplSch, SchCopy, Copy and
-- HAMonitorStart. The result is the global `Cluster` afterwards; an action that logs an error and returns
-- has no other result.
pub mod Schemas
pub mod Orders
use syncflux.Prelude.{
  ℕ, pos, true, String, Bool, Option, none, some, List, [], ◌∷◌, map, str_eq, if◌then◌else◌,
}
use syncflux.Go.{Outcome, ret, panic, Error, Action, Result, ok, err, ◌>>=◌, ◌>>◌, pure, fail}
use syncflux.Go.Time.{Time}
use syncflux.Config.{GeneralConfig, Config}
use syncflux.Influx.{Points, Client}
use syncflux.Agent.Schema.{InfluxSchDb}
use syncflux.Agent.Discovery.{Libraries, compile_filter, get_schema}
use syncflux.Agent.Cluster.{HaCluster}
use syncflux.Agent.Replicate.{replicate_schema, replicate_data, replicate_data_full}
use syncflux.Agent.Startup.{init_cluster}

-- The release information of GetRInfo.
pub record RInfo : Type 0 where
  pub instance_id : String
  pub version : String
  pub commit : String
  pub branch : String
  pub build_stamp : String

-- GetRInfo, with the variables that the build sets.
unfoldable pub get_r_info : Config → String → String → String → String → RInfo
get_r_info main_config version commit branch build_stamp = record {
  instance_id = main_config.general.instance_id;
  version = version;
  commit = commit;
  branch = branch;
  build_stamp = build_stamp;
}

-- `if len(newdb) > 0 && len(schema) > 0 { … schema[p].NewName = newdb }`
unfoldable pub rename_db : String → List InfluxSchDb → List InfluxSchDb
rename_db newdb schema =
    if str_eq newdb ""
    then schema
    else map (λ (db : InfluxSchDb). record db { new_name = newdb }) schema

-- The same for NewDefRp.
unfoldable pub rename_rp : String → List InfluxSchDb → List InfluxSchDb
rename_rp newrp schema =
    if str_eq newrp ""
    then schema
    else map (λ (db : InfluxSchDb). record db { new_def_rp = newrp }) schema

-- What an action is asked for: the filters and the new names.
pub record Selection : Type 0 where
  pub dbs : String
  pub newdb : String
  pub rps : String
  pub newrp : String
  pub meas : String

-- What a copy is asked for beside: the time span, or all of it.
pub record Span : Type 0 where
  pub start : Time
  pub end : Time
  pub full : Bool

-- All of the data; the bounds are not looked at.
abbrev pub everything : Span
everything = record { start = pos 0; end = pos 0; full = true }

module _ {P B C W : Type 0} (parse_float : String → ℕ) (api : Points P B) (client : Client C W B)
    (general : GeneralConfig) (clock : W → Time) (libraries : Libraries) where
  -- GetSchema on the cluster's master. A nil client panics at the first query, which stands after the
  -- database filter is compiled.
  unfoldable pub discover :
      HaCluster C → String → String → String → Action W (Result (List InfluxSchDb))
  discover hac dbs rps meas = elim hac.master.cli [
    | some c ↦ get_schema libraries client c dbs rps meas
    | none ↦ elim (compile_filter libraries dbs) [ err e ↦ pure (err e) | ok filter ↦ fail ]
  ]

  -- The start of the three actions: the schema, with the new names. The cluster's schema holds the same
  -- entries, so it has the new names too.
  unfoldable pub selected :
      HaCluster C → Selection → Action W (Option (HaCluster C × List InfluxSchDb))
  unfolding discover rename_db rename_rp
  selected hac s = do
    found ← discover hac s.dbs s.rps s.meas
    elim found [
      | err e ↦ pure none
      | ok schema ↦
          let renamed = rename_rp s.newrp (rename_db s.newdb schema) in
          pure (some (record hac { schema = renamed }, renamed))
    ]

  -- `if full { ReplicateDataFull } else { ReplicateData }`
  unfoldable pub copy_span : Span → HaCluster C × List InfluxSchDb → Action W (HaCluster C)
  copy_span span (hac, schema) =
      (if span.full
        then replicate_data_full parse_float api client general clock hac.chunk_duration
            hac.max_retention_interval hac.master hac.slave schema
        else replicate_data parse_float api client general clock hac.chunk_duration
            hac.max_retention_interval hac.master hac.slave schema span.start span.end)
      >> pure hac

  unfoldable pub create_schema : HaCluster C × List InfluxSchDb → Action W (HaCluster C)
  create_schema (hac, schema) = replicate_schema client hac.slave.cli schema >> pure hac

  -- ReplSch.
  unfoldable pub repl_sch : HaCluster C → Selection → Action W (HaCluster C)
  unfolding selected create_schema
  repl_sch hac s = do
    chosen ← selected hac s
    elim chosen [ none ↦ pure hac | some on ↦ create_schema on ]

  -- SchCopy.
  unfoldable pub sch_copy : HaCluster C → Selection → Span → Action W (HaCluster C)
  unfolding selected create_schema copy_span
  sch_copy hac s span = do
    chosen ← selected hac s
    elim chosen [ none ↦ pure hac | some on ↦ create_schema on >> copy_span span on ]

  -- Copy.
  unfoldable pub copy : HaCluster C → Selection → Span → Action W (HaCluster C)
  unfolding selected copy_span
  copy hac s span = do
    chosen ← selected hac s
    elim chosen [ none ↦ pure hac | some on ↦ copy_span span on ]

  -- The switch of HAMonitorStart on the initial replication; another text than its four is logged.
  unfoldable pub replicate_initially : HaCluster C × List InfluxSchDb → Action W (HaCluster C)
  unfolding create_schema copy_span
  replicate_initially on =
      let mode = general.initial_replication in
      if str_eq mode "schema"
      then create_schema on
      else if str_eq mode "data"
      then copy_span everything on
      else if str_eq mode "both"
      then create_schema on >> copy_span everything on
      else pure on.0

  -- HAMonitorStart, up to the start of the two monitors and of the supervisor. An error in the schema
  -- leaves none.
  unfoldable pub ha_monitor_start : HaCluster C → Action W (HaCluster C)
  unfolding discover replicate_initially
  ha_monitor_start hac = do
    found ← discover hac "" "" ""
    let on : HaCluster C × List InfluxSchDb = elim found [
      | ok schema ↦ (record hac { schema = schema }, schema)
      | err e ↦ (hac, [])
    ]
    replicate_initially on

  -- An action with initCluster before it, which is given so many rounds; none if they were not enough.
  unfoldable pub with_cluster :
      (W → W)
      → Config
      → String
      → String
      → ℕ
      → (HaCluster C → Action W (HaCluster C))
      → Action W (Option (HaCluster C))
  with_cluster sleep main_config master slave rounds action w =
      let (found, w') = init_cluster client clock sleep main_config master slave rounds w in
      elim found [ none ↦ (ret none, w') | some hac ↦ (action hac >>= λ hac'. pure (some hac')) w' ]
