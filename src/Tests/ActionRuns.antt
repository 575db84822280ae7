-- ===== src/Tests/ActionRuns.antt =====
-- Runs of the start of the monitor: the schema is replicated first.
use syncflux.Prelude.{◌≡◌, refl, true, List, []}
use syncflux.Go.{◌>>◌, pure, ret, ok, Result, Outcome}
use syncflux.Config.{GeneralConfig}
use syncflux.Agent.Schema.{InfluxSchDb}
use syncflux.Agent.Replicate.{replicate_data_full}
use syncflux.Agent.Actions.{discover, ha_monitor_start}
use syncflux.Agent.Actions.Orders.{ha_monitor_start_lem}
use syncflux.Agent.Discovery.{
  compile_filter, get_schema, scan_databases, scan_database, scan_policies, entry_of,
  with_measurements, add_measurements,
}
use syncflux.Agent.Commands.{get_databases, get_retention_policies, get_measurements, get_fields}
use syncflux.Agent.Statements.{
  database_names, retention_policies, retention_policy, rows_anyway, measurement_names, field_keys,
}
use syncflux.Agent.Replicate.Sent.{send_all, schema_commands}
use syncflux.Tests.Toy.{
  World, world, client, clock, libraries, general, cluster, points_api, parse_float,
}

abbrev both : GeneralConfig
both = record general { initial_replication = "both" }

abbrev found : Outcome (Result (List InfluxSchDb)) × World
found = discover parse_float points_api client both clock libraries cluster "" "" "" world

abbrev schema_of : Outcome (Result (List InfluxSchDb)) → List InfluxSchDb
schema_of (ret (ok schema)) = schema
schema_of _ = []

ha_monitor_start_lem_example :
    ha_monitor_start parse_float points_api client both clock libraries cluster world
    ≡ (replicate_data_full parse_float points_api client both clock cluster.chunk_duration
            cluster.max_retention_interval cluster.master cluster.slave
            (schema_of (found.0))
          >> pure (record cluster { schema = schema_of (found.0) }))
        (send_all client true (schema_commands (schema_of (found.0))) (found.1))
unfolding discover compile_filter get_schema scan_databases scan_database scan_policies entry_of
    with_measurements add_measurements get_databases get_retention_policies get_measurements
    get_fields database_names retention_policies retention_policy rows_anyway measurement_names
    field_keys
ha_monitor_start_lem_example =
    (ha_monitor_start_lem parse_float points_api client both clock libraries cluster
        (schema_of (found.0)) true world (found.1) refl refl).2
      refl
