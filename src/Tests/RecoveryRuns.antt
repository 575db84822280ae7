-- ===== src/Tests/RecoveryRuns.antt =====
-- A check of a cluster whose slave was down and is up again.
use syncflux.Prelude.{
  ◌+◌, ◌≡◌, refl, ap, arith, pos, ◌-ℤ◌, true, false, List, [], ◌∷◌, str_eq, if◌then◌else◌, Bool,
  ◌++◌,
}
use syncflux.Go.{ret, ok, Outcome, Result}
use syncflux.Go.Time.{unix_seconds}
use syncflux.Influx.{Placed, Client, answered}
use syncflux.Agent.Schema.{InfluxSchDb, lookup}
use syncflux.Agent.Discovery.{get_schema}
use syncflux.Agent.Cluster.{HaCluster, ok_state, check_slave_down}
use syncflux.Agent.Supervisor.{check_cluster, observe}
use syncflux.Agent.Supervisor.Recovers.{check_cluster_recovers, IsRecovered}
use syncflux.Agent.Sync.Job.{AnswersFit, Keeping}
use syncflux.Agent.Sync.Span.{IsSane}
use syncflux.Tests.Toy.{
  World, Point, Batch, points_api, world, client, parse_float, general, clock, libraries, cluster,
  policy, cpu, one_point, reply, Stored,
}
use syncflux.Agent.Commands.{get_databases, get_measurements, get_fields, get_retention_policies}
use syncflux.Agent.Discovery.{
  add_measurements, with_measurements, compile_filter, scan_database, entry_of, scan_databases,
  scan_policies,
}
use syncflux.Agent.Schema.{insert}
use syncflux.Agent.Statements.{
  measurement_names, database_names, rows_anyway, retention_policies, field_keys, retention_policy,
}
use syncflux.Go.Strconv.{apply_sign, parse_int, parse_uint, parse_digits}
use syncflux.Agent.Read.{read_query}
use syncflux.Agent.Monitor.{get_state}
use syncflux.Tests.TotalRuns.{response_of, one_point-RowFits}
use syncflux.Tests.CopiedRuns.{can, kept_by, stored_by}

-- A master that knows reads by their precision.
abbrev precise : Client Bool World Batch
precise = record client {
  query = λ c q w. (
    answered (if str_eq q.precision "ns" then one_point else reply q.command),
    record w { sent = w.sent ++ q.command ∷ [] },
  );
}

abbrev found : Outcome (Result (List InfluxSchDb)) × World
found = get_schema libraries precise true "" "" "" world

abbrev schema : List InfluxSchDb
schema =
    record {
      name = "db1";
      new_name = "db1";
      def_rp = "autogen";
      new_def_rp = "autogen";
      rps = record policy { shard_group_duration = pos 0 } ∷ [];
    }
    ∷ []

is_found : found ≡ (ret (ok schema), found.1)
unfolding get_schema compile_filter get_databases database_names scan_databases scan_database
    get_retention_policies retention_policies retention_policy scan_policies with_measurements
    get_measurements rows_anyway measurement_names add_measurements get_fields field_keys entry_of
    insert apply_sign parse_digits parse_int parse_uint
is_found = refl

precise-AnswersFit : AnswersFit precise "db1" "autogen" cpu
unfolding read_query lookup
precise-AnswersFit c start end v r e =
    let same : one_point ≡ r = ap response_of e in rw (← same) one_point-RowFits

precise_keeps : Keeping points_api precise Stored
precise_keeps = record {
  query_keeps = λ c q w p h. h;
  write_keeps = kept_by;
  write_stores = stored_by;
}

-- A cluster whose slave has been down and answers again: the window is of twenty seconds.
abbrev returning : HaCluster Bool
returning = record cluster { cluster_state = check_slave_down; slave_state_ok = false }

in_bounds : IsSane (pos 4_000_000_000_000) 3600 20_000_000_000 8_760_000_000_000_000
unfolding unix_seconds
in_bounds = record {
  chunk_positive = omega arith;
  chunk_small = omega arith;
  span_small = omega arith;
  maxret_small = omega arith;
  end_above = omega arith;
  end_below = omega arith;
}

check_cluster_recovers_example :
    (hac' : HaCluster Bool) × (w' : World) × (check_cluster parse_float points_api precise general
        clock libraries returning world
      ≡ (ret hac', w'))
    × (hac'.cluster_state ≡ ok_state)
    × (hac'.cluster_num_recovers ≡ 0 + 1)
    × (hac'.schema ≡ schema)
    × ((p : Placed Bool Point) → Stored (found.1) p → Stored w' p)
    × IsRecovered parse_float points_api precise general clock libraries Stored precise_keeps can
        3600 8_760_000_000_000_000 20_000_000_000
        (pos 4_000_000_000_000)
        true
        true
        in_bounds
        returning
        schema
        (found.1)
        w'
unfolding observe get_state ◌-ℤ◌
check_cluster_recovers_example =
    check_cluster_recovers parse_float points_api precise general clock libraries Stored
      precise_keeps can 3600 8_760_000_000_000_000 20_000_000_000 (pos 4_000_000_000_000) true true
      in_bounds returning schema world (found.1) refl refl refl refl refl refl refl refl is_found
      (((precise-AnswersFit, tt), tt), tt)
