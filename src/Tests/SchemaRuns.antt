-- ===== src/Tests/SchemaRuns.antt =====
-- Runs of the schema's discovery on the master and of its creation on the slave.
use syncflux.Prelude.{Option, Bool, List, ◌++◌, ◌≡◌, refl, true, false, none, some, [], ◌∷◌, All}
use syncflux.Go.{ret, ok}
use syncflux.Agent.Discovery.{Filter, compile_filter, scan_policies, get_schema}
use syncflux.Agent.Discovery.Entries.{Kept, IsEntry}
use syncflux.Agent.Discovery.Readable.{Readable}
use syncflux.Agent.Discovery.Total.{get_schema_lem, scan_policies_lem}
use syncflux.Influx.{Client, answered, text, number, bool}
use syncflux.Agent.Schema.{InfluxSchDb, RetPol}
use syncflux.Agent.Statements.{rows_anyway}
use syncflux.Agent.Replicate.{replicate_schema}
use syncflux.Agent.Replicate.Sent.{send_all, schema_commands, replicate_schema_lem}
use syncflux.Tests.Toy.{World, Batch, series, world, client, libraries, policy, entry}

abbrev none_passes : Filter
none_passes = some (λ name. false)

-- A server with one database, policy, measurement and field, all named db1: it answers every statement with one row.
abbrev one_row : Client Bool World Batch
one_row = record client {
  query = λ c q w. (
    answered (series ((text "db1" ∷ text "0s" ∷ text "168h" ∷ number "1" ∷ bool true ∷ []) ∷ [])),
    record w { sent = w.sent ++ q.command ∷ [] },
  );
}

one_row-Readable : Readable one_row true
unfolding rows_anyway
one_row-Readable = record {
  databases = λ w e. (_, refl, (("db1", refl), tt));
  policies =
      λ db w e. (_, refl, (("db1", "0s", "168h", "1", true, refl, refl, refl, refl, refl), tt));
  measurements = λ db rp w. (_, refl, (λ e. cc, tt));
  fields = λ db meas rp w. (_, refl, (("db1", "0s", refl, refl), tt));
}

get_schema_lem_example :
    (schema : List InfluxSchDb) × ((get_schema libraries one_row true "" "" "" world).0
      ≡ ret (ok schema))
    × All (IsEntry none none) schema
unfolding compile_filter
get_schema_lem_example =
    get_schema_lem libraries one_row true one_row-Readable none none none "" "" "" world refl refl
      refl

scan_policies_lem_example :
    (found : List RetPol × Option RetPol) × ((scan_policies libraries one_row true none_passes ""
        "db1"
        (policy ∷ [])
        none
        world).0
      ≡ ret (ok found))
    × Kept none_passes (policy ∷ []) found.0
unfolding compile_filter
scan_policies_lem_example =
    scan_policies_lem libraries one_row true one_row-Readable none_passes none "" "db1"
      (policy ∷ []) none world refl

replicate_schema_lem_example :
    replicate_schema client (some true) (entry ∷ []) world
    ≡ (ret none, send_all client true (schema_commands (entry ∷ [])) world)
replicate_schema_lem_example = replicate_schema_lem client true (entry ∷ []) world
