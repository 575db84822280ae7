-- ===== src/Tests/ReadRuns.antt =====
-- Runs of the read side: one row of an answer, and a refused query.
use syncflux.Prelude.{
  arith, negsuc, ◌≡◌, refl, String, Bool, true, some, List, [], ◌∷◌, map, length,
}
use syncflux.Go.{ret, ok}
use syncflux.Go.Strconv.{format_int}
use syncflux.Try.Reference.{up_to}
use syncflux.Influx.{number, text, int64, answered, Client}
use syncflux.Agent.Schema.{Fields, lookup}
use syncflux.Agent.Read.{query_once, read_query, read_db, timestamp_of}
use syncflux.Agent.Read.Rows.{all_rows, points_of}
use syncflux.Agent.Read.Exact.{timestamp_exact}
use syncflux.Agent.Read.Retries.{target, read_db_lem, read_db_ignores_error}
use syncflux.Tests.Toy.{
  Point, Batch, World, points_api, points_laws, empty_batch, world, client, refused, parse_float,
  cpu, one_point,
}

abbrev cmd : String
cmd = "select"

abbrev fields : Fields
fields = cpu.1.fields

abbrev asked : World
asked = record world { sent = cmd ∷ [] }

timestamp_exact_example :
    (timestamp_of (number (format_int (negsuc 41))) ≡ some (negsuc 41))
    × (timestamp_of (text (format_int (negsuc 41))) ≡ some (negsuc 41))
    × (timestamp_of (int64 (negsuc 41)) ≡ some (negsuc 41))
timestamp_exact_example = timestamp_exact (negsuc 41) (omega arith)

read_db_lem_example :
    (ps : List Point) × (points_of parse_float points_api fields (all_rows one_point.results)
      ≡ ret ps)
    × (b' : Batch) × (read_db parse_float points_api client 3 true "db1" "autogen" "db1" "kept" cmd
          fields world
        ≡ (ret (ok (b', length ps)), asked))
    × (b'.points ≡ map (λ p. some p) ps)
    × (b'.batch_config ≡ target "db1" "kept")
unfolding up_to query_once read_query lookup
read_db_lem_example =
    read_db_lem parse_float points_api client 3 true "db1" "autogen" "db1" "kept" cmd fields world
      (empty_batch (target "db1" "kept")) refl points_laws asked one_point refl
      ((("v", record { name = "v"; type = "integer" }, refl, refl), tt), tt)

-- A server that answers with an error.
abbrev unwilling : Client Bool World Batch
unwilling = record client {
  query = λ c q w. (answered (record { results = []; error = some refused }), w);
}

read_db_ignores_error_example :
    read_db parse_float points_api unwilling 3 true "db1" "autogen" "db1" "kept" cmd fields world
    ≡ (ret (ok (empty_batch (target "db1" "kept"), 0)), world)
read_db_ignores_error_example =
    read_db_ignores_error parse_float points_api unwilling 3 true "db1" "autogen" "db1" "kept" cmd
      fields world (empty_batch (target "db1" "kept")) refl world refused refl
