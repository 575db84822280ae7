-- ===== src/Agent/Statements.antt =====
-- The texts of the commands of pkg/agent/client.go, and what it makes of the rows of the answers.
use syncflux.Prelude.{
  String, Bool, false, Option, none, some, List, [], ◌∷◌, ◌++◌, str_eq, if◌then◌else◌, get_elem?,
}
use syncflux.Go.{Outcome, ret, panic}
use syncflux.Go.Strconv.{parse_int, format_int}
use syncflux.Go.Duration.{format_duration}
use syncflux.Go.Text.{concat}
use syncflux.Go.Time.{Duration}
use syncflux.Influx.{Value, text, number, bool, Query, Response, Answer, answered, failed}
use syncflux.Agent.Schema.{Fields, MeasurementSch, RetPol, insert}

-- A query of which only the command is set.
abbrev pub command_query : String → Query
command_query cmd = record {
  command = cmd;
  database = "";
  retention_policy = "";
  precision = "";
  chunked = false;
  chunk_size = 0;
}

-- A query on a database and a retention policy.
abbrev pub scoped_query : String → String → String → Query
scoped_query cmd db rp = record {
  command = cmd;
  database = db;
  retention_policy = rp;
  precision = "";
  chunked = false;
  chunk_size = 0;
}

-- The command of CreateDB.
unfoldable pub create_db_command : String → RetPol → String
create_db_command db rp = concat (
    "CREATE DATABASE \""
    ∷ db
    ∷ "\" WITH DURATION "
    ∷ format_duration rp.duration
    ∷ " REPLICATION "
    ∷ format_int rp.n_replicas
    ∷ " SHARD DURATION "
    ∷ format_duration rp.shard_group_duration
    ∷ " NAME "
    ∷ "\""
    ∷ rp.name
    ∷ "\""
    ∷ [])

-- The command of CreateRP.
unfoldable pub create_rp_command : String → RetPol → String
create_rp_command db rp = concat (
    "CREATE RETENTION POLICY \""
    ∷ rp.name
    ∷ "\" ON \""
    ∷ db
    ∷ "\" DURATION "
    ∷ format_duration rp.duration
    ∷ " REPLICATION "
    ∷ format_int rp.n_replicas
    ∷ " SHARD DURATION "
    ∷ format_duration rp.shard_group_duration
    ∷ (if rp.def then " DEFAULT" else "")
    ∷ [])

-- The command of SetDefaultRP.
unfoldable pub set_default_rp_command : String → RetPol → String
set_default_rp_command db rp =
    concat ("ALTER RETENTION POLICY \"" ∷ rp.name ∷ "\" ON \"" ∷ db ∷ "\" DEFAULT" ∷ [])

-- `response.Results[0].Series[0].Values`; each index panics out of range.
abbrev pub first_values : Response → Outcome (List (List Value))
first_values r = elim r.results [
  | [] ↦ panic
  | res ∷ rest ↦ elim res [ [] ↦ panic | ser ∷ more ↦ ret ser.values ]
]

-- `v.(string)`, `v.(json.Number)` and `v.(bool)`.
abbrev as_string : Option Value → Outcome String
as_string (some (text s)) = ret s
as_string _ = panic

abbrev as_number : Option Value → Outcome String
as_number (some (number s)) = ret s
as_number _ = panic

abbrev as_bool : Option Value → Outcome Bool
as_bool (some (bool b)) = ret b
as_bool _ = panic

-- The loop of GetDataBases over the rows.
unfoldable pub database_names : List (List Value) → List String → Outcome (List String)
database_names [] databases = ret databases
database_names (k ∷ rows) databases = elim (as_string (get_elem? k 0)) [
  | panic ↦ panic
  | ret db ↦ database_names rows (if str_eq db "_internal" then databases else databases ++ db ∷ [])
]

-- One row of GetRetentionPolicies; none where a duration does not parse. The error of the number of
-- replicas is not looked at: the test after it is on the error of the duration before.
unfoldable pub retention_policy : (String → Option Duration) → List Value → Outcome (Option RetPol)
retention_policy parse_duration k = elim (as_string (get_elem? k 1)) [
  | panic ↦ panic
  | ret duration ↦ elim (parse_duration duration) [
    | none ↦ ret none
    | some d ↦ elim (as_string (get_elem? k 2)) [
      | panic ↦ panic
      | ret shard ↦ elim (parse_duration shard) [
        | none ↦ ret none
        | some sgd ↦ elim (as_number (get_elem? k 3)) [
          | panic ↦ panic
          | ret replicas ↦ elim (as_string (get_elem? k 0)) [
            | panic ↦ panic
            | ret name ↦ elim (as_bool (get_elem? k 4)) [
              | panic ↦ panic
              | ret def ↦ ret (
                  some (record {
                    name = name;
                    duration = d;
                    shard_group_duration = sgd;
                    n_replicas = (parse_int replicas 64).0;
                    def = def;
                    measurements = [];
                  }))
            ]
          ]
        ]
      ]
    ]
  ]
]

unfoldable pub retention_policies :
    (String → Option Duration) → List (List Value) → List RetPol → Outcome (List RetPol)
retention_policies parse_duration [] rparray = ret rparray
retention_policies parse_duration (k ∷ rows) rparray = elim (retention_policy parse_duration k) [
  | panic ↦ panic
  | ret none ↦ retention_policies parse_duration rows rparray
  | ret (some rp) ↦ retention_policies parse_duration rows (rparray ++ rp ∷ [])
]

-- The loop of GetFields over the rows.
unfoldable pub field_keys : List (List Value) → Fields → Outcome Fields
field_keys [] fields = ret fields
field_keys (row ∷ rows) fields = elim (as_string (get_elem? row 0)) [
  | panic ↦ panic
  | ret fieldname ↦ elim (as_string (get_elem? row 1)) [
    | panic ↦ panic
    | ret fieldtype ↦
        field_keys rows (insert fieldname (record { name = fieldname; type = fieldtype }) fields)
  ]
]

-- The loop of GetMeasurements. `fmt` prints a value that is no text, as `%v` does.
unfoldable pub measurement_names :
    (Value → String) → List (List Value) → Outcome (List MeasurementSch)
measurement_names fmt [] = ret []
measurement_names fmt ([] ∷ rows) = panic
measurement_names fmt ((v ∷ row) ∷ rows) =
    let rest = measurement_names fmt rows in
    let name : String = elim v [ text s ↦ s | unknown ↦ fmt unknown ] in
    elim rest [ panic ↦ panic | ret ms ↦ ret (record { name = name; fields = [] } ∷ ms) ]

-- The rows of an answer that GetFields and GetMeasurements go through. They go on after an error, to
-- a response that may be nil; a result with no series has no row.
unfoldable pub rows_anyway : Answer → Outcome (List (List Value))
rows_anyway (failed none e) = panic
rows_anyway (failed (some r) e) = elim r.results [
  | [] ↦ panic
  | res ∷ rest ↦ elim res [ [] ↦ ret [] | ser ∷ more ↦ ret ser.values ]
]
rows_anyway (answered r) = elim r.results [
  | [] ↦ panic
  | res ∷ rest ↦ elim res [ [] ↦ ret [] | ser ∷ more ↦ ret ser.values ]
]
