-- ===== src/Agent/Commands.antt =====
-- The statements of pkg/agent/client.go that describe or change a database's schema, as queries to
-- one connection.
use syncflux.Prelude.{String, Option, none, some, List, [], ◌∷◌, str_eq, if◌then◌else◌}
use syncflux.Go.{Error, Outcome, ret, panic, Action, Result, ok, err}
use syncflux.Go.Text.{concat}
use syncflux.Go.Time.{Duration}
use syncflux.Influx.{Value, Query, answered, failed, Client}
use syncflux.Agent.Schema.{Fields, MeasurementSch, RetPol}
use syncflux.Agent.Monitor.{answer_error, show_databases}
use syncflux.Agent.Statements.{
  command_query, scoped_query, create_db_command, create_rp_command, set_default_rp_command,
  first_values, database_names, retention_policies, field_keys, measurement_names, rows_anyway,
}

module _ {C B W : Type 0} (client : Client C W B) where
  -- A command that is sent for its effect, and its error.
  unfoldable pub run_command : C → String → W → Option Error × W
  unfolding answer_error
  run_command con cmd w =
      let (answer, w') = client.query con (command_query cmd) w in (answer_error answer, w')

  -- CreateDB.
  unfoldable pub create_db : C → String → RetPol → W → Option Error × W
  unfolding run_command
  create_db con db rp w =
      let sent = run_command con (create_db_command db rp) w in
      if str_eq db "_internal" then (none, w) else sent

  -- CreateRP.
  unfoldable pub create_rp : C → String → RetPol → W → Option Error × W
  unfolding run_command
  create_rp con db rp = run_command con (create_rp_command db rp)

  -- SetDefaultRP.
  unfoldable pub set_default_rp : C → String → RetPol → W → Option Error × W
  unfolding run_command
  set_default_rp con db rp = run_command con (set_default_rp_command db rp)

  -- A query whose error is returned, and whose rows are read by `rows` otherwise.
  unfoldable pub list_query :
      {A : Type 0} → (List (List Value) → Outcome A) → C → Query → Action W (Result A)
  list_query rows con q w =
      let (answer, w') = client.query con q w in
      elim answer [
        | failed r e ↦ (ret (err e), w')
        | answered r ↦ elim r.error [
          | some e ↦ (ret (err e), w')
          | none ↦ elim (first_values r) [
            | panic ↦ (panic, w')
            | ret values ↦ elim (rows values) [ panic ↦ (panic, w') | ret a ↦ (ret (ok a), w') ]
          ]
        ]
      ]

  -- GetDataBases.
  unfoldable pub get_databases : C → Action W (Result (List String))
  unfolding list_query
  get_databases con = list_query (λ values. database_names values []) con show_databases

  -- GetRetentionPolicies.
  unfoldable pub get_retention_policies :
      (String → Option Duration) → C → String → Action W (Result (List RetPol))
  unfolding list_query
  get_retention_policies parse_duration con db =
      list_query (λ values. retention_policies parse_duration values []) con
        (command_query (concat ("show retention policies on \"" ∷ db ∷ "\"" ∷ [])))

  -- GetFields.
  unfoldable pub get_fields : C → String → String → String → Action W Fields
  get_fields c sdb meas rp w =
      let q = scoped_query (concat ("show field keys from \"" ∷ meas ∷ "\"" ∷ [])) sdb rp in
      let (answer, w') = client.query c q w in
      elim (rows_anyway answer) [ panic ↦ (panic, w') | ret rows ↦ (field_keys rows [], w') ]

  -- GetMeasurements. Its filter is not used.
  unfoldable pub get_measurements :
      (Value → String) → C → String → String → String → Action W (List MeasurementSch)
  get_measurements fmt c sdb rp mesafilter w =
      let (answer, w') = client.query c (scoped_query "show measurements" sdb rp) w in
      elim (rows_anyway answer) [
        | panic ↦ (panic, w')
        | ret rows ↦ (measurement_names fmt rows, w')
      ]
