-- ===== src/Agent/Discovery/Readable.antt =====
-- Answers of a server that the statements of Agent/Commands read without a panic.
use mathlib.Core.Path.{subst}
use syncflux.Prelude.{
  arith, ◌≡◌, ◌≢◌, refl, String, Bool, Option, none, some, List, [], ◌∷◌, ◌++◌, All, get_elem?, inl,
  inr, Option-cases,
}
use syncflux.Go.{Outcome, Outcome-cases, Returns, Returns-of, ret, panic}
use syncflux.Go.Text.{concat}
use syncflux.Go.Time.{Duration}
use syncflux.Influx.{
  Query, Value, text, number, bool, Answer, Answer-cases, answered, failed, Client,
}
use syncflux.Agent.Schema.{Fields, RetPol}
use syncflux.Agent.Monitor.{show_databases}
use syncflux.Agent.Statements.{
  command_query, scoped_query, first_values, database_names, retention_policy, retention_policies,
  field_keys, measurement_names, rows_anyway,
}
use syncflux.Agent.Commands.{
  list_query, get_databases, get_retention_policies, get_measurements, get_fields,
}

-- The rows that the four statements expect.
abbrev pub IsDatabaseRow : List Value → Type 0
IsDatabaseRow k = (name : String) × (get_elem? k 0 ≡ some (text name))

abbrev pub IsPolicyRow : List Value → Type 0
IsPolicyRow k =
    (name : String) × (duration : String) × (shard : String) × (replicas : String) × (def : Bool)
    × (get_elem? k 0 ≡ some (text name))
    × (get_elem? k 1 ≡ some (text duration))
    × (get_elem? k 2 ≡ some (text shard))
    × (get_elem? k 3 ≡ some (number replicas))
    × (get_elem? k 4 ≡ some (bool def))

abbrev pub IsMeasurementRow : List Value → Type 0
IsMeasurementRow k = k ≢ []

abbrev pub IsFieldRow : List Value → Type 0
IsFieldRow k =
    (name : String) × (type : String) × (get_elem? k 0 ≡ some (text name))
    × (get_elem? k 1 ≡ some (text type))

-- An answer without an error has a first series, with rows of a kind.
abbrev pub Lists : (List Value → Type 0) → Answer → Type 0
Lists IsRow (failed r e) = Unit
Lists IsRow (answered r) =
    r.error ≡ none → (rows : List (List Value)) × (first_values r ≡ ret rows) × All IsRow rows

-- An answer has a first result, with rows of a kind.
abbrev pub HasRows : (List Value → Type 0) → Answer → Type 0
HasRows IsRow answer = (rows : List (List Value)) × (rows_anyway answer ≡ ret rows) × All IsRow rows

-- A server that answers the four statements as its documentation says.
pub record Readable {C B W : Type 0} (client : Client C W B) (c : C) : Type 0 where
  pub databases : (w : W) → Lists IsDatabaseRow (client.query c show_databases w).0
  pub policies :
      (db : String) (w : W)
      → Lists IsPolicyRow
          (client.query c
            (command_query (concat ("show retention policies on \"" ∷ db ∷ "\"" ∷ [])))
            w).0
  pub measurements :
      (db rp : String) (w : W)
      → HasRows IsMeasurementRow (client.query c (scoped_query "show measurements" db rp) w).0
  pub fields :
      (db meas rp : String) (w : W)
      → HasRows IsFieldRow
          (client.query c
            (scoped_query (concat ("show field keys from \"" ∷ meas ∷ "\"" ∷ [])) db rp)
            w).0

database_names-Returns :
    (rows : List (List Value)) (dbs : List String)
    → All IsDatabaseRow rows
    → Returns (database_names rows dbs)
unfolding database_names
database_names-Returns [] dbs h = (dbs, refl)
database_names-Returns (k ∷ rows) dbs ((name, e), h) =
    rw (e, database_names) (database_names-Returns rows _ h)

retention_policy-ne-panic :
    (parse_duration : String → Option Duration) (k : List Value)
    → IsPolicyRow k
    → retention_policy parse_duration k ≢ panic
unfolding retention_policy
retention_policy-ne-panic parse_duration k (name, duration, shard, replicas, def, a, b, c, d, e) =
    ground (arith, a, b, c, d, e)

retention_policies-Returns :
    (parse_duration : String → Option Duration) (rows : List (List Value)) (rps : List RetPol)
    → All IsPolicyRow rows
    → Returns (retention_policies parse_duration rows rps)
unfolding retention_policies
retention_policies-Returns parse_duration [] rps h = (rps, refl)
retention_policies-Returns parse_duration (k ∷ rows) rps (hk, h) =
    elim (Outcome-cases (retention_policy parse_duration k)) [
      | inl x ↦ absurd (retention_policy-ne-panic parse_duration k hk x)
      | inr (none, x) ↦
          rw (x, retention_policies) (retention_policies-Returns parse_duration rows rps h)
      | inr (some rp, x) ↦
          rw (x, retention_policies)
            (retention_policies-Returns parse_duration rows (rps ++ rp ∷ []) h)
    ]

field_keys-Returns :
    (rows : List (List Value)) (fields : Fields)
    → All IsFieldRow rows
    → Returns (field_keys rows fields)
unfolding field_keys
field_keys-Returns [] fields h = (fields, refl)
field_keys-Returns (k ∷ rows) fields ((name, type, a, b), h) =
    rw (a, b, field_keys) (field_keys-Returns rows _ h)

measurement_names-ne-panic :
    (fmt : Value → String) (rows : List (List Value))
    → All IsMeasurementRow rows
    → measurement_names fmt rows ≢ panic
unfolding measurement_names
measurement_names-ne-panic fmt [] h = ground arith
measurement_names-ne-panic fmt ([] ∷ rows) (hk, h) = absurd (hk refl)
measurement_names-ne-panic fmt ((v ∷ k) ∷ rows) (hk, h) =
    ground (arith, measurement_names-ne-panic fmt rows h)

module _ {C B W : Type 0} (client : Client C W B) (c : C) where
  list_query-ne-panic :
      {A : Type 0} (rows : List (List Value) → Outcome A) (IsRow : List Value → Type 0) (q : Query)
      (w : W)
      → Lists IsRow (client.query c q w).0
      → ((values : List (List Value)) → All IsRow values → Returns (rows values))
      → (list_query client rows c q w).0 ≢ panic
  unfolding list_query
  list_query-ne-panic rows IsRow q w lists reads = elim (Answer-cases (client.query c q w).0) [
    | inr (r, e, x) ↦ ground (arith, x)
    | inl (r, x) ↦ elim (Option-cases r.error) [
      | inr (e, y) ↦ ground (arith, x, y)
      | inl y ↦
          let (values, first, all) = subst (Lists IsRow) x lists y in
          let (a, read) = reads values all in ground (arith, x, y, first, read)
    ]
  ]

  pub get_databases-Returns : Readable client c → (w : W) → Returns (get_databases client c w).0
  unfolding get_databases
  get_databases-Returns readable w = Returns-of _ (
      list_query-ne-panic (λ values. database_names values []) IsDatabaseRow show_databases w
        (readable.databases w) (λ values h. database_names-Returns values [] h))

  pub get_retention_policies-Returns :
      (parse_duration : String → Option Duration)
      → Readable client c
      → (db : String) (w : W) → Returns (get_retention_policies client parse_duration c db w).0
  unfolding get_retention_policies
  get_retention_policies-Returns parse_duration readable db w = Returns-of _ (
      list_query-ne-panic (λ values. retention_policies parse_duration values []) IsPolicyRow
        (command_query (concat ("show retention policies on \"" ∷ db ∷ "\"" ∷ []))) w
        (readable.policies db w)
        (λ values h. retention_policies-Returns parse_duration values [] h))

  pub get_measurements-Returns :
      (fmt : Value → String)
      → Readable client c
      → (db rp measfilter : String) (w : W)
      → Returns (get_measurements client fmt c db rp measfilter w).0
  unfolding get_measurements
  get_measurements-Returns fmt readable db rp measfilter w =
      let (rows, e, all) = readable.measurements db rp w in
      let (ms, f) =
        Returns-of (measurement_names fmt rows) (measurement_names-ne-panic fmt rows all) in
      (ms, ground (arith, e, f))

  pub get_fields-Returns :
      Readable client c
      → (db meas rp : String) (w : W) → Returns (get_fields client c db meas rp w).0
  unfolding get_fields
  get_fields-Returns readable db meas rp w =
      let (rows, e, all) = readable.fields db meas rp w in
      let (fields, f) = field_keys-Returns rows [] all in (fields, ground (arith, e, f))
