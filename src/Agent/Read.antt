-- ===== src/Agent/Read.antt =====
-- ReadDB of pkg/agent/client.go: a query, with retries, and the conversion of its answer into points of
-- the target's batch.
pub mod Rows
pub mod Exact
pub mod Retries
use syncflux.Prelude.{
  ℕ, suc, ◌+◌, ℤ, pos, String, Bool, true, Option, none, some, List, [], ◌∷◌, quot, rem, str_eq,
  if◌then◌else◌, ltb, length, get_elem?, ◌||◌,
}
use syncflux.Go.{Error, Outcome, ret, panic, Action, Result, ok, err}
use syncflux.Go.Strconv.{parse_int, parse_uint}
use syncflux.Go.Time.{Time, second, unix}
use syncflux.Influx.{
  Value, null, number, text, int64, uint64, float64, Series, Response, Query, answered, failed,
  BatchConfig, Points, Client,
}
use syncflux.Try.{Func, do_retry}
use syncflux.Agent.Schema.{FieldSch, Fields, lookup, insert}

-- UnixNano2Time.
unfoldable pub unix_nano2_time : ℤ → Time
unix_nano2_time tstamp = unix (quot tstamp (pos second)) (rem tstamp (pos second))

-- StrUnixNano2Time; none for a text that is no int64.
unfoldable pub str_unix_nano2_time : String → Option Time
unfolding unix_nano2_time
str_unix_nano2_time tstamp =
    let (i, e) = parse_int tstamp 64 in elim e [ none ↦ some (unix_nano2_time i) | some _ ↦ none ]

-- The switch on the type of `v[0]`. A json.Number that is no int64 counts as the value that
-- ParseInt returns beside its error.
unfoldable pub timestamp_of : Value → Option Time
unfolding str_unix_nano2_time
timestamp_of (text t) = str_unix_nano2_time t
timestamp_of (int64 t) = some (unix_nano2_time t)
timestamp_of (number t) = some (unix_nano2_time (parse_int t 64).0)
timestamp_of _ = none

-- The query that ReadDB sends.
unfoldable pub read_query : String → String → String → Query
read_query sdb srp cmd = record {
  command = cmd;
  database = sdb;
  retention_policy = srp;
  precision = "ns";
  chunked = true;
  chunk_size = 10000;
}

module _ {B C W : Type 0} (client : Client C W B) where
  -- One query of the closure that ReadDB retries; it sets the captured variable `response`.
  unfoldable pub query_once : C → Query → W × Option Response → Option Error × (W × Option Response)
  query_once c q (w, response) =
      let (answer, w') = client.query c q w in
      elim answer [ answered r ↦ (none, (w', some r)) | failed r e ↦ (some e, (w', r)) ]

  -- The closure: it asks for another attempt while `attempt < RWMaxRetries`.
  abbrev pub query_attempt : ℕ → C → Query → Func (W × Option Response)
  query_attempt max_retries c q attempt s =
      let (qerr, s') = query_once c q s in (ltb attempt max_retries, qerr, s')

module _ (parse_float : String → ℕ) where
  -- The switch on the type that the schema gives a field. A text that does not parse is logged, and
  -- what the parser returns beside its error is used; an unknown type sets no field.
  unfoldable pub convert_number : String → String → Option Value
  convert_number type vt =
      if str_eq type "float"
      then some (float64 (parse_float vt))
      else if str_eq type "integer"
      then some (int64 (parse_int vt 64).0)
      else if str_eq type "unsigned"
      then some (uint64 (parse_uint vt 64).0)
      else if str_eq type "boolean" || str_eq type "string"
      then some (text vt)
      else none

  -- `field[ser.Columns[i]] = …`; a column that the row has no name for is out of range.
  set_field : Option String → Value → List (String × Value) → Outcome (List (String × Value))
  set_field none val field = panic
  set_field (some column) val field = ret (insert column val field)

  -- A number in a column: the read of a column that the schema does not have gives a nil pointer,
  -- whose `Type` panics.
  set_number :
      Fields → Option String → String → List (String × Value) → Outcome (List (String × Value))
  set_number fieldmap none vt field = panic
  set_number fieldmap (some column) vt field = elim (lookup column fieldmap) [
    | none ↦ panic
    | some tp ↦ elim (convert_number tp.type vt) [
      | none ↦ ret field
      | some conv ↦ ret (insert column conv field)
    ]
  ]

  -- One cell of a row; nil cells are skipped.
  unfoldable pub set_cell :
      Fields → Option String → Value → List (String × Value) → Outcome (List (String × Value))
  unfolding set_field set_number
  set_cell fieldmap column null field = ret field
  set_cell fieldmap column (number vt) field = set_number fieldmap column vt field
  set_cell fieldmap column val field = set_field column val field

  -- The loop over the cells `v[i]`, `v[i + 1]`, ….
  unfoldable pub fields_from :
      Fields
      → List String
      → ℕ
      → List Value
      → List (String × Value)
      → Outcome (List (String × Value))
  fields_from fieldmap columns i [] field = ret field
  fields_from fieldmap columns i (val ∷ v) field =
      elim (set_cell fieldmap (get_elem? columns i) val field) [
        | panic ↦ panic
        | ret field' ↦ fields_from fieldmap columns (i + 1) v field'
      ]

  module _ {P B : Type 0} (api : Points P B) where
    open api use {new_point, add_point, new_batch}

    -- One row: the point that is made of it, if one is.
    unfoldable pub point_of : Fields → Series → List Value → Outcome (Option P)
    point_of fieldmap ser [] = panic
    point_of fieldmap ser (t ∷ v) = elim (timestamp_of t) [
      | none ↦ ret none
      | some timestamp ↦ elim (fields_from fieldmap ser.columns 1 v []) [
        | panic ↦ panic
        | ret field ↦ elim (new_point ser.name ser.tags field timestamp) [
          | ok point ↦ ret (some point)
          | err e ↦ ret none
        ]
      ]
    ]

    -- The loop over the rows of a series, with the batch and the count of points so far.
    unfoldable pub read_rows : Fields → Series → List (List Value) → B × ℕ → Outcome (B × ℕ)
    read_rows fieldmap ser [] acc = ret acc
    read_rows fieldmap ser (v ∷ values) (batchpoints, totalpoints) =
        elim (point_of fieldmap ser v) [
          | panic ↦ panic
          | ret none ↦ read_rows fieldmap ser values (batchpoints, totalpoints)
          | ret (some point) ↦
              read_rows fieldmap ser values (add_point batchpoints point, totalpoints + 1)
        ]

    unfoldable pub read_series : Fields → List Series → B × ℕ → Outcome (B × ℕ)
    read_series fieldmap [] acc = ret acc
    read_series fieldmap (ser ∷ series) acc = elim (read_rows fieldmap ser ser.values acc) [
      | panic ↦ panic
      | ret acc' ↦ read_series fieldmap series acc'
    ]

    -- The loop over the results of a response.
    unfoldable pub read_results : Fields → List (List Series) → B × ℕ → Outcome (B × ℕ)
    read_results fieldmap [] acc = ret acc
    read_results fieldmap (res ∷ results) acc = elim (read_series fieldmap res acc) [
      | panic ↦ panic
      | ret acc' ↦ read_results fieldmap results acc'
    ]

    -- What ReadDB does with `response.Results` once the query has succeeded.
    read_response : Fields → B → Option Response → Outcome (Result (B × ℕ))
    read_response fieldmap batchpoints none = panic
    read_response fieldmap batchpoints (some response) =
        elim (read_results fieldmap response.results (batchpoints, 0)) [
          | panic ↦ panic
          | ret acc ↦ ret (ok acc)
        ]

    module _ {C W : Type 0} (client : Client C W B) where
      -- ReadDB. Its three results are an error, or a batch and its number of points.
      unfoldable pub read_db :
          ℕ → C → String → String → String → String → String → Fields → Action W (Result (B × ℕ))
      unfolding query_once read_query read_response
      read_db max_retries c sdb srp ddb drp cmd fieldmap w =
          elim (new_batch (record { database = ddb; retention_policy = drp; precision = "ns" })) [
            | err e ↦ (ret (err e), w)
            | ok batchpoints ↦
                let q = read_query sdb srp cmd in
                let (e, (w', response)) =
                  do_retry (query_attempt client max_retries c q) (w, none) in
                elim e [
                  | some qerr ↦ (ret (err qerr), w')
                  | none ↦ (read_response fieldmap batchpoints response, w')
                ]
          ]
