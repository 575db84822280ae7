-- ===== src/Agent/Discovery/Total.antt =====
-- GetSchema on a server that answers the statements as documented.
use mathlib.Core.Path.{subst}
use syncflux.Prelude.{
  arith, ◌≡◌, refl, String, Option, none, some, List, [], ◌∷◌, All, if◌then◌else◌, Bool-cases, inl,
  inr,
}
use syncflux.Go.{Outcome, Result-cases, ret, Result, ok, err}
use syncflux.Go.Fallible.{Ensures}
use syncflux.Influx.{Client}
use syncflux.Agent.Schema.{MeasurementSch, RetPol, InfluxSchDb, insert}
use syncflux.Agent.Commands.{get_databases, get_retention_policies, get_measurements, get_fields}
use syncflux.Agent.Discovery.{
  Filter, passes, Libraries, compile_filter, add_measurements, with_measurements, scan_policies,
  entry_of, scan_database, scan_databases, get_schema,
}
use syncflux.Agent.Discovery.Entries.{IsEntry, Kept, get_schema-IsEntry, scan_policies-Kept}
use syncflux.Agent.Discovery.Readable.{
  Readable, get_databases-Returns, get_retention_policies-Returns, get_measurements-Returns,
  get_fields-Returns,
}

-- A chain returns a value and no error.
abbrev Gives : {A : Type 0} → Outcome (Result A) → Type 0
Gives {A = A} o = (a : A) × (o ≡ ret (ok a))

module _ {C B W : Type 0} (libraries : Libraries) (client : Client C W B) (c : C)
    (readable : Readable client c) where
  add_measurements-Gives :
      (filtermeas : Filter) (db rp : String) (meas : List MeasurementSch)
      (mf : List (String × MeasurementSch)) (w : W)
      → Gives (add_measurements libraries client c filtermeas db rp meas mf w).0
  unfolding add_measurements
  add_measurements-Gives filtermeas db rp [] mf w = (mf, refl)
  add_measurements-Gives filtermeas db rp (m ∷ meas) mf w =
      elim (Bool-cases (passes filtermeas m.name)) [
        | inr skipped ↦
            let (a, e) = add_measurements-Gives filtermeas db rp meas mf w in
            (a, ground (arith, skipped, e))
        | inl passed ↦
            let (fields, f) = get_fields-Returns client c readable db m.name rp w in
            let (a, e) =
              add_measurements-Gives filtermeas db rp meas
                (insert m.name (record m { fields = fields }) mf)
                (get_fields client c db m.name rp w).1 in
            (a, ground (arith, passed, f, e))
      ]

  with_measurements-Gives :
      (measfilter db : String) (filtermeas : Filter) (rp : RetPol) (w : W)
      → compile_filter libraries measfilter ≡ ok filtermeas
      → Gives (with_measurements libraries client c measfilter db rp w).0
  unfolding with_measurements
  with_measurements-Gives measfilter db filtermeas rp w compiled =
      let (meas, e) =
        get_measurements-Returns client c libraries.fmt readable db rp.name measfilter w in
      let (mf, f) =
        add_measurements-Gives filtermeas db rp.name meas []
          (get_measurements client libraries.fmt c db rp.name measfilter w).1 in
      (record rp { measurements = mf }, ground (arith, compiled, e, f))

  scan_policies-Gives :
      (filterrp filtermeas : Filter) (measfilter db : String) (rps : List RetPol)
      (default : Option RetPol) (w : W)
      → compile_filter libraries measfilter ≡ ok filtermeas
      → Gives (scan_policies libraries client c filterrp measfilter db rps default w).0
  unfolding scan_policies
  scan_policies-Gives filterrp filtermeas measfilter db [] default w compiled = (_, refl)
  scan_policies-Gives filterrp filtermeas measfilter db (rp ∷ rps) default w compiled =
      elim (Bool-cases (passes filterrp rp.name)) [
        | inr skipped ↦
            let (a, e) =
              scan_policies-Gives filterrp filtermeas measfilter db rps default w compiled in
            ((rp ∷ a.0, a.1), ground (arith, skipped, e))
        | inl passed ↦
            let (rp', f) = with_measurements-Gives measfilter db filtermeas rp w compiled in
            let (a, e) =
              scan_policies-Gives filterrp filtermeas measfilter db rps
                (if rp.def then some rp else default)
                (with_measurements libraries client c measfilter db rp w).1 compiled in
            ((rp' ∷ a.0, a.1), ground (arith, passed, f, e))
      ]

  scan_database-Gives :
      (filterdb filterrp filtermeas : Filter) (rpfilter measfilter db : String) (w : W)
      → compile_filter libraries rpfilter ≡ ok filterrp
      → compile_filter libraries measfilter ≡ ok filtermeas
      → Gives (scan_database libraries client c filterdb rpfilter measfilter db w).0
  unfolding scan_database
  scan_database-Gives filterdb filterrp filtermeas rpfilter measfilter db w compiled compiled' =
      let w1 = (get_retention_policies client libraries.parse_duration c db w).1 in
      let (listed, e) =
        get_retention_policies-Returns client c libraries.parse_duration readable db w in
      elim (Bool-cases (passes filterdb db)) [
        | inr skipped ↦ (none, ground (arith, skipped))
        | inl passed ↦ elim (Result-cases listed) [
          | inl (x, y) ↦ (none, ground (arith, passed, e, y))
          | inr (rps, y) ↦
              let (a, f) =
                scan_policies-Gives filterrp filtermeas measfilter db rps none w1 compiled' in
              (entry_of libraries client c db a, ground (arith, passed, compiled, e, y, f))
        ]
      ]

  scan_databases-Gives :
      (filterdb filterrp filtermeas : Filter) (rpfilter measfilter : String) (dbs : List String)
      (w : W)
      → compile_filter libraries rpfilter ≡ ok filterrp
      → compile_filter libraries measfilter ≡ ok filtermeas
      → Gives (scan_databases libraries client c filterdb rpfilter measfilter dbs w).0
  unfolding scan_databases
  scan_databases-Gives filterdb filterrp filtermeas rpfilter measfilter [] w compiled compiled' =
      ([], refl)
  scan_databases-Gives filterdb filterrp filtermeas rpfilter measfilter (db ∷ dbs) w compiled
        compiled' =
      let (entry, e) =
        scan_database-Gives filterdb filterrp filtermeas rpfilter measfilter db w compiled
          compiled' in
      let (rest, f) =
        scan_databases-Gives filterdb filterrp filtermeas rpfilter measfilter dbs
          (scan_database libraries client c filterdb rpfilter measfilter db w).1 compiled
          compiled' in
      (elim entry [ none ↦ rest | some x ↦ x ∷ rest ], ground (arith, e, f))

  get_schema-Gives :
      (filterdb filterrp filtermeas : Filter) (dbfilter rpfilter measfilter : String) (w : W)
      → compile_filter libraries dbfilter ≡ ok filterdb
      → compile_filter libraries rpfilter ≡ ok filterrp
      → compile_filter libraries measfilter ≡ ok filtermeas
      → Gives (get_schema libraries client c dbfilter rpfilter measfilter w).0
  unfolding get_schema
  get_schema-Gives filterdb filterrp filtermeas dbfilter rpfilter measfilter w compiled compiled'
        compiled'' =
      let w1 = (get_databases client c w).1 in
      let (src_dbs, e) = get_databases-Returns client c readable w in
      let (schema, f) =
        scan_databases-Gives filterdb filterrp filtermeas rpfilter measfilter
          (elim src_dbs [ ok dbs ↦ dbs | err x ↦ [] ]) w1 compiled' compiled'' in
      (schema, ground (arith, compiled, e, f))

  -- On a server that answers the statements as documented, or with errors where it lists databases and policies, and
  -- with three filters that compile, GetSchema returns a schema and no error. Each of its entries is for a database
  -- that the database filter lets through, has not been renamed, and has a default retention policy among its policies,
  -- one that the policy filter lets through.
  pub get_schema_lem :
      (filterdb filterrp filtermeas : Filter) (dbfilter rpfilter measfilter : String) (w : W)
      → compile_filter libraries dbfilter ≡ ok filterdb
      → compile_filter libraries rpfilter ≡ ok filterrp
      → compile_filter libraries measfilter ≡ ok filtermeas
      → (schema : List InfluxSchDb) × ((get_schema libraries client c dbfilter rpfilter measfilter
            w).0
          ≡ ret (ok schema))
        × All (IsEntry filterdb filterrp) schema
  get_schema_lem filterdb filterrp filtermeas dbfilter rpfilter measfilter w compiled compiled'
        compiled'' =
      let (schema, e) =
        get_schema-Gives filterdb filterrp filtermeas dbfilter rpfilter measfilter w compiled
          compiled' compiled'' in
      (
        schema,
        e,
        subst (Ensures (All (IsEntry filterdb filterrp))) e (
            get_schema-IsEntry libraries client c dbfilter rpfilter measfilter filterdb filterrp w
              compiled compiled'),
      )

  -- A scan of the policies of a database, on a server that answers the statements as documented and with a filter of
  -- measurements that compiles, returns policies and no error. They are those that it was given, all of them and in
  -- their order: one that the policy filter skips is not dropped but unchanged, and any other differs in its
  -- measurements only.
  pub scan_policies_lem :
      (filterrp filtermeas : Filter) (measfilter db : String) (rps : List RetPol)
      (default : Option RetPol) (w : W)
      → compile_filter libraries measfilter ≡ ok filtermeas
      → (found : List RetPol × Option RetPol) × ((scan_policies libraries client c filterrp
            measfilter db rps default w).0
          ≡ ret (ok found))
        × Kept filterrp rps found.0
  scan_policies_lem filterrp filtermeas measfilter db rps default w compiled =
      let (found, e) =
        scan_policies-Gives filterrp filtermeas measfilter db rps default w compiled in
      (
        found,
        e,
        subst (Ensures (λ a. Kept filterrp rps a.0)) e
            (scan_policies-Kept libraries client c filterrp measfilter db rps default w),
      )
