-- ===== src/Agent/Discovery/Entries.antt =====
-- What GetSchema reports of the databases it lists.
use syncflux.Prelude.{
  arith, ◌≡◌, refl, String, true, false, Option, none, some, List, [], ◌∷◌, All, if◌then◌else◌,
  Bool-cases, inl, inr, ◌⊎◌,
}
use syncflux.Go.{Outcome, ret, panic, Result, ok, err}
use syncflux.Go.Fallible.{Ensures}
use syncflux.Influx.{Client}
use syncflux.Agent.Schema.{RetPol, InfluxSchDb}
use syncflux.Agent.Commands.{get_databases, get_retention_policies}
use syncflux.Agent.Discovery.{
  Filter, passes, Libraries, compile_filter, with_measurements, scan_policies, scan_database,
  scan_databases, get_schema,
}

-- The retention policies before and after the scan: in the same order, changed in their measurements only,
-- and not at all where the filter skips them.
abbrev pub Kept : Filter → List RetPol → List RetPol → Type 0
Kept filterrp [] [] = Unit
Kept filterrp [] (_ ∷ _) = ⊥
Kept filterrp (_ ∷ _) [] = ⊥
Kept filterrp (rp ∷ rps) (rp' ∷ rps') =
    (record rp { measurements = rp'.measurements } ≡ rp')
    × (passes filterrp rp.name ≡ false → rp' ≡ rp)
    × Kept filterrp rps rps'

-- One of the policies is a default policy of this name that the filter lets through.
abbrev pub HasDefault : Filter → String → List RetPol → Type 0
HasDefault filterrp name [] = ⊥
HasDefault filterrp name (rp ∷ rps) =
    ((rp.name ≡ name) × (rp.def ≡ true) × (passes filterrp rp.name ≡ true))
    ⊎ HasDefault filterrp name rps

-- The default policy that a scan found is the one given, or stands in the list.
abbrev FoundIn : Filter → Option RetPol → List RetPol × Option RetPol → Type 0
FoundIn filterrp default (rps, none) = Unit
FoundIn filterrp default (rps, some d) = (default ≡ some d) ⊎ HasDefault filterrp d.name rps

-- A sound entry of the schema.
abbrev pub IsEntry : Filter → Filter → InfluxSchDb → Type 0
IsEntry filterdb filterrp e =
    (passes filterdb e.name ≡ true)
    × (e.new_name ≡ e.name)
    × (e.new_def_rp ≡ e.def_rp)
    × HasDefault filterrp e.def_rp e.rps

abbrev IsEntryIfAny : Filter → Filter → Option InfluxSchDb → Type 0
IsEntryIfAny filterdb filterrp none = Unit
IsEntryIfAny filterdb filterrp (some e) = IsEntry filterdb filterrp e

module _ {C B W : Type 0} (libraries : Libraries) (client : Client C W B) (c : C) where
  with_measurements_lem :
      (measfilter db : String) (rp : RetPol) (w : W)
      → Ensures
          (λ rp'. record rp { measurements = rp'.measurements } ≡ rp')
          (with_measurements libraries client c measfilter db rp w).0
  unfolding with_measurements
  with_measurements_lem measfilter db rp w = ground arith

  -- A retention policy that the policy filter skips is not dropped: the policies that a scan returns are
  -- those of the server, all of them and in their order. One that the filter skips is unchanged, and any
  -- other differs in its measurements only.
  pub scan_policies-Kept :
      (filterrp : Filter) (measfilter db : String) (rps : List RetPol) (default : Option RetPol)
      (w : W)
      → Ensures
          (λ found. Kept filterrp rps found.0)
          (scan_policies libraries client c filterrp measfilter db rps default w).0
  unfolding scan_policies
  scan_policies-Kept filterrp measfilter db [] default w = tt
  scan_policies-Kept filterrp measfilter db (rp ∷ rps) default w =
      elim (Bool-cases (passes filterrp rp.name)) [
        | inl passed ↦ rw passed (
            ground (
              arith,
              with_measurements_lem measfilter db rp w,
              scan_policies-Kept filterrp measfilter db rps (if rp.def then some rp else default)
                  (with_measurements libraries client c measfilter db rp w).1,
            ))
        | inr skipped ↦
            rw skipped (ground (arith, scan_policies-Kept filterrp measfilter db rps default w))
      ]

  scan_policies-FoundIn :
      (filterrp : Filter) (measfilter db : String) (rps : List RetPol) (default : Option RetPol)
      (w : W)
      → Ensures
          (FoundIn filterrp default)
          (scan_policies libraries client c filterrp measfilter db rps default w).0
  unfolding scan_policies
  scan_policies-FoundIn filterrp measfilter db [] none w = tt
  scan_policies-FoundIn filterrp measfilter db [] (some d) w = inl refl
  scan_policies-FoundIn filterrp measfilter db (rp ∷ rps) default w =
      elim (Bool-cases (passes filterrp rp.name)) [
        | inl passed ↦ rw passed (
            ground (
              arith,
              with_measurements_lem measfilter db rp w,
              scan_policies-FoundIn filterrp measfilter db rps (if rp.def then some rp else default)
                  (with_measurements libraries client c measfilter db rp w).1,
            ))
        | inr skipped ↦
            rw skipped (ground (arith, scan_policies-FoundIn filterrp measfilter db rps default w))
      ]

  scan_listed :
      (filterdb filterrp : Filter) (rpfilter measfilter db : String) (w : W)
      → (listed : Outcome (Result (List RetPol))) (w' : W)
      → get_retention_policies client libraries.parse_duration c db w ≡ (listed, w')
      → compile_filter libraries rpfilter ≡ ok filterrp
      → Ensures
          (IsEntryIfAny filterdb filterrp)
          (scan_database libraries client c filterdb rpfilter measfilter db w).0
  unfolding scan_database
  scan_listed filterdb filterrp rpfilter measfilter db w (ret (ok rps)) w' e compiled =
      let found = scan_policies-FoundIn filterrp measfilter db rps none w' in
      rw (e, compiled) (ground (arith, found))
  scan_listed filterdb filterrp rpfilter measfilter db w (ret (err x)) w' e compiled =
      rw e (ground arith)
  scan_listed filterdb filterrp rpfilter measfilter db w panic w' e compiled = rw e (ground arith)

  scan_database-IsEntry :
      (filterdb filterrp : Filter) (rpfilter measfilter db : String) (w : W)
      → compile_filter libraries rpfilter ≡ ok filterrp
      → Ensures
          (IsEntryIfAny filterdb filterrp)
          (scan_database libraries client c filterdb rpfilter measfilter db w).0
  unfolding scan_database
  scan_database-IsEntry filterdb filterrp rpfilter measfilter db w compiled =
      scan_listed filterdb filterrp rpfilter measfilter db w _ _ refl compiled

  scan_databases-IsEntry :
      (filterdb filterrp : Filter) (rpfilter measfilter : String) (dbs : List String) (w : W)
      → compile_filter libraries rpfilter ≡ ok filterrp
      → Ensures
          (All (IsEntry filterdb filterrp))
          (scan_databases libraries client c filterdb rpfilter measfilter dbs w).0
  unfolding scan_databases
  scan_databases-IsEntry filterdb filterrp rpfilter measfilter [] w compiled = tt
  scan_databases-IsEntry filterdb filterrp rpfilter measfilter (db ∷ dbs) w compiled = ground (
    arith,
    scan_database-IsEntry filterdb filterrp rpfilter measfilter db w compiled,
    scan_databases-IsEntry filterdb filterrp rpfilter measfilter dbs
        (scan_database libraries client c filterdb rpfilter measfilter db w).1 compiled,
  )

  schema_listed :
      (dbfilter rpfilter measfilter : String) (filterdb filterrp : Filter) (w : W)
      → (src_dbs : Outcome (Result (List String))) (w' : W)
      → get_databases client c w ≡ (src_dbs, w')
      → compile_filter libraries dbfilter ≡ ok filterdb
      → compile_filter libraries rpfilter ≡ ok filterrp
      → Ensures
          (All (IsEntry filterdb filterrp))
          (get_schema libraries client c dbfilter rpfilter measfilter w).0
  unfolding get_schema
  schema_listed dbfilter rpfilter measfilter filterdb filterrp w (ret (ok dbs)) w' e compiled_db
        compiled_rp =
      let entries =
        scan_databases-IsEntry filterdb filterrp rpfilter measfilter dbs w' compiled_rp in
      rw compiled_db (ground (arith, e, entries))
  schema_listed dbfilter rpfilter measfilter filterdb filterrp w (ret (err x)) w' e compiled_db
        compiled_rp =
      let none_listed =
        scan_databases-IsEntry filterdb filterrp rpfilter measfilter [] w' compiled_rp in
      rw compiled_db (ground (arith, e, none_listed))
  schema_listed dbfilter rpfilter measfilter filterdb filterrp w panic w' e compiled_db
        compiled_rp =
      rw compiled_db (ground (arith, e))

  -- Whatever the server answers, each entry of a schema that GetSchema returns is for a database that the
  -- database filter lets through, has not been renamed, and has a default retention policy among its
  -- policies, one that the policy filter lets through.
  pub get_schema-IsEntry :
      (dbfilter rpfilter measfilter : String) (filterdb filterrp : Filter) (w : W)
      → compile_filter libraries dbfilter ≡ ok filterdb
      → compile_filter libraries rpfilter ≡ ok filterrp
      → Ensures
          (All (IsEntry filterdb filterrp))
          (get_schema libraries client c dbfilter rpfilter measfilter w).0
  unfolding get_schema
  get_schema-IsEntry dbfilter rpfilter measfilter filterdb filterrp w compiled_db compiled_rp =
      schema_listed dbfilter rpfilter measfilter filterdb filterrp w _ _ refl compiled_db
        compiled_rp
