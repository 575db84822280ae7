-- ===== src/Agent/Discovery.antt =====
-- GetSchema of pkg/agent/hacluster.go: what the master holds, database by database, through the three
-- filters of the command line.
pub mod Entries
pub mod Readable
pub mod Total
use syncflux.Prelude.{
  String, Bool, true, false, Option, none, some, List, [], ◌∷◌, str_eq, if◌then◌else◌,
}
use syncflux.Go.{Error, Outcome, ret, panic, Action, Result, ok, err, deref}
use syncflux.Go.Fallible.{Fallible, ◌>>=◌, lift, plain}
use syncflux.Go.Time.{Duration}
use syncflux.Influx.{Value, Client}
use syncflux.Agent.Schema.{MeasurementSch, RetPol, InfluxSchDb, insert}
use syncflux.Agent.Commands.{get_databases, get_retention_policies, get_measurements, get_fields}

-- A compiled filter: none where the text is empty, and all names pass.
abbrev pub Filter : Type 0
Filter = Option (String → Bool)

abbrev pub passes : Filter → String → Bool
passes none name = true
passes (some matches) name = matches name

-- What the program uses of Go's libraries beside the client: regexp.Compile, time.ParseDuration, and
-- `%v` on a value that is no text.
pub record Libraries : Type 0 where
  pub compile : String → Result (String → Bool)
  pub parse_duration : String → Option Duration
  pub fmt : Value → String

-- `if len(filter) > 0 { …, err = regexp.Compile(filter) }`.
unfoldable pub compile_filter : Libraries → String → Result Filter
compile_filter libraries filter =
    if str_eq filter ""
    then ok none
    else elim (libraries.compile filter) [ ok matches ↦ ok (some matches) | err e ↦ err e ]

module _ {C B W : Type 0} (libraries : Libraries) (client : Client C W B) (c : C) where
  -- The loop over the measurements of a retention policy.
  unfoldable pub add_measurements :
      Filter
      → String
      → String
      → List MeasurementSch
      → List (String × MeasurementSch)
      → Fallible W (List (String × MeasurementSch))
  add_measurements filtermeas db rp [] mf w = (ret (ok mf), w)
  add_measurements filtermeas db rp (m ∷ meas) mf w =
      let skipped = add_measurements filtermeas db rp meas mf w in
      let added =
        (do
          fields ← plain (get_fields client c db m.name rp)
          add_measurements filtermeas db rp meas (insert m.name (record m { fields = fields }) mf))
          w in
      if passes filtermeas m.name then added else skipped

  -- A retention policy with its measurements.
  unfoldable pub with_measurements : String → String → RetPol → Fallible W RetPol
  with_measurements measfilter db rp = do
    meas ← plain (get_measurements client libraries.fmt c db rp.name measfilter)
    filtermeas ← lift (compile_filter libraries measfilter)
    mf ← add_measurements filtermeas db rp.name meas []
    lift (ok (record rp { measurements = mf }))

  -- The loop over the retention policies of a database: a policy that the filter skips stays as it is,
  -- with no measurements. The second result is the default policy, the last one that the filter lets
  -- through.
  unfoldable pub scan_policies :
      Filter
      → String
      → String
      → List RetPol
      → Option RetPol
      → Fallible W (List RetPol × Option RetPol)
  scan_policies filterrp measfilter db [] default w = (ret (ok ([], default)), w)
  scan_policies filterrp measfilter db (rp ∷ rps) default w =
      let skipped =
        (do
          rest ← scan_policies filterrp measfilter db rps default
          lift (ok (rp ∷ rest.0, rest.1)))
          w in
      let scanned =
        (do
          rp' ← with_measurements measfilter db rp
          rest ← scan_policies filterrp measfilter db rps (if rp.def then some rp else default)
          lift (ok (rp' ∷ rest.0, rest.1)))
          w in
      if passes filterrp rp.name then scanned else skipped

  -- The entry of a database, once its policies are known; none without a default policy.
  unfoldable pub entry_of : String → List RetPol × Option RetPol → Option InfluxSchDb
  entry_of db (rps, none) = none
  entry_of db (rps, some default_rp) = some (record {
    name = db;
    new_name = db;
    def_rp = default_rp.name;
    new_def_rp = default_rp.name;
    rps = rps;
  })

  -- One database; none where it is skipped.
  unfoldable pub scan_database : Filter → String → String → String → Fallible W (Option InfluxSchDb)
  unfolding entry_of
  scan_database filterdb rpfilter measfilter db w =
      let (r, w') = get_retention_policies client libraries.parse_duration c db w in
      let scanned : Outcome (Result (Option InfluxSchDb)) × W = elim r [
        | panic ↦ (panic, w')
        | ret listed ↦ elim listed [
          | err e ↦ (ret (ok none), w')
          | ok rps ↦
              (do
                filterrp ← lift (compile_filter libraries rpfilter)
                policies ← scan_policies filterrp measfilter db rps none
                lift (ok (entry_of db policies)))
                w'
        ]
      ] in
      if passes filterdb db then scanned else (ret (ok none), w)

  -- The loop over the databases.
  unfoldable pub scan_databases :
      Filter → String → String → List String → Fallible W (List InfluxSchDb)
  scan_databases filterdb rpfilter measfilter [] w = (ret (ok []), w)
  scan_databases filterdb rpfilter measfilter (db ∷ dbs) w =
      (do
        entry ← scan_database filterdb rpfilter measfilter db
        rest ← scan_databases filterdb rpfilter measfilter dbs
        lift (ok (elim entry [ none ↦ rest | some e ↦ e ∷ rest ])))
        w

  -- GetSchema. An error in the list of databases leaves it empty.
  unfoldable pub get_schema : String → String → String → Fallible W (List InfluxSchDb)
  get_schema dbfilter rpfilter measfilter = do
    filterdb ← lift (compile_filter libraries dbfilter)
    src_dbs ← plain (get_databases client c)
    scan_databases filterdb rpfilter measfilter (elim src_dbs [ ok dbs ↦ dbs | err e ↦ [] ])
