-- ===== src/Agent/Replicate.antt =====
-- ReplicateSchema, ReplicateData and ReplicateDataFull of pkg/agent/hacluster.go, and GetFirstLastTime of
-- pkg/agent/client.go: a schema is created on the slave, and its data copied, database by database and
-- retention policy by retention policy. The errors on the way are logged and nothing else.
pub mod Sent
pub mod Copies
pub mod Whole
pub mod Ends
pub mod Total
pub mod Full
use syncflux.Prelude.{
  ℕ, zero, ℤ, pos, ◌-ℤ◌, String, Bool, true, false, Option, none, some, List, [], ◌∷◌, str_eq,
  if◌then◌else◌,
}
use syncflux.Go.{Error, Outcome, ret, panic, Action, ◌>>=◌, ◌>>◌, pure, fail, call, deref}
use syncflux.Go.Time.{Time, Duration, add}
use syncflux.Config.{GeneralConfig}
use syncflux.Influx.{Points, Client}
use syncflux.Agent.Schema.{RetPol, InfluxSchDb}
use syncflux.Agent.Monitor.{InfluxMonitor}
use syncflux.Agent.Commands.{create_db, create_rp, set_default_rp}
use syncflux.Agent.Chunks.{SyncReport}
use syncflux.Agent.Sync.{sync_dbrp}

-- `var defaultRp RetPol`
abbrev pub zero_ret_pol : RetPol
zero_ret_pol = record {
  name = "";
  duration = pos 0;
  shard_group_duration = pos 0;
  n_replicas = pos 0;
  def = false;
  measurements = [];
}

-- The first default policy of a database, under its new name.
unfoldable pub default_rp_of : String → List RetPol → RetPol
default_rp_of new_def_rp [] = zero_ret_pol
default_rp_of new_def_rp (rp ∷ rps) =
    if rp.def then record rp { name = new_def_rp } else default_rp_of new_def_rp rps

module _ {B C W : Type 0} (client : Client C W B) where
  -- The commands on a client that may be nil: a method call on it panics.
  unfoldable pub create_db_on : Option C → String → RetPol → Action W (Option Error)
  create_db_on (some c) db rp = call (create_db client c db rp)
  create_db_on none db rp = if str_eq db "_internal" then pure none else fail

  unfoldable pub create_rp_on : Option C → String → RetPol → Action W (Option Error)
  create_rp_on cli db rp = do c ← deref cli; call (create_rp client c db rp)

  unfoldable pub set_default_rp_on : Option C → String → RetPol → Action W (Option Error)
  set_default_rp_on cli db rp = do c ← deref cli; call (set_default_rp client c db rp)

  -- The loop of ReplicateSchema over the policies of a database.
  unfoldable pub replicate_policies :
      Option C → InfluxSchDb → RetPol → List RetPol → Action W (Option Error)
  unfolding create_rp_on set_default_rp_on
  replicate_policies cli db default_rp [] w = pure none w
  replicate_policies cli db default_rp (rp ∷ rps) w =
      let rest = replicate_policies cli db default_rp rps in
      if rp.def
      then ((create_rp_on cli db.new_name default_rp
            >> set_default_rp_on cli db.new_name default_rp
            >> rest)
          w)
      else (create_rp_on cli db.new_name rp >> rest) w

  -- ReplicateSchema, on the slave's client.
  unfoldable pub replicate_schema : Option C → List InfluxSchDb → Action W (Option Error)
  unfolding create_db_on
  replicate_schema cli [] w = pure none w
  replicate_schema cli (db ∷ schema) w =
      let default_rp = default_rp_of db.new_def_rp db.rps in
      (create_db_on cli db.new_name default_rp
          >> replicate_policies cli db default_rp db.rps
          >> replicate_schema cli schema)
        w

-- rp.Duration == 0
abbrev pub is_zero : Duration → Bool
is_zero (pos zero) = true
is_zero _ = false

-- GetFirstLastTime, at the instant `now`.
unfoldable pub get_first_last_time : RetPol → Duration → Time → Time × Time
get_first_last_time rp max now =
    if is_zero rp.duration
    then (add now (pos 0 -ℤ max), now)
    else (add now (pos 0 -ℤ rp.duration), now)

-- The policy as it is on the slave: a default policy has its new name.
unfoldable pub renamed : InfluxSchDb → RetPol → RetPol
renamed db rp = if rp.def then record rp { name = db.new_def_rp } else rp

module _ {P B C W : Type 0} (parse_float : String → ℕ) (api : Points P B) (client : Client C W B)
    (general : GeneralConfig) (clock : W → Time) (chunk max : Duration) where
  -- The body of the inner loop of ReplicateData and ReplicateDataFull: the bad chunks of the report, if
  -- there are any, are counted for the log.
  unfoldable pub replicate_policy :
      InfluxMonitor C → InfluxMonitor C → InfluxSchDb → RetPol → Time → Time → Action W SyncReport
  unfolding renamed
  replicate_policy master slave db rp start end =
      sync_dbrp parse_float api client general master slave db.name db.new_name rp (renamed db rp)
        start end (some db) chunk max

  -- The inner loop, over the policies of a database; the span of a policy may depend on the clock.
  unfoldable pub replicate_each :
      (RetPol → Time → Time × Time)
      → InfluxMonitor C
      → InfluxMonitor C
      → InfluxSchDb
      → List RetPol
      → Action W (Option Error)
  replicate_each span master slave db [] w = pure none w
  replicate_each span master slave db (rp ∷ rps) w =
      let (start, end) = span rp (clock w) in
      (replicate_policy master slave db rp start end >> replicate_each span master slave db rps) w

  unfoldable pub replicate_spans :
      (RetPol → Time → Time × Time)
      → InfluxMonitor C
      → InfluxMonitor C
      → List InfluxSchDb
      → Action W (Option Error)
  unfolding replicate_each replicate_policy
  replicate_spans span master slave [] w = pure none w
  replicate_spans span master slave (db ∷ schema) w =
      (replicate_each span master slave db db.rps >> replicate_spans span master slave schema) w

  -- ReplicateData.
  unfoldable pub replicate_data :
      InfluxMonitor C → InfluxMonitor C → List InfluxSchDb → Time → Time → Action W (Option Error)
  unfolding replicate_spans
  replicate_data master slave schema start end =
      replicate_spans (λ rp now. (start, end)) master slave schema

  -- ReplicateDataFull.
  unfoldable pub replicate_data_full :
      InfluxMonitor C → InfluxMonitor C → List InfluxSchDb → Action W (Option Error)
  unfolding replicate_spans get_first_last_time
  replicate_data_full master slave schema =
      replicate_spans (λ rp now. get_first_last_time rp max now) master slave schema
