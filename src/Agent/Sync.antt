-- ===== src/Agent/Sync.antt =====
-- pkg/agent/sync.go: a time span is copied chunk by chunk, from newer to older data, and the chunks that
-- had errors are tried once more in smaller pieces. Clock readings that only go into log lines and
-- reports are left out.
pub mod Windows
pub mod Span
pub mod Counts
pub mod Reports
pub mod Recovery
pub mod Preserved
pub mod Covered
pub mod Job
pub mod Copied
pub mod Passes
pub mod Recovered
pub mod Ends
pub mod Total
pub mod Whole
use syncflux.Prelude.{
  pos_part, ℕ, zero, suc, ◌+◌, ℤ, pos, negsuc, ◌+ℤ◌, ◌-ℤ◌, ◌*ℤ◌, quot, int64, ltb_ℤ, String, Bool,
  Option, none, some, List, [], ◌∷◌, ◌++◌, ltb, if◌then◌else◌, replicate, sum_of, length,
}
use syncflux.Go.{Outcome, ret, panic, Action, Result, ok, err, ◌>>=◌, pure, fail, deref}
use syncflux.Go.Strconv.{format_int}
use syncflux.Go.Time.{Time, Duration, unix, unix_seconds, sub, whole_seconds}
use syncflux.Go.Text.{concat}
use syncflux.Config.{GeneralConfig}
use syncflux.Influx.{Points, Client}
use syncflux.Agent.Schema.{MeasurementSch, RetPol, InfluxSchDb}
use syncflux.Agent.Monitor.{InfluxMonitor}
use syncflux.Agent.Read.{read_db}
use syncflux.Agent.Write.{write_db}
use syncflux.Agent.Chunks.{
  ChunkReport, SyncReport, rw_errors, endsec, startsec, chunks_in, h_length, JobEnd, read_error,
  write_error, written, Counters, no_counts, count_end, Progress, chunk_report_of, add_chunk,
  run_jobs, chunks_from, run_chunks,
}

-- The query for the points of a measurement between two seconds, both left out.
unfoldable pub getvalues : String → ℤ → ℤ → String
getvalues m start end = concat (
    "select * from  \""
    ∷ m
    ∷ "\" where time  > "
    ∷ format_int start
    ∷ "s and time < "
    ∷ format_int end
    ∷ "s group by *"
    ∷ [])

module _ {P B C W : Type 0} (parse_float : String → ℕ) (api : Points P B) (client : Client C W B)
    (general : GeneralConfig) where
  -- The limits of attempts are those of the configuration; one below zero acts as zero, as no attempt is below either.
  -- The write of a job, once the read has given a batch of `np` points.
  write_read : Option C → Result (B × ℕ) → Action W JobEnd
  write_read dst_cli (err rerr) = pure read_error
  write_read dst_cli (ok (batchpoints, np)) = do
    c ← deref dst_cli
    werr ←
        write_db api client (pos_part general.rw_max_retries) general.max_points_on_single_write c
          batchpoints
    pure (elim werr [ none ↦ written np | some e ↦ write_error np ])

  -- The function that Sync submits to the pool for a measurement. A client that is nil panics.
  unfoldable pub copy_measurement :
      InfluxMonitor C
      → InfluxMonitor C
      → String
      → String
      → RetPol
      → RetPol
      → String × MeasurementSch
      → ℤ
      → ℤ
      → Action W JobEnd
  unfolding write_read
  copy_measurement src dst sdb ddb srp drp (m, sch) start end = do
    c ← deref src.cli
    r ←
        read_db parse_float api client (pos_part general.rw_max_retries) c sdb srp.name ddb drp.name
          (getvalues m start end) sch.fields
    write_read dst.cli r

  -- Sync; none is the nil report that a nil schema gives. A zero chunk divides by zero.
  unfoldable pub sync :
      InfluxMonitor C
      → InfluxMonitor C
      → String
      → String
      → RetPol
      → RetPol
      → Time
      → Time
      → Option InfluxSchDb
      → Duration
      → Duration
      → Action W (Option SyncReport)
  sync src dst sdb ddb srp drp s_epoch e_epoch none chunk maxret = pure none
  sync src dst sdb ddb srp drp s_epoch e_epoch (some dbschema) (pos zero) maxret = fail
  sync src dst sdb ddb srp drp s_epoch e_epoch (some dbschema) chunk maxret = do
    p ←
        run_chunks (copy_measurement src dst sdb ddb srp drp) srp.measurements e_epoch chunk
          (h_length s_epoch e_epoch chunk maxret)
    pure (
        some (record {
          src_srv = src.cfg.name;
          dst_srv = dst.cfg.name;
          src_db = sdb;
          dst_db = ddb;
          src_rp = srp.name;
          dst_rp = drp.name;
          total_points = p.dbpoints;
          start = s_epoch;
          end = e_epoch;
          chunk_report = p.chunk_report;
          bad_chunks = p.bad_chunks;
        }))

  -- The loop of SyncDBRP over the bad chunks, each synchronised again in chunks of a tenth.
  unfoldable pub recover_chunks :
      InfluxMonitor C
      → InfluxMonitor C
      → String
      → String
      → RetPol
      → RetPol
      → Option InfluxSchDb
      → Duration
      → Duration
      → List ChunkReport
      → List ChunkReport
      → Action W (List ChunkReport)
  recover_chunks src dst sdb ddb srp drp dbschema chunk maxret [] new_bad_chunks w =
      (ret new_bad_chunks, w)
  recover_chunks src dst sdb ddb srp drp dbschema chunk maxret (bc ∷ bcs) new_bad_chunks w =
      let (r, w') =
        sync src dst sdb ddb srp drp (unix bc.time_start (pos 0)) (unix bc.time_end (pos 0))
          dbschema (quot chunk (pos 10)) maxret w in
      elim r [
        | panic ↦ (panic, w')
        | ret none ↦ (panic, w')
        | ret (some recoveryrep) ↦
            recover_chunks src dst sdb ddb srp drp dbschema chunk maxret bcs
              (new_bad_chunks ++ recoveryrep.bad_chunks) w'
      ]

  -- What SyncDBRP does with the report of the first pass; a nil report panics.
  recover_report :
      InfluxMonitor C
      → InfluxMonitor C
      → String
      → String
      → RetPol
      → RetPol
      → Option InfluxSchDb
      → Duration
      → Duration
      → Option SyncReport
      → Action W SyncReport
  recover_report src dst sdb ddb srp drp dbschema chunk maxret none = fail
  recover_report src dst sdb ddb srp drp dbschema chunk maxret (some report) =
      if ltb 0 (length report.bad_chunks)
      then (do
        new_bad_chunks ←
            recover_chunks src dst sdb ddb srp drp dbschema chunk maxret report.bad_chunks []
        pure (record report { bad_chunks = new_bad_chunks }))
      else pure report

  -- SyncDBRP.
  unfoldable pub sync_dbrp :
      InfluxMonitor C
      → InfluxMonitor C
      → String
      → String
      → RetPol
      → RetPol
      → Time
      → Time
      → Option InfluxSchDb
      → Duration
      → Duration
      → Action W SyncReport
  unfolding recover_report
  sync_dbrp src dst sdb ddb srp drp s_epoch e_epoch dbschema chunk maxret = do
    report ← sync src dst sdb ddb srp drp s_epoch e_epoch dbschema chunk maxret
    recover_report src dst sdb ddb srp drp dbschema chunk maxret report
