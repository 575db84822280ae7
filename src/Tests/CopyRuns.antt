-- ===== src/Tests/CopyRuns.antt =====
-- Runs of a whole copy: from a master that answers, and from one that refuses every query, whose chunk is
-- tried again in smaller ones.
use syncflux.Agent.Chunks.{
  ChunkReport, SyncReport, run_chunks, h_length, chunks_in, chunks_from, run_jobs, startsec,
  add_chunk, chunk_report_of, count_end, endsec,
}
use syncflux.Agent.Sync.{sync, sync_dbrp, copy_measurement, getvalues, recover_chunks}
use syncflux.Prelude.{
  pos, ◌≡◌, refl, Bool, true, false, Option, some, [], ◌++◌, int64, ◌+ℤ◌, quot, ◌-ℤ◌, rem, ◌*ℤ◌,
}
use syncflux.Go.Time.{sub, unix, unix_seconds, whole_seconds}
use syncflux.Agent.Read.{
  read_db, read_results, convert_number, fields_from, point_of, query_once, read_query, read_rows,
  read_series, set_cell, str_unix_nano2_time, timestamp_of, unix_nano2_time,
}
use syncflux.Try.{do_retry, do_from}
use syncflux.Go.Strconv.{
  format_int, apply_sign, digits_before, format_nat, parse_digits, parse_int, parse_uint,
}
use syncflux.Agent.Schema.{insert, lookup}
use syncflux.Agent.Write.{bp_split, copy, min, pointchunk, split_from, write_batches, write_db}
use syncflux.Go.{Outcome, ret, Action}
use syncflux.Agent.Sync.Recovery.{one_pass, two_passes, again}
use syncflux.Tests.SyncRuns.{report}
use syncflux.Tests.Toy.{
  World, points_api, world, client, parse_float, general, policy, entry, monitor_of,
}

-- The span from second 5 to second 10 in chunks of ten seconds, on a master that answers or does not.
abbrev copied : Bool → Action World (Option SyncReport)
copied up =
    one_pass parse_float points_api client general (monitor_of "m" up) (monitor_of "s" true) "db1"
      "db1" policy policy (pos 5_000_000_000) (pos 10_000_000_000) (some entry) (pos 10_000_000_000)
      (pos 1_000_000_000)

abbrev report_of : Outcome (Option SyncReport) → SyncReport
report_of (ret (some r)) = r
report_of _ = report

-- The second pass over the bad chunk.
abbrev bad : ChunkReport
bad = record {
  num = pos 1;
  total = pos 1;
  time_start = pos 0;
  time_end = pos 10;
  read_errors = 1;
  write_errors = 0;
  processed_points = 0;
}

abbrev tried_again : Outcome (Option SyncReport) × World
tried_again =
    again parse_float points_api client general (monitor_of "m" false) (monitor_of "s" true) "db1"
      "db1" policy policy (some entry) (pos 10_000_000_000) (pos 1_000_000_000) bad
      (copied false world).1

-- The report of the copy has the bad chunks of the second pass in the place of its own.
refused_copy :
    two_passes parse_float points_api client general
      (monitor_of "m" false)
      (monitor_of "s" true)
      "db1"
      "db1"
      policy
      policy
      (pos 5_000_000_000)
      (pos 10_000_000_000)
      (some entry)
      (pos 10_000_000_000)
      (pos 1_000_000_000)
      world
    ≡ (
      ret (record (report_of (copied false world).0) {
        bad_chunks = (report_of tried_again.0).bad_chunks ++ [];
      }),
      tried_again.1,
    )
unfolding sync sync_dbrp run_chunks h_length chunks_in chunks_from run_jobs copy_measurement
    getvalues startsec add_chunk chunk_report_of count_end endsec recover_chunks int64 ◌+ℤ◌ quot
    ◌-ℤ◌ rem ◌*ℤ◌ sub unix unix_seconds whole_seconds read_db read_results convert_number
    fields_from point_of query_once read_query read_rows read_series set_cell str_unix_nano2_time
    timestamp_of unix_nano2_time do_retry do_from format_int apply_sign digits_before format_nat
    parse_digits parse_int parse_uint insert lookup bp_split copy min pointchunk split_from
    write_batches write_db
refused_copy = refl
