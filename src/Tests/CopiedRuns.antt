-- ===== src/Tests/CopiedRuns.antt =====
-- A run of SyncDBRP from a master that refuses three queries and then answers: the chunk that has failed is
-- copied in pieces.
use syncflux.Agent.Chunks.{
  SyncReport, run_chunks, h_length, chunks_in, chunks_from, run_jobs, startsec, add_chunk,
  chunk_report_of, count_end, endsec,
}
use syncflux.Agent.Sync.{sync, sync_dbrp, copy_measurement, getvalues, recover_chunks}
use syncflux.Prelude.{
  String, [], arith, ◌∷◌, ltb, length, if◌then◌else◌, none, All, All-mono, pos, ◌≡◌, refl, Bool,
  true, false, some, [], ◌++◌, int64, ◌+ℤ◌, quot, ◌-ℤ◌, rem, ◌*ℤ◌,
}
use syncflux.Go.Time.{sub, unix, unix_seconds, whole_seconds}
use syncflux.Agent.Read.{
  read_db, read_results, convert_number, fields_from, point_of, query_once, read_query, read_rows,
  read_series, set_cell, str_unix_nano2_time, timestamp_of, unix_nano2_time,
}
use syncflux.Try.{do_retry, do_from}
use syncflux.Go.Strconv.{
  format_int, apply_sign, digits_before, format_nat, parse_digits, parse_int, parse_uint,
}
use syncflux.Agent.Schema.{insert, lookup}
use syncflux.Agent.Write.Split.{live}
use syncflux.Agent.Write.{bp_split, copy, min, pointchunk, split_from, write_batches, write_db}
use syncflux.Go.{Outcome, ret, panic}
use syncflux.Agent.Sync.Recovery.{two_passes}
use syncflux.Agent.Sync.Job.{Keeping, CanCopy}
use syncflux.Influx.{Placed, Client, answered, failed}
use syncflux.Agent.Read.Retries.{target}
use syncflux.Tests.SyncRuns.{report}
use syncflux.Tests.Toy.{
  World, Point, Batch, points_api, points_laws, empty_batch, world, client, parse_float, general,
  policy, entry, monitor_of, one_point, refused, Stored, Has-append_left, Has-append_right,
  Has-live, placed,
}

abbrev pub flaky : Client Bool World Batch
flaky = record client {
  query = λ c q w. (
    if ltb (length w.sent) 3 then failed none refused else answered one_point,
    record w { sent = w.sent ++ q.command ∷ [] },
  );
}

pub kept_by :
    (c : Bool) (b : Batch) (w : World) (p : Placed Bool Point)
    → Stored w p
    → Stored (client.write c b w).1 p
kept_by true b w p h = Has-append_left p w.stored (placed true b.batch_config b.points) h
kept_by false b w p h = h

pub stored_by :
    (c : Bool) (b : Batch) (w : World)
    → (client.write c b w).0 ≡ none
    → All (λ p. Stored (client.write c b w).1 (c, b.batch_config, p)) (live b.points)
stored_by true b w e =
    let config = b.batch_config in
    All-mono (λ p h. Has-append_right (true, config, p) w.stored (placed true config b.points) h)
      (live b.points) (Has-live true config b.points)
stored_by false b w e = absurd (cc)

pub toy_keeps : Keeping points_api flaky Stored
toy_keeps = record { query_keeps = λ c q w p h. h; write_keeps = kept_by; write_stores = stored_by }

abbrev pub can : (ddb drp : String) → CanCopy points_api general ddb drp
can ddb drp = record {
  laws = points_laws;
  batch = empty_batch (target ddb drp);
  fresh = refl;
  max_points = 2;
  limit = refl;
  positive = omega arith;
}

-- The span from second 5 to second 10 in chunks of ten seconds.
abbrev copied : Outcome SyncReport × World
copied =
    two_passes parse_float points_api flaky general (monitor_of "m" true) (monitor_of "s" true)
      "db1" "db1" policy policy (pos 5_000_000_000) (pos 10_000_000_000) (some entry)
      (pos 10_000_000_000) (pos 1_000_000_000) world

abbrev report_of : Outcome SyncReport → SyncReport
report_of (ret r) = r
report_of panic = report

-- The chunk is no longer bad, and its point is there twice, from two pieces.
copied_twice : ((report_of (copied.0)).bad_chunks ≡ []) × (length (copied.1).stored ≡ 2)
unfolding sync sync_dbrp run_chunks h_length chunks_in chunks_from run_jobs copy_measurement
    getvalues startsec add_chunk chunk_report_of count_end endsec recover_chunks int64 ◌+ℤ◌ quot
    ◌-ℤ◌ rem ◌*ℤ◌ sub unix unix_seconds whole_seconds read_db read_results convert_number
    fields_from point_of query_once read_query read_rows read_series set_cell str_unix_nano2_time
    timestamp_of unix_nano2_time do_retry do_from format_int apply_sign digits_before format_nat
    parse_digits parse_int parse_uint insert lookup bp_split copy min pointchunk split_from
    write_batches write_db
copied_twice = (refl, refl)
