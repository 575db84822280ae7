-- ===== src/Tests/SyncRuns.antt =====
-- Runs of the copy: a span in chunks, and the two passes over it.
use syncflux.Prelude.{
  arith, ℕ, ◌+◌, ◌*◌, ◌%◌, ◌<◌, ◌≤◌, ◌≢◌, ℤ, pos, ◌-ℤ◌, ◌*ℤ◌, ◌≡◌, String, none, some, List, [],
  ◌∷◌, ◌++◌, map, length, All, filter, replicate, sum_of, ltb_ℤ, if◌then◌else◌,
}
use syncflux.Go.{ret, Action}
use syncflux.Go.Time.{second, whole_seconds, unix_seconds}
use syncflux.Agent.Schema.{MeasurementSch}
use syncflux.Agent.Chunks.{
  ChunkReport, SyncReport, JobEnd, written, read_error, Progress, h_length, run_chunks,
}
use syncflux.Agent.Sync.Windows.{InWindow, before}
use syncflux.Agent.Sync.Span.{IsSane, sync_copies_once}
use syncflux.Agent.Sync.Reports.{has_errors, Reported, run_chunks_lem}
use syncflux.Tests.Toy.{World, world, cpu}

-- One hour and a half, in hours, up to a whole second.
abbrev end : ℤ
end = pos 1_600_000_000_000_000_000

abbrev hour : ℕ
hour = 3600

abbrev span : ℕ
span = 5_400_000_000_000

span-IsSane : IsSane end hour span span
unfolding unix_seconds
span-IsSane = record {
  chunk_positive = omega arith;
  chunk_small = omega arith;
  span_small = omega arith;
  maxret_small = omega arith;
  end_above = omega arith;
  end_below = omega arith;
}

sync_copies_once_example :
    (h : ℕ) × (h_length (end -ℤ pos span) end (pos (hour * second)) (pos span) ≡ pos h)
    × (whole_seconds (pos (hour * second)) ≡ pos hour)
    × (7 % (hour * second) ≢ 0
        → (i : ℕ) × (i < h)
          × InWindow end (pos hour) i (before end 7)
          × ((j : ℕ) → j < h → InWindow end (pos hour) j (before end 7) → j ≡ i))
    × (7 % (hour * second) ≡ 0 → (j : ℕ) → j < h → ¬ InWindow end (pos hour) j (before end 7))
unfolding unix_seconds ◌-ℤ◌ ◌*ℤ◌
sync_copies_once_example =
    sync_copies_once end hour span span 7 span-IsSane (omega arith) (omega arith) (omega arith)

-- A job that writes three points, except to the newest chunk.
abbrev job : String × MeasurementSch → ℤ → ℤ → Action World JobEnd
job m start stop w = (ret (if ltb_ℤ start (pos 1_599_999_996) then written 3 else read_error), w)

run_chunks_lem_example :
    (p : Progress) × (w' : World) × (run_chunks job
        (cpu ∷ [])
        end
        (pos (hour * second))
        (pos 2)
        world
      ≡ (ret p, w'))
    × (reports : List ChunkReport) × (p.chunk_report
        ≡ replicate 2 none ++ map (λ r. some r) reports)
    × (p.bad_chunks ≡ filter has_errors reports)
    × (p.dbpoints ≡ sum_of (λ (r : ChunkReport). r.processed_points) reports)
    × (length reports ≡ 2)
    × Reported job (cpu ∷ []) end (whole_seconds (pos (hour * second))) (pos 2) 0 reports world w'
    × All (λ (r : ChunkReport). r.read_errors + r.write_errors ≤ 1) reports
run_chunks_lem_example =
    run_chunks_lem job (λ m start stop w. λ e. cc) (cpu ∷ []) end (pos (hour * second)) 2 world

abbrev chunk : ℕ → ChunkReport
chunk reads = record {
  num = pos 1;
  total = pos 2;
  time_start = pos 0;
  time_end = pos 10;
  read_errors = reads;
  write_errors = 0;
  processed_points = 0;
}

abbrev pub report : SyncReport
report = record {
  src_srv = "m";
  dst_srv = "s";
  src_db = "db1";
  dst_db = "db1";
  src_rp = "autogen";
  dst_rp = "autogen";
  total_points = 0;
  start = pos 0;
  end = pos 10;
  chunk_report = [];
  bad_chunks = chunk 2 ∷ [];
}
