-- ===== src/Agent/Chunks.antt =====
-- The chunks of Sync in pkg/agent/sync.go: their number and bounds, their reports, and the loop over them,
-- for any job that copies one measurement between two seconds.
use syncflux.Prelude.{
  ℕ, zero, suc, ◌+◌, ℤ, pos, negsuc, ◌+ℤ◌, ◌-ℤ◌, ◌*ℤ◌, quot, int64, ltb_ℤ, String, Option, none,
  some, List, [], ◌∷◌, ◌++◌, ltb, if◌then◌else◌, replicate, sum_of,
}
use syncflux.Go.{ret, panic, Action}
use syncflux.Go.Time.{Time, Duration, unix_seconds, sub, whole_seconds}
use syncflux.Agent.Schema.{MeasurementSch}

pub record ChunkReport : Type 0 where
  pub num : ℤ
  pub total : ℤ
  pub time_start : ℤ
  pub time_end : ℤ
  pub read_errors : ℕ
  pub write_errors : ℕ
  pub processed_points : ℕ

pub record SyncReport : Type 0 where
  pub src_srv : String
  pub dst_srv : String
  pub src_db : String
  pub dst_db : String
  pub src_rp : String
  pub dst_rp : String
  pub total_points : ℕ
  pub start : Time
  pub end : Time
  pub chunk_report : List (Option ChunkReport)
  pub bad_chunks : List ChunkReport

-- RWErrors.
unfoldable pub rw_errors : SyncReport → ℕ × ℕ × ℕ
rw_errors sr =
    let read_errors = sum_of (λ (b : ChunkReport). b.read_errors) sr.bad_chunks in
    let write_errors = sum_of (λ (b : ChunkReport). b.write_errors) sr.bad_chunks in
    (read_errors, write_errors, read_errors + write_errors)

-- The bounds of the `i`-th chunk, in seconds, as int64.
unfoldable pub endsec : Time → ℤ → ℕ → ℤ
endsec e_epoch chunk_second i = int64 (unix_seconds e_epoch -ℤ int64 (pos i *ℤ chunk_second))

unfoldable pub startsec : Time → ℤ → ℕ → ℤ
startsec e_epoch chunk_second i =
    int64 (unix_seconds e_epoch -ℤ int64 (pos (i + 1) *ℤ chunk_second))

-- The number of chunks of length `chunk` in a span, and one more.
unfoldable pub chunks_in : Duration → Duration → ℤ
chunks_in span chunk = int64 (int64 (quot span chunk) +ℤ pos 1)

-- hLength: the chunks of the span, and no more than those of `maxret`.
unfoldable pub h_length : Time → Time → Duration → Duration → ℤ
h_length s_epoch e_epoch chunk maxret =
    let h = chunks_in (sub e_epoch s_epoch) chunk in
    let max_length = chunks_in maxret chunk in if ltb_ℤ max_length h then max_length else h

-- How the job for one measurement ends: with an error in the read, with one in the write of the
-- points read, or with the points written.
pub data JobEnd : Type 0 where
  read_error : JobEnd
  write_error : ℕ → JobEnd
  written : ℕ → JobEnd

-- The counters of a chunk, which the jobs add to atomically.
pub record Counters : Type 0 where
  pub totalpoints : ℕ
  pub read_errors : ℕ
  pub write_errors : ℕ

abbrev pub no_counts : Counters
no_counts = record { totalpoints = 0; read_errors = 0; write_errors = 0 }

unfoldable pub count_end : JobEnd → Counters → Counters
count_end read_error k = record k { read_errors = k.read_errors + 1 }
count_end (write_error np) k = record k {
  totalpoints = k.totalpoints + np;
  write_errors = k.write_errors + 1;
}
count_end (written np) k = record k { totalpoints = k.totalpoints + np }

-- What the chunk loop carries on.
pub record Progress : Type 0 where
  pub dbpoints : ℕ
  pub chunk_report : List (Option ChunkReport)
  pub bad_chunks : List ChunkReport

-- The report of the `i`-th chunk.
unfoldable pub chunk_report_of : ℤ → ℕ → ℤ → ℤ → Counters → ChunkReport
chunk_report_of h i start end k = record {
  num = pos (i + 1);
  total = h;
  time_start = start;
  time_end = end;
  read_errors = k.read_errors;
  write_errors = k.write_errors;
  processed_points = k.totalpoints;
}

unfoldable pub add_chunk : ChunkReport → Progress → Progress
add_chunk chrep p = record {
  dbpoints = p.dbpoints + chrep.processed_points;
  chunk_report = p.chunk_report ++ some chrep ∷ [];
  bad_chunks =
      if ltb 0 (chrep.read_errors + chrep.write_errors)
      then p.bad_chunks ++ chrep ∷ []
      else p.bad_chunks;
}

-- The chunk loop, over the job that copies one measurement between two seconds.
module _ {W : Type 0} (job : String × MeasurementSch → ℤ → ℤ → Action W JobEnd) where
  -- The jobs of one chunk, in the order in which the pool comes to run them.
  unfoldable pub run_jobs : List (String × MeasurementSch) → ℤ → ℤ → Counters → Action W Counters
  run_jobs [] start end k w = (ret k, w)
  run_jobs (m ∷ ms) start end k w =
      let (r, w') = job m start end w in
      elim r [ panic ↦ (panic, w') | ret done ↦ run_jobs ms start end (count_end done k) w' ]

  -- `for i = 0; i < hLength; i++`, with `hLength - i` rounds left.
  unfoldable pub chunks_from :
      List (String × MeasurementSch) → Time → ℤ → ℤ → ℕ → ℕ → Progress → Action W Progress
  unfolding chunk_report_of add_chunk
  chunks_from ms e_epoch chunk_second h zero i p w = (ret p, w)
  chunks_from ms e_epoch chunk_second h (suc rounds) i p w =
      let start = startsec e_epoch chunk_second i in
      let end = endsec e_epoch chunk_second i in
      let (r, w') = run_jobs ms start end no_counts w in
      elim r [
        | panic ↦ (panic, w')
        | ret k ↦
            chunks_from ms e_epoch chunk_second h rounds (i + 1)
              (add_chunk (chunk_report_of h i start end k) p) w'
      ]

  -- The reports that Sync starts from: `make([]*ChunkReport, hLength)` has that many nil entries, and
  -- panics on a negative length.
  unfoldable pub run_chunks :
      List (String × MeasurementSch) → Time → Duration → ℤ → Action W Progress
  run_chunks ms e_epoch chunk (negsuc n) w = (panic, w)
  run_chunks ms e_epoch chunk (pos h) w =
      chunks_from ms e_epoch (whole_seconds chunk) (pos h) h 0
        (record { dbpoints = 0; chunk_report = replicate h none; bad_chunks = [] }) w
