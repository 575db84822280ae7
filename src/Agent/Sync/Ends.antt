-- ===== src/Agent/Sync/Ends.antt =====
-- The chunk loop of Sync, for jobs that end.
use syncflux.Prelude.{
  arith, ℕ, zero, suc, ◌+◌, ◌≤◌, ◌<◌, ◌≡◌, refl, ℤ, pos, String, none, List, [], ◌∷◌, All,
  All-append, replicate,
}
use syncflux.Go.{Returns, ret, Action}
use syncflux.Go.Time.{Time, Duration, whole_seconds}
use syncflux.Agent.Schema.{MeasurementSch}
use syncflux.Agent.Chunks.{
  ChunkReport, endsec, startsec, JobEnd, Counters, no_counts, count_end, Progress, run_jobs,
  chunk_report_of, add_chunk, chunks_from, run_chunks,
}

-- A report has the bounds of one of the chunks up to `h`.
abbrev pub IsOneOf : Time → ℤ → ℕ → ChunkReport → Type 0
IsOneOf e_epoch chunk_second h r =
    (i : ℕ) × (i < h)
    × (r.time_start ≡ startsec e_epoch chunk_second i)
    × (r.time_end ≡ endsec e_epoch chunk_second i)

add_chunk-All :
    (Q : ChunkReport → Type 0) (r : ChunkReport) (p : Progress)
    → All Q p.bad_chunks
    → Q r
    → All Q (add_chunk r p).bad_chunks
unfolding add_chunk
add_chunk-All Q r p h q =
    let longer = All-append Q p.bad_chunks (r ∷ []) h (q, tt) in ground (arith, longer, h)

module _ {W : Type 0} (job : String × MeasurementSch → ℤ → ℤ → Action W JobEnd) where
  -- The jobs for a measurement end, whatever their span and the state of the world.
  abbrev pub JobsEnd : String × MeasurementSch → Type 0
  JobsEnd m = (start end : ℤ) (w : W) → Returns (job m start end w).0

  run_jobs-Returns :
      (ms : List (String × MeasurementSch)) (start end : ℤ) (k : Counters) (w : W)
      → All JobsEnd ms
      → Returns (run_jobs job ms start end k w).0
  unfolding run_jobs
  run_jobs-Returns [] start end k w h = (k, refl)
  run_jobs-Returns (m ∷ ms) start end k w (h, hs) =
      let (x, e) = h start end w in
      let (k', rest) = run_jobs-Returns ms start end (count_end x k) (job m start end w).1 hs in
      (k', ground (arith, e, rest))

  chunks_from-Returns :
      (ms : List (String × MeasurementSch)) (e_epoch : Time) (chunk_second h : ℤ) (rounds i n : ℕ)
      (p : Progress) (w : W)
      → All JobsEnd ms
      → i + rounds ≤ n
      → All (IsOneOf e_epoch chunk_second n) p.bad_chunks
      → (p' : Progress) × ((chunks_from job ms e_epoch chunk_second h rounds i p w).0 ≡ ret p')
        × All (IsOneOf e_epoch chunk_second n) p'.bad_chunks
  unfolding chunks_from chunk_report_of
  chunks_from-Returns ms e_epoch chunk_second h zero i n p w ends le bad = (p, refl, bad)
  chunks_from-Returns ms e_epoch chunk_second h (suc rounds) i n p w ends le bad =
      let start = startsec e_epoch chunk_second i in
      let end = endsec e_epoch chunk_second i in
      let (k, e) = run_jobs-Returns ms start end no_counts w ends in
      let rep = chunk_report_of h i start end k in
      let this : IsOneOf e_epoch chunk_second n rep = (i, omega (arith, le), refl, refl) in
      let (p', rest, bad') =
        chunks_from-Returns ms e_epoch chunk_second h rounds (i + 1) n (add_chunk rep p)
          (run_jobs job ms start end no_counts w).1 ends (omega (arith, le))
          (add_chunk-All (IsOneOf e_epoch chunk_second n) rep p bad this) in
      (p', ground (arith, e, rest), bad')

  -- A loop over a number of chunks ends if its jobs do, and its bad chunks are among them.
  pub run_chunks-Returns :
      (ms : List (String × MeasurementSch)) (e_epoch : Time) (chunk : Duration) (h : ℕ) (w : W)
      → All JobsEnd ms
      → (p : Progress) × ((run_chunks job ms e_epoch chunk (pos h) w).0 ≡ ret p)
        × All (IsOneOf e_epoch (whole_seconds chunk) h) p.bad_chunks
  unfolding run_chunks
  run_chunks-Returns ms e_epoch chunk h w ends =
      chunks_from-Returns ms e_epoch (whole_seconds chunk) (pos h) h 0 h
        (record { dbpoints = 0; chunk_report = replicate h none; bad_chunks = [] }) w ends
        (omega arith) tt
