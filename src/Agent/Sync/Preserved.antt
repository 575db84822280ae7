-- ===== src/Agent/Sync/Preserved.antt =====
-- What each job of Sync preserves, a run preserves.
use syncflux.Prelude.{arith, ℕ, zero, suc, ◌+◌, inl, inr, ℤ, pos, negsuc, String, List, [], ◌∷◌}
use syncflux.Go.{Outcome-cases, Action}
use syncflux.Go.Time.{Time, Duration, whole_seconds}
use syncflux.Agent.Schema.{MeasurementSch}
use syncflux.Agent.Chunks.{
  endsec, startsec, JobEnd, Counters, no_counts, count_end, Progress, run_jobs, chunk_report_of,
  add_chunk, chunks_from, run_chunks,
}

module _ {W : Type 0} (job : String × MeasurementSch → ℤ → ℤ → Action W JobEnd) (I : W → Type 0)
    (keeps : (m : String × MeasurementSch) (start end : ℤ) (w : W)
      → I w
      → I (job m start end w).1) where
  pub run_jobs_preserves :
      (ms : List (String × MeasurementSch)) (start end : ℤ) (k : Counters) (w : W)
      → I w
      → I (run_jobs job ms start end k w).1
  unfolding run_jobs
  run_jobs_preserves [] start end k w h = h
  run_jobs_preserves (m ∷ ms) start end k w h =
      let kept = keeps m start end w h in
      elim (Outcome-cases (job m start end w).0) [
        | inl e ↦ ground (arith, e, kept)
        | inr (done, e) ↦
            let rest = run_jobs_preserves ms start end (count_end done k) _ kept in
            ground (arith, e, rest)
      ]

  pub chunks_from_preserves :
      (ms : List (String × MeasurementSch)) (e_epoch : Time) (chunk_second h : ℤ) (rounds i : ℕ)
      (p : Progress) (w : W)
      → I w
      → I (chunks_from job ms e_epoch chunk_second h rounds i p w).1
  unfolding chunks_from
  chunks_from_preserves ms e_epoch chunk_second h zero i p w d = d
  chunks_from_preserves ms e_epoch chunk_second h (suc rounds) i p w d =
      let start = startsec e_epoch chunk_second i in
      let end = endsec e_epoch chunk_second i in
      let kept = run_jobs_preserves ms start end no_counts w d in
      elim (Outcome-cases (run_jobs job ms start end no_counts w).0) [
        | inl e ↦ ground (arith, e, kept)
        | inr (k, e) ↦
            let rest =
              chunks_from_preserves ms e_epoch chunk_second h rounds (i + 1)
                (add_chunk (chunk_report_of h i start end k) p) _ kept in
            ground (arith, e, rest)
      ]

  pub run_chunks_preserves :
      (ms : List (String × MeasurementSch)) (e_epoch : Time) (chunk : Duration) (h : ℤ) (w : W)
      → I w
      → I (run_chunks job ms e_epoch chunk h w).1
  unfolding run_chunks
  run_chunks_preserves ms e_epoch chunk (pos h) w d =
      chunks_from_preserves ms e_epoch (whole_seconds chunk) (pos h) h 0 _ w d
  run_chunks_preserves ms e_epoch chunk (negsuc h) w d = d
