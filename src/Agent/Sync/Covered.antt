-- ===== src/Agent/Sync/Covered.antt =====
-- The chunk loop of Sync, for a job of which it is known what it does where it counts as written.
use mathlib.Core.Path.{subst}
use syncflux.Prelude.{
  arith, ℕ, zero, suc, ◌+◌, ◌≤◌, ◌<◌, ◌≡◌, refl, ap, sym, ◌∙◌, ◌⊎◌, inl, inr, ℤ, pos, String, none,
  List, [], ◌∷◌, ◌++◌, All, All-mono, ltb, replicate, Bool-cases,
}
use syncflux.Go.{Outcome-cases, ret, Action}
use syncflux.Go.Time.{Time, Duration, whole_seconds}
use syncflux.Agent.Schema.{MeasurementSch}
use syncflux.Agent.Sync.Preserved.{run_jobs_preserves, chunks_from_preserves}
use syncflux.Agent.Chunks.{
  ChunkReport, endsec, startsec, JobEnd, read_error, write_error, written, Counters, no_counts,
  count_end, Progress, run_jobs, chunk_report_of, add_chunk, chunks_from, run_chunks,
}

-- A chunk with these bounds is in a list of reports.
abbrev pub Listed : ℤ → ℤ → List ChunkReport → Type 0
Listed start end [] = ⊥
Listed start end (r ∷ rs) = ((r.time_start ≡ start) × (r.time_end ≡ end)) ⊎ Listed start end rs

pub Listed-append_left :
    (start end : ℤ) (rs ss : List ChunkReport) → Listed start end rs → Listed start end (rs ++ ss)
Listed-append_left start end [] ss h = elim h [ ]
Listed-append_left start end (r ∷ rs) ss (inl e) = inl e
Listed-append_left start end (r ∷ rs) ss (inr h) = inr (Listed-append_left start end rs ss h)

Listed-append_last :
    (rs : List ChunkReport) (r : ChunkReport) → Listed r.time_start r.time_end (rs ++ r ∷ [])
Listed-append_last [] r = inl (refl, refl)
Listed-append_last (_ ∷ rs) r = inr (Listed-append_last rs r)

add_chunk-Listed :
    (r : ChunkReport) (p : Progress) (start end : ℤ)
    → Listed start end p.bad_chunks
    → Listed start end (add_chunk r p).bad_chunks
unfolding add_chunk
add_chunk-Listed r p start end h =
    let longer = Listed-append_left start end p.bad_chunks (r ∷ []) h in ground arith

add_chunk_bad :
    (r : ChunkReport) (p : Progress)
    → 0 < r.read_errors + r.write_errors
    → Listed r.time_start r.time_end (add_chunk r p).bad_chunks
unfolding add_chunk
add_chunk_bad r p h = let last = Listed-append_last p.bad_chunks r in ground arith

chunk_bad :
    (h : ℤ) (i : ℕ) (start end : ℤ) (k : Counters) (p : Progress)
    → 0 < k.read_errors + k.write_errors
    → Listed start end (add_chunk (chunk_report_of h i start end k) p).bad_chunks
unfolding chunk_report_of
chunk_bad h i start end k p bad = add_chunk_bad (chunk_report_of h i start end k) p bad

at_or_after :
    (Q : ℕ → Type 0) (i rounds : ℕ)
    → Q i
    → ((j : ℕ) → i + 1 ≤ j → j < i + 1 + rounds → Q j)
    → (j : ℕ) → i ≤ j
    → j < i + suc rounds
    → Q j
at_or_after Q i rounds here after j lo hi = elim (Bool-cases (ltb i j)) [
  | inl more ↦ after j (ground arith) (omega arith)
  | inr same ↦ let e : i ≡ j = ground arith in subst Q e here
]

abbrev errors : Counters → ℕ
errors k = k.read_errors + k.write_errors

module _ {W : Type 0} (Done : String × MeasurementSch → ℤ → ℤ → W → Type 0) where
  -- All the jobs of a chunk are done, or the chunk is among the bad ones.
  abbrev pub IsCovered :
      List (String × MeasurementSch) → Time → ℤ → List ChunkReport → W → ℕ → Type 0
  IsCovered ms e_epoch chunk_second bad w j =
      let start = startsec e_epoch chunk_second j in
      let end = endsec e_epoch chunk_second j in
      All (λ m. Done m start end w) ms ⊎ Listed start end bad

module _ {W : Type 0} (job : String × MeasurementSch → ℤ → ℤ → Action W JobEnd)
    (Done : String × MeasurementSch → ℤ → ℤ → W → Type 0)
    (does : (m : String × MeasurementSch) (start end : ℤ) (w w' : W) (n : ℕ)
      → job m start end w ≡ (ret (written n), w')
      → Done m start end w')
    (keeps : (m m' : String × MeasurementSch) (start end start' end' : ℤ) (w : W)
      → Done m start end w
      → Done m start end (job m' start' end' w).1) where
  -- One step of the jobs of a chunk.
  run_jobs_step :
      (m : String × MeasurementSch) (ms : List (String × MeasurementSch)) (start end : ℤ)
      (k : Counters) (w : W) (done : JobEnd)
      → (job m start end w).0 ≡ ret done
      → run_jobs job (m ∷ ms) start end k w
        ≡ run_jobs job ms start end (count_end done k) (job m start end w).1
  unfolding run_jobs
  run_jobs_step m ms start end k w done e = ground arith

  run_jobs_keeps :
      (m' : String × MeasurementSch) (start' end' : ℤ) (ms : List (String × MeasurementSch))
      (start end : ℤ) (k : Counters) (w : W)
      → Done m' start' end' w
      → Done m' start' end' (run_jobs job ms start end k w).1
  run_jobs_keeps m' start' end' =
      run_jobs_preserves job (Done m' start' end') (λ m s e w. keeps m' m start' end' s e w)

  -- Jobs that count no error are all done.
  run_jobs_done :
      (ms : List (String × MeasurementSch)) (start end : ℤ) (k k' : Counters) (w w' : W)
      → run_jobs job ms start end k w ≡ (ret k', w')
      → (errors k ≤ errors k') × (errors k' ≤ errors k → All (λ m. Done m start end w') ms)
  unfolding run_jobs count_end
  run_jobs_done [] start end k k' w w' e = ground arith
  run_jobs_done (m ∷ ms) start end k k' w w' e = elim (Outcome-cases (job m start end w).0) [
    | inl p ↦ absurd (ground arith)
    | inr (read_error, p) ↦
        let step = run_jobs_step m ms start end k w read_error p in
        let later = run_jobs_done ms start end (count_end read_error k) k' _ w' (sym step ∙ e) in
        (omega (arith, later.0), λ same. absurd (omega (arith, later.0)))
    | inr (write_error n, p) ↦
        let step = run_jobs_step m ms start end k w (write_error n) p in
        let later =
          run_jobs_done ms start end (count_end (write_error n) k) k' _ w' (sym step ∙ e) in
        (omega (arith, later.0), λ same. absurd (omega (arith, later.0)))
    | inr (written n, p) ↦
        let w1 = (job m start end w).1 in
        let step = run_jobs_step m ms start end k w (written n) p in
        let later = run_jobs_done ms start end (count_end (written n) k) k' w1 w' (sym step ∙ e) in
        let first = does m start end w w1 n (ap (λ o. (o, w1)) p) in
        let kept = run_jobs_keeps m start end ms start end (count_end (written n) k) w1 first in
        (
          later.0,
          λ same. (subst (Done m start end) (ap (λ r. r.1) (sym step ∙ e)) kept, later.1 same),
        )
  ]

  chunks_from_keeps :
      (m' : String × MeasurementSch) (start' end' : ℤ) (ms : List (String × MeasurementSch))
      (e_epoch : Time) (chunk_second h : ℤ) (rounds i : ℕ) (p : Progress) (w : W)
      → Done m' start' end' w
      → Done m' start' end' (chunks_from job ms e_epoch chunk_second h rounds i p w).1
  chunks_from_keeps m' start' end' =
      chunks_from_preserves job (Done m' start' end') (λ m s e w. keeps m' m start' end' s e w)

  -- The loop, from a chunk on: what is listed before stays listed, and every chunk that is not listed has
  -- had all its jobs done.
  chunks_from_covers :
      (ms : List (String × MeasurementSch)) (e_epoch : Time) (chunk_second h : ℤ) (rounds i : ℕ)
      (p p' : Progress) (w w' : W)
      → chunks_from job ms e_epoch chunk_second h rounds i p w ≡ (ret p', w')
      → ((start end : ℤ) → Listed start end p.bad_chunks → Listed start end p'.bad_chunks)
        × ((j : ℕ)
            → i ≤ j
            → j < i + rounds
            → IsCovered Done ms e_epoch chunk_second p'.bad_chunks w' j)
  unfolding chunks_from
  chunks_from_covers ms e_epoch chunk_second h zero i p p' w w' e =
      (λ start end l. ground (arith, l), λ j lo hi. absurd (omega arith))
  chunks_from_covers ms e_epoch chunk_second h (suc rounds) i p p' w w' e =
      let start = startsec e_epoch chunk_second i in
      let end = endsec e_epoch chunk_second i in
      elim (Outcome-cases (run_jobs job ms start end no_counts w).0) [
        | inl x ↦ absurd (ground arith)
        | inr (k, x) ↦
            let w1 = (run_jobs job ms start end no_counts w).1 in
            let rep = chunk_report_of h i start end k in
            let rest : chunks_from job ms e_epoch chunk_second h rounds (i + 1) (add_chunk rep p) w1
                ≡ (ret p', w') =
              ground (arith, e, x) in
            let (listed, covers) =
              chunks_from_covers ms e_epoch chunk_second h rounds (i + 1) (add_chunk rep p) p' w1 w'
                rest in
            let world : (chunks_from job ms e_epoch chunk_second h rounds (i + 1) (add_chunk rep p)
                  w1).1
                ≡ w' =
              ap (λ r. r.1) rest in
            let keep = λ (m : String × MeasurementSch) (d : Done m start end w1).
              subst (Done m start end) world (
                chunks_from_keeps m start end ms e_epoch chunk_second h rounds (i + 1)
                  (add_chunk rep p) w1 d) in
            let jobs = run_jobs_done ms start end no_counts k w w1 (ap (λ o. (o, w1)) x) in
            let this : IsCovered Done ms e_epoch chunk_second p'.bad_chunks w' i =
              elim (Bool-cases (ltb 0 (errors k))) [
                | inl bad ↦ inr (listed start end (chunk_bad h i start end k p (ground arith)))
                | inr good ↦ inl (All-mono keep ms (jobs.1 (ground arith)))
              ] in
            (
              λ start' end' l. listed start' end' (add_chunk-Listed rep p start' end' l),
              at_or_after (IsCovered Done ms e_epoch chunk_second p'.bad_chunks w') i rounds this
                  covers,
            )
      ]

  pub run_chunks_covers :
      (ms : List (String × MeasurementSch)) (e_epoch : Time) (chunk : Duration) (h : ℕ)
      (p : Progress) (w w' : W)
      → run_chunks job ms e_epoch chunk (pos h) w ≡ (ret p, w')
      → (j : ℕ) → j < h
      → IsCovered Done ms e_epoch (whole_seconds chunk) p.bad_chunks w' j
  unfolding run_chunks
  run_chunks_covers ms e_epoch chunk h p w w' e j lo =
      let start : Progress = record {
        dbpoints = 0;
        chunk_report = replicate h none;
        bad_chunks = [];
      } in
      (chunks_from_covers ms e_epoch (whole_seconds chunk) (pos h) h 0 start p w w' e).1 j
        (omega arith) (omega arith)
