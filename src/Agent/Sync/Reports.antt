-- ===== src/Agent/Sync/Reports.antt =====
-- What Sync reports of its chunks.
use syncflux.Prelude.{
  ℕ, zero, suc, ◌+◌, ◌≤◌, ◌≡◌, ◌≢◌, refl, ap, sym, ◌∙◌, ℤ, pos, String, Bool, none, some, List, [],
  ◌∷◌, ◌++◌, map, append-nil, append_assoc, arith, ltb, if◌then◌else◌, inl, inr, length, replicate,
  All, sum_of, filter,
}
use syncflux.Go.{Outcome-cases, ret, panic, Action}
use syncflux.Go.Time.{Time, Duration, whole_seconds}
use syncflux.Agent.Schema.{MeasurementSch}
use syncflux.Agent.Chunks.{
  ChunkReport, SyncReport, rw_errors, endsec, startsec, JobEnd, Counters, no_counts, count_end,
  Progress, run_jobs, chunk_report_of, add_chunk, chunks_from, run_chunks,
}
use syncflux.Agent.Sync.Counts.{IsTally, count_end-IsTally, Counts, count_end_errors}

-- A chunk that had a read or a write error.
abbrev pub has_errors : ChunkReport → Bool
has_errors r = ltb 0 (r.read_errors + r.write_errors)

module _ {W : Type 0} (job : String × MeasurementSch → ℤ → ℤ → Action W JobEnd) where
  -- The jobs of a chunk have run one after the other, from one state of the world to another, and have come to these
  -- ends.
  abbrev pub Ran : List (String × MeasurementSch) → ℤ → ℤ → W → List JobEnd → W → Type 0
  Ran [] start end w es w' = (es ≡ []) × (w ≡ w')
  Ran (m ∷ ms) start end w es w' =
      (e : JobEnd) × (rest : List JobEnd) × (es ≡ e ∷ rest)
      × ((job m start end w).0 ≡ ret e)
      × Ran ms start end (job m start end w).1 rest w'

  -- The reports of the chunks `i`, `i + 1`, …, of `h` in all: their jobs have run one chunk after the other, and each
  -- report has its chunk's number and bounds and counts its chunk's jobs.
  abbrev pub Reported :
      List (String × MeasurementSch) → Time → ℤ → ℤ → ℕ → List ChunkReport → W → W → Type 0
  Reported ms e_epoch chunk_second h i [] w w' = w ≡ w'
  Reported ms e_epoch chunk_second h i (r ∷ rs) w w' =
      ((r.num ≡ pos (i + 1))
        × (r.total ≡ h)
        × (r.time_start ≡ startsec e_epoch chunk_second i)
        × (r.time_end ≡ endsec e_epoch chunk_second i))
      × ((es : List JobEnd) × (v : W) × Ran ms (startsec e_epoch chunk_second i)
            (endsec e_epoch chunk_second i) w es v
          × Counts r es
          × Reported ms e_epoch chunk_second h (i + 1) rs v w')

  -- What the loop adds to what it starts from.
  pub record Adds (ms : List (String × MeasurementSch)) (e_epoch : Time) (chunk_second h : ℤ)
      (rounds i : ℕ) (p p' : Progress) (w w' : W) : Type 0 where
    pub reports : List ChunkReport
    pub all : p'.chunk_report ≡ p.chunk_report ++ map (λ r. some r) reports
    pub bad : p'.bad_chunks ≡ p.bad_chunks ++ filter has_errors reports
    pub points : p'.dbpoints ≡ p.dbpoints + sum_of (λ (r : ChunkReport). r.processed_points) reports
    pub count : length reports ≡ rounds
    pub reported : Reported ms e_epoch chunk_second h i reports w w'
    pub few : All (λ (r : ChunkReport). r.read_errors + r.write_errors ≤ length ms) reports

append_if :
    (b : Bool) (xs : List ChunkReport) (r : ChunkReport) (ys : List ChunkReport)
    → (if b then xs ++ r ∷ [] else xs) ++ ys ≡ xs ++ (if b then r ∷ ys else ys)
append_if Bool.true xs r ys = append_assoc xs (r ∷ []) ys
append_if Bool.false xs r ys = refl

module _ {W : Type 0} (job : String × MeasurementSch → ℤ → ℤ → Action W JobEnd)
    (safe : (m : String × MeasurementSch) (start end : ℤ) (w : W)
      → (job m start end w).0 ≢ panic) where
  Adds-cons :
      (ms : List (String × MeasurementSch)) (e_epoch : Time) (chunk_second h : ℤ) (rounds i : ℕ)
      (k : Counters) (p p' : Progress) (es : List JobEnd) (w v w' : W)
      → Ran job ms (startsec e_epoch chunk_second i) (endsec e_epoch chunk_second i) w es v
      → IsTally no_counts es k
      → k.read_errors + k.write_errors ≤ length ms
      → let rep =
          chunk_report_of h i (startsec e_epoch chunk_second i) (endsec e_epoch chunk_second i) k in
        Adds job ms e_epoch chunk_second h rounds (i + 1) (add_chunk rep p) p' v w'
        → Adds job ms e_epoch chunk_second h (suc rounds) i p p' w w'
  unfolding add_chunk chunk_report_of
  Adds-cons ms e_epoch chunk_second h rounds i k p p' es w v w' ran tally one a =
      let rep =
        chunk_report_of h i (startsec e_epoch chunk_second i) (endsec e_epoch chunk_second i) k in
      record {
        reports = rep ∷ a.reports;
        all = a.all ∙ append_assoc p.chunk_report (some rep ∷ []) _;
        bad = a.bad ∙ append_if (has_errors rep) p.bad_chunks rep _;
        points = a.points ∙ omega arith;
        count = ap suc a.count;
        reported = (
          (refl, refl, refl, refl),
          (
            es,
            v,
            ran,
            (omega (arith, tally.reads), omega (arith, tally.writes), omega (arith, tally.points)),
            a.reported,
          ),
        );
        few = (one, a.few);
      }

  -- The jobs of a chunk run one after the other, and count at most one error each.
  jobs_end :
      (ms : List (String × MeasurementSch)) (start end : ℤ) (k : Counters) (w : W)
      → (k' : Counters) × (w' : W) × (es : List JobEnd) × (run_jobs job ms start end k w
          ≡ (ret k', w'))
        × Ran job ms start end w es w'
        × IsTally k es k'
        × (k'.read_errors + k'.write_errors ≤ k.read_errors + k.write_errors + length ms)
  unfolding run_jobs
  jobs_end [] start end k w = (
    k,
    w,
    [],
    refl,
    (refl, refl),
    record { reads = omega arith; writes = omega arith; points = omega arith },
    omega arith,
  )
  jobs_end (m ∷ ms) start end k w = elim (Outcome-cases (job m start end w).0) [
    | inl e ↦ absurd (safe m start end w e)
    | inr (done, e) ↦
        let (k', w', es, runs, ran, tally, few) =
          jobs_end ms start end (count_end done k) (job m start end w).1 in
        (
          k',
          w',
          done ∷ es,
          ground (arith, runs),
          (done, es, refl, e, ran),
          count_end-IsTally done k k' es tally,
          omega (arith, few, count_end_errors done k),
        )
  ]

  chunks_from_step :
      (ms : List (String × MeasurementSch)) (e_epoch : Time) (chunk_second h : ℤ) (r i : ℕ)
      (p : Progress) (w : W) (k : Counters) (w' : W)
      → let start = startsec e_epoch chunk_second i in
        let end = endsec e_epoch chunk_second i in
        run_jobs job ms start end no_counts w ≡ (ret k, w')
        → chunks_from job ms e_epoch chunk_second h (suc r) i p w
          ≡ chunks_from job ms e_epoch chunk_second h r
              (i + 1)
              (add_chunk (chunk_report_of h i start end k) p)
              w'
  unfolding chunks_from
  chunks_from_step ms e_epoch chunk_second h r i p w k w' runs = ground arith

  chunks_from-Adds :
      (ms : List (String × MeasurementSch)) (e_epoch : Time) (chunk_second h : ℤ) (rounds i : ℕ)
      (p : Progress) (w : W)
      → (p' : Progress) × (w' : W) × (chunks_from job ms e_epoch chunk_second h rounds i p w
          ≡ (ret p', w'))
        × Adds job ms e_epoch chunk_second h rounds i p p' w w'
  unfolding chunks_from
  chunks_from-Adds ms e_epoch chunk_second h zero i p w = (
    p,
    w,
    refl,
    record {
      reports = [];
      all = sym (append-nil _);
      bad = sym (append-nil _);
      points = omega arith;
      count = refl;
      reported = refl;
      few = tt;
    },
  )
  chunks_from-Adds ms e_epoch chunk_second h (suc r) i p w =
      let start = startsec e_epoch chunk_second i in
      let end = endsec e_epoch chunk_second i in
      let (k, w', es, runs, ran, tally, few) = jobs_end ms start end no_counts w in
      let rep = chunk_report_of h i start end k in
      let (p', w'', loops, adds) =
        chunks_from-Adds ms e_epoch chunk_second h r (i + 1) (add_chunk rep p) w' in
      (
        p',
        w'',
        chunks_from_step ms e_epoch chunk_second h r i p w k w' runs ∙ loops,
        Adds-cons ms e_epoch chunk_second h r i k p p' es w w' w'' ran tally (omega (arith, few))
            adds,
      )

  -- If no job panics, the chunk loop of Sync ends. It has run the jobs of chunks 1 to `h`, one chunk after the other.
  -- Its reports are those of these chunks, in order and with their bounds, and each counts the read errors, the write
  -- errors and the points read of its chunk's jobs; the bad chunks are those among them that had an error, in order;
  -- the points are the sum of theirs; and no chunk has more errors than there are measurements. But the list of
  -- reports starts with `h` nil entries.
  pub run_chunks_lem :
      (ms : List (String × MeasurementSch)) (e_epoch : Time) (chunk : Duration) (h : ℕ) (w : W)
      → (p : Progress) × (w' : W) × (run_chunks job ms e_epoch chunk (pos h) w ≡ (ret p, w'))
        × (reports : List ChunkReport) × (p.chunk_report
            ≡ replicate h none ++ map (λ r. some r) reports)
        × (p.bad_chunks ≡ filter has_errors reports)
        × (p.dbpoints ≡ sum_of (λ (r : ChunkReport). r.processed_points) reports)
        × (length reports ≡ h)
        × Reported job ms e_epoch (whole_seconds chunk) (pos h) 0 reports w w'
        × All (λ (r : ChunkReport). r.read_errors + r.write_errors ≤ length ms) reports
  unfolding run_chunks
  run_chunks_lem ms e_epoch chunk h w =
      let start : Progress = record {
        dbpoints = 0;
        chunk_report = replicate h none;
        bad_chunks = [];
      } in
      let (p, w', loops, a) =
        chunks_from-Adds ms e_epoch (whole_seconds chunk) (pos h) h 0 start w in
      (p, w', loops, a.reports, a.all, a.bad, omega (arith, a.points), a.count, a.reported, a.few)

sum_of-filter :
    (f : ChunkReport → ℕ)
    → ((r : ChunkReport) → f r ≤ r.read_errors + r.write_errors)
    → (rs : List ChunkReport) → sum_of f (filter has_errors rs) ≡ sum_of f rs
sum_of-filter f le [] = refl
sum_of-filter f le (r ∷ rs) = ground (arith, le r, sum_of-filter f le rs)

-- Where the bad chunks of a report are those among some chunks that had an error, RWErrors counts every
-- read error, every write error and every error of all the chunks.
pub rw_errors_lem :
    (sr : SyncReport) (rs : List ChunkReport)
    → sr.bad_chunks ≡ filter has_errors rs
    → let reads = sum_of (λ (r : ChunkReport). r.read_errors) rs in
      let writes = sum_of (λ (r : ChunkReport). r.write_errors) rs in
      rw_errors sr ≡ (reads, writes, reads + writes)
unfolding rw_errors
rw_errors_lem sr rs e =
    let reads = sum_of-filter (λ (r : ChunkReport). r.read_errors) (λ r. omega arith) rs in
    let writes = sum_of-filter (λ (r : ChunkReport). r.write_errors) (λ r. omega arith) rs in
    rw (e, reads, writes)
