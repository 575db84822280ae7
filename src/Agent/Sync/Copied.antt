-- ===== src/Agent/Sync/Copied.antt =====
-- What a run of Sync copies, chunk by chunk.
use mathlib.Core.Path.{subst}
use syncflux.Prelude.{
  negsuc, All-mono, arith, ℕ, zero, suc, ◌<◌, ◌≡◌, refl, inl, inr, ℤ, pos, String, some, List,
}
use syncflux.Go.{Outcome-cases, Action, ret}
use syncflux.Go.Time.{Time, Duration, whole_seconds}
use syncflux.Config.{GeneralConfig}
use syncflux.Influx.{Placed, Points, Client}
use syncflux.Agent.Schema.{MeasurementSch, RetPol, InfluxSchDb}
use syncflux.Agent.Monitor.{InfluxMonitor}
use syncflux.Agent.Chunks.{ChunkReport, Progress, run_chunks, SyncReport, JobEnd, h_length}
use syncflux.Agent.Sync.Covered.{IsCovered, run_chunks_covers}
use syncflux.Agent.Sync.{sync}
use syncflux.Agent.Read.Retries.{target}
use syncflux.Agent.Sync.Job.{Keeping, CanCopy, IsCopied, job, job_keeps, job_copies}

module _ {P B C W : Type 0} (parse_float : String → ℕ) (api : Points P B) (client : Client C W B)
    (general : GeneralConfig) (stored : W → Placed C P → Type 0)
    (keeping : Keeping api client stored) (src dst : InfluxMonitor C) (sdb ddb : String)
    (srp drp : RetPol) (can : CanCopy api general ddb drp.name) where
  -- The job and its promise, for these databases.
  abbrev pub copy_job : String × MeasurementSch → ℤ → ℤ → Action W JobEnd
  copy_job = job parse_float api client general stored keeping src dst sdb ddb srp drp can

  abbrev pub Copied : String × MeasurementSch → ℤ → ℤ → W → Type 0
  Copied = IsCopied parse_float api client general stored keeping src dst sdb ddb srp drp can

  pub job-Copied :
      (m m' : String × MeasurementSch) (start end start' end' : ℤ) (w : W)
      → Copied m start end w
      → Copied m start end (copy_job m' start' end' w).1
  job-Copied m m' start end start' end' w (c, d, v, r, ps, e, f, given, made, all) = (
    c,
    d,
    v,
    r,
    ps,
    e,
    f,
    given,
    made,
    All-mono
        (λ p.
          job_keeps parse_float api client general stored keeping src dst sdb ddb srp drp can m'
            start' end' w (d, target ddb drp.name, p))
        ps all,
  )

  -- A chunk of a sync is copied, all its measurements, or is among the bad ones.
  abbrev pub IsSettled : Time → Duration → List ChunkReport → W → ℕ → Type 0
  IsSettled e_epoch chunk = IsCovered Copied srp.measurements e_epoch (whole_seconds chunk)

  run_chunks-IsSettled :
      (e_epoch : Time) (chunk : Duration) (h : ℤ) (p : Progress) (w w' : W)
      → run_chunks copy_job srp.measurements e_epoch chunk h w ≡ (ret p, w')
      → (n : ℕ) × (h ≡ pos n) × ((i : ℕ) → i < n → IsSettled e_epoch chunk p.bad_chunks w' i)
  unfolding run_chunks
  run_chunks-IsSettled e_epoch chunk (negsuc n) p w w' e = absurd (ground arith)
  run_chunks-IsSettled e_epoch chunk (pos n) p w w' e = (
    n,
    refl,
    run_chunks_covers copy_job Copied
        (job_copies parse_float api client general stored keeping src dst sdb ddb srp drp can)
        job-Copied srp.measurements e_epoch chunk n p w w' e,
  )

  -- A report comes from a chunk loop that has ended.
  sync_ran :
      (s_epoch e_epoch : Time) (dbschema : InfluxSchDb) (chunk maxret : Duration) (w w' : W)
      (report : SyncReport)
      → sync parse_float api client general src dst sdb ddb srp drp s_epoch e_epoch
          (some dbschema)
          chunk
          maxret
          w
        ≡ (ret (some report), w')
      → (p : Progress) × (run_chunks copy_job srp.measurements e_epoch chunk
            (h_length s_epoch e_epoch chunk maxret)
            w
          ≡ (ret p, w'))
        × (p.bad_chunks ≡ report.bad_chunks)
  unfolding sync
  sync_ran s_epoch e_epoch dbschema (pos zero) maxret w w' report e = absurd (ground arith)
  sync_ran s_epoch e_epoch dbschema (pos (suc c)) maxret w w' report e =
      let chunk = pos (suc c) in
      elim (Outcome-cases
        (run_chunks copy_job srp.measurements e_epoch chunk (h_length s_epoch e_epoch chunk maxret)
          w).0) [ inl x ↦ absurd (ground arith) | inr (p, x) ↦ (p, ground arith, ground arith) ]
  sync_ran s_epoch e_epoch dbschema (negsuc c) maxret w w' report e =
      let chunk = negsuc c in
      elim (Outcome-cases
        (run_chunks copy_job srp.measurements e_epoch chunk (h_length s_epoch e_epoch chunk maxret)
          w).0) [ inl x ↦ absurd (ground arith) | inr (p, x) ↦ (p, ground arith, ground arith) ]

  -- When Sync returns a report, each of its chunks has been copied or is among the report's bad chunks,
  -- with its bounds. Copied means, for every measurement of the retention policy: the source has answered
  -- the query for the chunk, and all the points that the answer's rows make are stored in the target.
  pub sync_copies :
      (s_epoch e_epoch : Time) (dbschema : InfluxSchDb) (chunk maxret : Duration) (w w' : W)
      (report : SyncReport)
      → sync parse_float api client general src dst sdb ddb srp drp s_epoch e_epoch
          (some dbschema)
          chunk
          maxret
          w
        ≡ (ret (some report), w')
      → (h : ℕ) × (h_length s_epoch e_epoch chunk maxret ≡ pos h)
        × ((i : ℕ) → i < h → IsSettled e_epoch chunk report.bad_chunks w' i)
  sync_copies s_epoch e_epoch dbschema chunk maxret w w' report e =
      let (p, ran, bad) = sync_ran s_epoch e_epoch dbschema chunk maxret w w' report e in
      let (n, same, settled) = run_chunks-IsSettled e_epoch chunk _ p w w' ran in
      (n, same, λ i lo. subst (λ bs. IsSettled e_epoch chunk bs w' i) bad (settled i lo))
