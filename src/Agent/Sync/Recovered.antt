-- ===== src/Agent/Sync/Recovered.antt =====
-- What a whole run of SyncDBRP copies, its second pass included.
use mathlib.Core.Path.{subst}
use syncflux.Prelude.{
  ℕ, ◌<◌, ◌≡◌, ap, sym, ◌⊎◌, inl, inr, ℤ, pos, quot, String, Option, some, List, [], ◌∷◌, ◌++◌, All,
  All-mono,
}
use syncflux.Go.{ret}
use syncflux.Go.Time.{Time, Duration, unix, whole_seconds}
use syncflux.Config.{GeneralConfig}
use syncflux.Influx.{Placed, Points, Client}
use syncflux.Agent.Schema.{MeasurementSch, RetPol, InfluxSchDb}
use syncflux.Agent.Monitor.{InfluxMonitor}
use syncflux.Agent.Chunks.{ChunkReport, SyncReport, h_length, startsec, endsec}
use syncflux.Agent.Sync.{sync}
use syncflux.Agent.Read.Retries.{target}
use syncflux.Agent.Sync.Covered.{Listed, Listed-append_left}
use syncflux.Agent.Sync.Preserved.{run_chunks_preserves}
use syncflux.Agent.Sync.Job.{Keeping, CanCopy, job_keeps}
use syncflux.Agent.Sync.Recovery.{two_passes, Leaves, done, more}
use syncflux.Agent.Sync.Passes.{sync_dbrp_inv, sync_world}
use syncflux.Agent.Sync.Copied.{copy_job, Copied, IsSettled, sync_copies}

Listed-append_right :
    (start end : ℤ) (rs ss : List ChunkReport) → Listed start end ss → Listed start end (rs ++ ss)
Listed-append_right start end [] ss h = h
Listed-append_right start end (r ∷ rs) ss h = inr (Listed-append_right start end rs ss h)

-- A report that is listed under its bounds.
Listed-report :
    (Q : ChunkReport → Type 0) (start end : ℤ) (rs : List ChunkReport)
    → All Q rs
    → Listed start end rs
    → (r : ChunkReport) × (r.time_start ≡ start) × (r.time_end ≡ end) × Q r
Listed-report Q start end [] q h = elim h [ ]
Listed-report Q start end (r ∷ rs) (q, qs) (inl (s, e)) = (r, s, e, q)
Listed-report Q start end (r ∷ rs) (q, qs) (inr h) = Listed-report Q start end rs qs h

module _ {P B C W : Type 0} (parse_float : String → ℕ) (api : Points P B) (client : Client C W B)
    (general : GeneralConfig) (stored : W → Placed C P → Type 0)
    (keeping : Keeping api client stored) (src dst : InfluxMonitor C) (sdb ddb : String)
    (srp drp : RetPol) (can : CanCopy api general ddb drp.name) where
  -- What is stored stays stored over a pass.
  pub sync_stored :
      (s_epoch e_epoch : Time) (dbschema : Option InfluxSchDb) (chunk maxret : Duration) (w : W)
      (p : Placed C P)
      → stored w p
      → stored
          (sync parse_float api client general src dst sdb ddb srp drp s_epoch e_epoch dbschema
            chunk maxret w).1
          p
  sync_stored s_epoch e_epoch dbschema chunk maxret w p h =
      elim (sync_world parse_float api client general src dst sdb ddb srp drp s_epoch e_epoch
        dbschema chunk maxret w) [
          | inl same ↦ subst (λ v. stored v p) (sym same) h
          | inr ran ↦
              subst (λ v. stored v p) (sym ran)
                (run_chunks_preserves
                  (copy_job parse_float api client general stored keeping src dst sdb ddb srp drp
                    can)
                  (λ v. stored v p)
                  (λ m s e v.
                    job_keeps parse_float api client general stored keeping src dst sdb ddb srp drp
                      can m s e v p)
                  srp.measurements e_epoch chunk (h_length s_epoch e_epoch chunk maxret) w h)
        ]

  -- It stays so over the second passes.
  pub Leaves_stored :
      (dbschema : InfluxSchDb) (chunk maxret : Duration) {bcs left : List ChunkReport} {w w'' : W}
      (p : Placed C P)
      → Leaves parse_float api client general src dst sdb ddb srp drp
          (some dbschema)
          chunk
          maxret
          bcs
          w
          left
          w''
      → stored w p
      → stored w'' p
  Leaves_stored dbschema chunk maxret p done h = h
  Leaves_stored dbschema chunk maxret p (more {bc} {bcs} {left} {w} {w'} {w''} {r} once rest) h =
      Leaves_stored dbschema chunk maxret p rest (
        subst (λ v. stored v p) (ap (λ x. x.1) once)
          (sync_stored (unix bc.time_start (pos 0)) (unix bc.time_end (pos 0)) (some dbschema)
            (quot chunk (pos 10)) maxret w p h))

  -- What is copied stays copied where what is stored stays stored.
  pub Copied-mono :
      (w w' : W)
      → ((p : Placed C P) → stored w p → stored w' p)
      → (m : String × MeasurementSch) (start end : ℤ)
      → Copied parse_float api client general stored keeping src dst sdb ddb srp drp can m start end
          w
      → Copied parse_float api client general stored keeping src dst sdb ddb srp drp can m start end
          w'
  Copied-mono w w' keep m start end (c, d, v, r, ps, e, f, given, made, all) =
      (c, d, v, r, ps, e, f, given, made, All-mono (λ p. keep (d, target ddb drp.name, p)) ps all)

  -- More that is copied and more that is listed settle more.
  IsSettled-mono :
      (end : Time) (piece : Duration) (bad bad' : List ChunkReport) (w w' : W)
      → ((m : String × MeasurementSch) (start end' : ℤ)
          → Copied parse_float api client general stored keeping src dst sdb ddb srp drp can m start
              end' w
          → Copied parse_float api client general stored keeping src dst sdb ddb srp drp can m start
              end' w')
      → ((start end' : ℤ) → Listed start end' bad → Listed start end' bad')
      → (i : ℕ)
      → IsSettled parse_float api client general stored keeping src dst sdb ddb srp drp can end
          piece bad w i
      → IsSettled parse_float api client general stored keeping src dst sdb ddb srp drp can end
          piece bad' w' i
  IsSettled-mono end piece bad bad' w w' keep longer i (inl all) =
      inl (All-mono (λ m. keep m _ _) srp.measurements all)
  IsSettled-mono end piece bad bad' w w' keep longer i (inr listed) = inr (longer _ _ listed)

  -- A second pass over a bad chunk: each of its pieces is copied or bad.
  abbrev pub IsRetried :
      InfluxSchDb → Duration → Duration → List ChunkReport → W → ChunkReport → Type 0
  IsRetried dbschema chunk maxret bad w bc =
      let start = unix bc.time_start (pos 0) in
      let end = unix bc.time_end (pos 0) in
      let piece = quot chunk (pos 10) in
      (h : ℕ) × (h_length start end piece maxret ≡ pos h)
      × ((i : ℕ)
          → i < h
          → IsSettled parse_float api client general stored keeping src dst sdb ddb srp drp can end
              piece bad w i)

  pub IsRetried-mono :
      (dbschema : InfluxSchDb) (chunk maxret : Duration) (bad bad' : List ChunkReport) (w w' : W)
      → ((p : Placed C P) → stored w p → stored w' p)
      → ((start end : ℤ) → Listed start end bad → Listed start end bad')
      → (bc : ChunkReport) → IsRetried dbschema chunk maxret bad w bc
      → IsRetried dbschema chunk maxret bad' w' bc
  IsRetried-mono dbschema chunk maxret bad bad' w w' keep longer bc (h, len, settled) = (
    h,
    len,
    λ i lo.
        IsSettled-mono (unix bc.time_end (pos 0)) (quot chunk (pos 10)) bad bad' w w'
          (Copied-mono w w' keep) longer i (settled i lo),
  )

  Leaves-IsRetried :
      (dbschema : InfluxSchDb) (chunk maxret : Duration) {bcs left : List ChunkReport} {w w'' : W}
      → Leaves parse_float api client general src dst sdb ddb srp drp
          (some dbschema)
          chunk
          maxret
          bcs
          w
          left
          w''
      → All (IsRetried dbschema chunk maxret left w'') bcs
  Leaves-IsRetried dbschema chunk maxret done = tt
  Leaves-IsRetried dbschema chunk maxret (more {bc} {bcs} {left} {w} {w'} {w''} {r} once rest) = (
    IsRetried-mono dbschema chunk maxret r.bad_chunks (r.bad_chunks ++ left) w' w''
        (λ p. Leaves_stored dbschema chunk maxret p rest)
        (λ s e. Listed-append_left s e r.bad_chunks left) bc
        (sync_copies parse_float api client general stored keeping src dst sdb ddb srp drp can
          (unix bc.time_start (pos 0)) (unix bc.time_end (pos 0)) dbschema (quot chunk (pos 10))
          maxret w w' r once),
    All-mono
        (IsRetried-mono dbschema chunk maxret left (r.bad_chunks ++ left) w'' w'' (λ p h. h)
          (λ s e. Listed-append_right s e r.bad_chunks left))
        bcs (Leaves-IsRetried dbschema chunk maxret rest),
  )

  -- When SyncDBRP returns its report, each chunk of its first pass has been copied, or has been tried again in
  -- pieces of a tenth, each of which has been copied or is among the bad chunks of the report. Copied means,
  -- for every measurement of the retention policy: the source has answered the query between the two bounds,
  -- and all the points that the answer's rows make are stored in the target at the end.
  pub sync_dbrp_copies :
      (s_epoch e_epoch : Time) (dbschema : InfluxSchDb) (chunk maxret : Duration) (w w'' : W)
      (final : SyncReport)
      → two_passes parse_float api client general src dst sdb ddb srp drp s_epoch e_epoch
          (some dbschema)
          chunk
          maxret
          w
        ≡ (ret final, w'')
      → (h : ℕ) × (h_length s_epoch e_epoch chunk maxret ≡ pos h)
        × ((i : ℕ)
            → i < h
            → let start = startsec e_epoch (whole_seconds chunk) i in
              let end = endsec e_epoch (whole_seconds chunk) i in
              All
                (λ m.
                  Copied parse_float api client general stored keeping src dst sdb ddb srp drp can m
                    start end w'')
                srp.measurements
              ⊎ ((bc : ChunkReport) × (bc.time_start ≡ start)
                  × (bc.time_end ≡ end)
                  × IsRetried dbschema chunk maxret final.bad_chunks w'' bc))
  sync_dbrp_copies s_epoch e_epoch dbschema chunk maxret w w'' final e =
      let (report, w', first, leaves) =
        sync_dbrp_inv parse_float api client general src dst sdb ddb srp drp (some dbschema) chunk
          maxret s_epoch e_epoch final w w'' e in
      let retried = Leaves-IsRetried dbschema chunk maxret leaves in
      let kept = Copied-mono w' w'' (λ p. Leaves_stored dbschema chunk maxret p leaves) in
      let (h, len, settled) =
        sync_copies parse_float api client general stored keeping src dst sdb ddb srp drp can
          s_epoch e_epoch dbschema chunk maxret w w' report first in
      (
        h,
        len,
        λ i lo. elim (settled i lo) [
          | inl all ↦ inl (All-mono (λ m. kept m _ _) srp.measurements all)
          | inr listed ↦ inr (
              Listed-report (IsRetried dbschema chunk maxret final.bad_chunks w'') _ _
                report.bad_chunks retried listed)
        ],
      )
