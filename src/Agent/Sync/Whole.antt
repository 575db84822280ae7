-- ===== src/Agent/Sync/Whole.antt =====
-- A run of SyncDBRP between two databases that are connected.
use syncflux.Prelude.{ℕ, ◌*◌, ◌<◌, ◌≡◌, ap, ◌⊎◌, pos, ◌-ℤ◌, String, some, List, All, All-mono}
use syncflux.Go.{ret}
use syncflux.Go.Time.{Time, second, whole_seconds}
use syncflux.Config.{GeneralConfig}
use syncflux.Influx.{Placed, Points, Client}
use syncflux.Agent.Schema.{RetPol, InfluxSchDb}
use syncflux.Agent.Monitor.{InfluxMonitor}
use syncflux.Agent.Chunks.{ChunkReport, SyncReport, h_length, startsec, endsec}
use syncflux.Agent.Sync.Job.{Keeping, CanCopy, AnswersFit, job-Returns}
use syncflux.Agent.Sync.Span.{IsSane}
use syncflux.Agent.Sync.Recovery.{two_passes}
use syncflux.Agent.Sync.Copied.{Copied}
use syncflux.Agent.Sync.Recovered.{IsRetried, sync_dbrp_copies}
use syncflux.Agent.Sync.Total.{sync_dbrp-Returns}

module _ {P B C W : Type 0} (parse_float : String → ℕ) (api : Points P B) (client : Client C W B)
    (general : GeneralConfig) (stored : W → Placed C P → Type 0)
    (keeping : Keeping api client stored) (src dst : InfluxMonitor C) (sdb ddb : String)
    (srp drp : RetPol) (can : CanCopy api general ddb drp.name) where
  -- The chunks of the first pass have been copied, or tried again in pieces of which each is copied or reported.
  abbrev pub AllAccounted : Time → Time → InfluxSchDb → ℕ → ℕ → List ChunkReport → W → Type 0
  AllAccounted s_epoch e_epoch dbschema c m bad w =
      (h : ℕ) × (h_length s_epoch e_epoch (pos (c * second)) (pos m) ≡ pos h)
      × ((i : ℕ)
          → i < h
          → let start = startsec e_epoch (whole_seconds (pos (c * second))) i in
            let end = endsec e_epoch (whole_seconds (pos (c * second))) i in
            All
              (λ x.
                Copied parse_float api client general stored keeping src dst sdb ddb srp drp can x
                  start end w)
              srp.measurements
            ⊎ ((bc : ChunkReport) × (bc.time_start ≡ start)
                × (bc.time_end ≡ end)
                × IsRetried parse_float api client general stored keeping src dst sdb ddb srp drp
                    can dbschema (pos (c * second)) (pos m) bad w bc))

  -- SyncDBRP, between two databases that are connected, over a span within the bounds and in chunks of whole seconds,
  -- for measurements whose answers fit their schema, returns a report. Each chunk of its first pass has been copied, or
  -- has been tried again in pieces of a tenth, each of which has been copied or is among the bad chunks of the report.
  -- Copied means, for every measurement of the retention policy: the source has answered the query between the two
  -- bounds, and all the points that the answer's rows make are stored at the end behind the target's connection, in the
  -- target database and retention policy. The limit of points is positive and the library makes the batches; a
  -- successful write of the client stores the points of its batch there, and no call of it removes any.
  pub sync_dbrp_lem :
      (dbschema : InfluxSchDb) (e_epoch : Time) (c span m : ℕ) (cs cd : C) (w : W)
      → src.cli ≡ some cs
      → dst.cli ≡ some cd
      → IsSane e_epoch c span m
      → All (AnswersFit client sdb srp.name) srp.measurements
      → (final : SyncReport) × (w' : W) × (two_passes parse_float api client general src dst sdb ddb
            srp drp
            (e_epoch -ℤ pos span)
            e_epoch
            (some dbschema)
            (pos (c * second))
            (pos m)
            w
          ≡ (ret final, w'))
        × AllAccounted (e_epoch -ℤ pos span) e_epoch dbschema c m final.bad_chunks w'
  sync_dbrp_lem dbschema e_epoch c span m cs cd w up up' sane fits =
      let ends =
        All-mono
          (λ x fit s e v.
            job-Returns parse_float api client general stored keeping src dst sdb ddb srp drp can x
              s e v cs cd up up' fit)
          srp.measurements fits in
      let (final, returns) =
        sync_dbrp-Returns parse_float api client general src dst sdb ddb srp drp dbschema ends
          e_epoch c span m w sane in
      let w' =
        (two_passes parse_float api client general src dst sdb ddb srp drp (e_epoch -ℤ pos span)
          e_epoch (some dbschema) (pos (c * second)) (pos m) w).1 in
      let ran = ap (λ o. (o, w')) returns in
      (
        final,
        w',
        ran,
        sync_dbrp_copies parse_float api client general stored keeping src dst sdb ddb srp drp can
            (e_epoch -ℤ pos span) e_epoch dbschema (pos (c * second)) (pos m) w w' final ran,
      )
