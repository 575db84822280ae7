-- ===== src/Agent/Replicate/Copies.antt =====
-- What the replication of one policy copies.
use mathlib.Core.Path.{subst}
use syncflux.Prelude.{
  ℕ, ◌<◌, ◌≡◌, ap, ◌⊎◌, inl, inr, pos, String, some, List, [], ◌∷◌, All, All-mono,
}
use syncflux.Go.{ret}
use syncflux.Go.Time.{Time, Duration, whole_seconds}
use syncflux.Config.{GeneralConfig}
use syncflux.Influx.{Placed, Points, Client}
use syncflux.Agent.Schema.{RetPol, InfluxSchDb}
use syncflux.Agent.Monitor.{InfluxMonitor}
use syncflux.Agent.Chunks.{ChunkReport, SyncReport, h_length, startsec, endsec}
use syncflux.Agent.Sync.Job.{Keeping, CanCopy}
use syncflux.Agent.Sync.Recovery.{two_passes}
use syncflux.Agent.Sync.Passes.{sync_dbrp_inv}
use syncflux.Agent.Sync.Copied.{Copied}
use syncflux.Agent.Sync.Recovered.{
  IsRetried, sync_stored, Leaves_stored, Copied-mono, IsRetried-mono, sync_dbrp_copies,
}
use syncflux.Agent.Replicate.{renamed}

module _ {P B C W : Type 0} (parse_float : String → ℕ) (api : Points P B) (client : Client C W B)
    (general : GeneralConfig) (stored : W → Placed C P → Type 0)
    (keeping : Keeping api client stored) (can : (ddb drp : String) → CanCopy api general ddb drp)
    (chunk maxret : Duration) (master slave : InfluxMonitor C) where
  -- A policy's data between two instants has been transferred: each chunk is copied, or has been tried again in
  -- pieces, each of which is copied or reported.
  abbrev pub IsTransferred : InfluxSchDb → RetPol → Time → Time → List ChunkReport → W → Type 0
  IsTransferred db rp start end bad w =
      let drp = renamed db rp in
      (h : ℕ) × (h_length start end chunk maxret ≡ pos h)
      × ((i : ℕ)
          → i < h
          → let first = startsec end (whole_seconds chunk) i in
            let last = endsec end (whole_seconds chunk) i in
            All
              (λ m.
                Copied parse_float api client general stored keeping master slave db.name
                  db.new_name rp drp (can db.new_name drp.name) m first last w)
              rp.measurements
            ⊎ ((bc : ChunkReport) × (bc.time_start ≡ first)
                × (bc.time_end ≡ last)
                × IsRetried parse_float api client general stored keeping master slave db.name
                    db.new_name rp drp (can db.new_name drp.name) db chunk maxret bad w bc))

  pub IsTransferred-mono :
      (db : InfluxSchDb) (rp : RetPol) (start end : Time) (bad : List ChunkReport) (w w' : W)
      → ((p : Placed C P) → stored w p → stored w' p)
      → IsTransferred db rp start end bad w
      → IsTransferred db rp start end bad w'
  IsTransferred-mono db rp start end bad w w' keep (h, len, chunks) =
      let drp = renamed db rp in
      (
        h,
        len,
        λ i lo. elim (chunks i lo) [
          | inl all ↦ inl (
              All-mono
                (λ m.
                  Copied-mono parse_float api client general stored keeping master slave db.name
                    db.new_name rp drp (can db.new_name drp.name) w w' keep m _ _)
                rp.measurements all)
          | inr (bc, s, e, retried) ↦ inr (
            bc,
            s,
            e,
            IsRetried-mono parse_float api client general stored keeping master slave db.name
                db.new_name rp drp (can db.new_name drp.name) db chunk maxret bad bad w w' keep
                (λ s' e' l. l) bc retried,
          )
        ],
      )

  -- One policy.
  pub policy_copies :
      (db : InfluxSchDb) (rp : RetPol) (start end : Time) (w w' : W) (report : SyncReport)
      → two_passes parse_float api client general master slave db.name db.new_name rp
          (renamed db rp)
          start
          end
          (some db)
          chunk
          maxret
          w
        ≡ (ret report, w')
      → ((p : Placed C P) → stored w p → stored w' p)
        × IsTransferred db rp start end report.bad_chunks w'
  policy_copies db rp start end w w' report e =
      let drp = renamed db rp in
      let c = can db.new_name drp.name in
      let (first, w1, ran, leaves) =
        sync_dbrp_inv parse_float api client general master slave db.name db.new_name rp drp
          (some db) chunk maxret start end report w w' e in
      (
        λ p h.
            Leaves_stored parse_float api client general stored keeping master slave db.name
              db.new_name rp drp c db chunk maxret p leaves
              (subst (λ v. stored v p) (ap (λ x. x.1) ran)
                (sync_stored parse_float api client general stored keeping master slave db.name
                  db.new_name rp drp c start end (some db) chunk maxret w p h)),
        sync_dbrp_copies parse_float api client general stored keeping master slave db.name
            db.new_name rp drp c start end db chunk maxret w w' report e,
      )

  module _ (clock : W → Time) (span : RetPol → Time → Time × Time) (final : W) where
    -- The policies of a database have been replicated one after the other, from one state of the world to another:
    -- SyncDBRP has run for each, from the state that the one before it left and over the span that the policy has at
    -- the clock's instant then, and by its report the data of the span has been transferred at the end.
    abbrev pub EachReplicated : InfluxSchDb → List RetPol → W → W → Type 0
    EachReplicated db [] v u = v ≡ u
    EachReplicated db (rp ∷ rps) v u =
        let (start, end) = span rp (clock v) in
        (v' : W) × (report : SyncReport) × (two_passes parse_float api client general master slave
            db.name db.new_name rp (renamed db rp) start end (some db) chunk maxret v
          ≡ (ret report, v'))
        × IsTransferred db rp start end report.bad_chunks final
        × EachReplicated db rps v' u

    -- The databases have been replicated one after the other.
    abbrev pub AllReplicated : List InfluxSchDb → W → W → Type 0
    AllReplicated [] v u = v ≡ u
    AllReplicated (db ∷ schema) v u =
        (v' : W) × EachReplicated db db.rps v v' × AllReplicated schema v' u
