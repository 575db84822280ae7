-- ===== src/Agent/Sync/Passes.antt =====
-- The passes of a run of SyncDBRP that returns, one after the other.
use mathlib.Core.Path.{subst}
use syncflux.Prelude.{
  arith, ℕ, suc, ◌≡◌, refl, ap, sym, ◌∙◌, ◌⊎◌, inl, inr, zero, pos, negsuc, String, Option, none,
  some, List, [], ◌∷◌, ◌++◌, append-nil, append_assoc, Bool-cases, ltb, length,
}
use syncflux.Go.{Outcome-cases, ret}
use syncflux.Go.Time.{Time, Duration}
use syncflux.Config.{GeneralConfig}
use syncflux.Influx.{Points, Client}
use syncflux.Agent.Schema.{RetPol, InfluxSchDb}
use syncflux.Agent.Monitor.{InfluxMonitor}
use syncflux.Agent.Chunks.{ChunkReport, SyncReport, run_chunks, h_length}
use syncflux.Agent.Sync.{sync, recover_chunks, sync_dbrp, copy_measurement}
use syncflux.Agent.Sync.Recovery.{one_pass, two_passes, again, Leaves, done, more}

module _ {P B C W : Type 0} (parse_float : String → ℕ) (api : Points P B) (client : Client C W B)
    (general : GeneralConfig) (src dst : InfluxMonitor C) (sdb ddb : String) (srp drp : RetPol)
    (dbschema : Option InfluxSchDb) (chunk maxret : Duration) where
  -- Second passes that have not panicked, step by step.
  recover_chunks_inv :
      (bcs made nb : List ChunkReport) (w w'' : W)
      → recover_chunks parse_float api client general src dst sdb ddb srp drp dbschema chunk maxret
          bcs made w
        ≡ (ret nb, w'')
      → (left : List ChunkReport) × (nb ≡ made ++ left)
        × Leaves parse_float api client general src dst sdb ddb srp drp dbschema chunk maxret bcs w
            left w''
  unfolding recover_chunks
  recover_chunks_inv [] made nb w w'' e =
      let same : w ≡ w'' = ap (λ r. r.1) e in
      let made_is : nb ≡ made = ground (arith, e) in
      (
        [],
        made_is ∙ sym (append-nil made),
        subst
            (λ v.
              Leaves parse_float api client general src dst sdb ddb srp drp dbschema chunk maxret []
                w [] v)
            same done,
      )
  recover_chunks_inv (bc ∷ bcs) made nb w w'' e =
      let r =
        again parse_float api client general src dst sdb ddb srp drp dbschema chunk maxret bc w in
      elim (Outcome-cases (r.0)) [
        | inl x ↦ absurd (ground (arith, e, x))
        | inr (none, x) ↦ absurd (ground (arith, e, x))
        | inr (some rep, x) ↦
            let rest : recover_chunks parse_float api client general src dst sdb ddb srp drp
                  dbschema chunk maxret bcs (made ++ rep.bad_chunks) (r.1)
                ≡ (ret nb, w'') =
              ground (arith, e, x) in
            let (left, same, leaves) =
              recover_chunks_inv bcs (made ++ rep.bad_chunks) nb (r.1) w'' rest in
            (
              rep.bad_chunks ++ left,
              same ∙ append_assoc made rep.bad_chunks left,
              more (ap (λ o. (o, r.1)) x) leaves,
            )
      ]

  -- What a run does after its first pass.
  second_pass_inv :
      (s_epoch e_epoch : Time) (report final : SyncReport) (w w' w'' : W)
      → one_pass parse_float api client general src dst sdb ddb srp drp s_epoch e_epoch dbschema
          chunk maxret w
        ≡ (ret (some report), w')
      → two_passes parse_float api client general src dst sdb ddb srp drp s_epoch e_epoch dbschema
          chunk maxret w
        ≡ (ret final, w'')
      → (nb : List ChunkReport) × (recover_chunks parse_float api client general src dst sdb ddb srp
            drp dbschema chunk maxret report.bad_chunks [] w'
          ≡ (ret nb, w''))
        × (final.bad_chunks ≡ nb)
  unfolding sync_dbrp recover_chunks
  second_pass_inv s_epoch e_epoch report final w w' w'' first e =
      let second =
        recover_chunks parse_float api client general src dst sdb ddb srp drp dbschema chunk maxret
          report.bad_chunks [] w' in
      elim (Bool-cases (ltb 0 (length report.bad_chunks))) [
        | inl bad ↦ elim (Outcome-cases (second.0)) [
          | inl x ↦ absurd (ground (arith, first, e, bad, x))
          | inr (nb, x) ↦ (nb, ground (arith, first, e, bad, x), ground (arith, first, e, bad, x))
        ]
        | inr clean ↦
            let empty : report.bad_chunks ≡ [] = ground arith in
            ([], ground (arith, first, e, clean, empty), ground (arith, first, e, clean, empty))
      ]

  -- A whole run, pass by pass.
  pub sync_dbrp_inv :
      (s_epoch e_epoch : Time) (final : SyncReport) (w w'' : W)
      → two_passes parse_float api client general src dst sdb ddb srp drp s_epoch e_epoch dbschema
          chunk maxret w
        ≡ (ret final, w'')
      → (report : SyncReport) × (w' : W) × (one_pass parse_float api client general src dst sdb ddb
            srp drp s_epoch e_epoch dbschema chunk maxret w
          ≡ (ret (some report), w'))
        × Leaves parse_float api client general src dst sdb ddb srp drp dbschema chunk maxret
            report.bad_chunks w' final.bad_chunks w''
  unfolding sync_dbrp
  sync_dbrp_inv s_epoch e_epoch final w w'' e =
      let first =
        one_pass parse_float api client general src dst sdb ddb srp drp s_epoch e_epoch dbschema
          chunk maxret w in
      elim (Outcome-cases (first.0)) [
        | inl x ↦ absurd (ground (arith, e, x))
        | inr (none, x) ↦ absurd (ground (arith, e, x))
        | inr (some report, x) ↦
            let whole = ap (λ o. (o, first.1)) x in
            let (nb, second, bad) =
              second_pass_inv s_epoch e_epoch report final w (first.1) w'' whole e in
            let (left, same, leaves) =
              recover_chunks_inv report.bad_chunks [] nb (first.1) w'' second in
            (
              report,
              first.1,
              whole,
              subst
                  (λ l.
                    Leaves parse_float api client general src dst sdb ddb srp drp dbschema chunk
                      maxret report.bad_chunks (first.1) l w'')
                  (sym (bad ∙ same)) leaves,
            )
      ]

module _ {P B C W : Type 0} (parse_float : String → ℕ) (api : Points P B) (client : Client C W B)
    (general : GeneralConfig) (src dst : InfluxMonitor C) (sdb ddb : String) (srp drp : RetPol)
    (s_epoch e_epoch : Time) where
  -- What Sync does is what its chunk loop does.
  pub sync_world :
      (dbschema : Option InfluxSchDb) (chunk maxret : Duration) (w : W)
      → let after =
          (one_pass parse_float api client general src dst sdb ddb srp drp s_epoch e_epoch dbschema
            chunk maxret w).1 in
        let job = copy_measurement parse_float api client general src dst sdb ddb srp drp in
        (after ≡ w)
        ⊎ (after
            ≡ (run_chunks job srp.measurements e_epoch chunk
                (h_length s_epoch e_epoch chunk maxret)
                w).1)
  unfolding sync
  sync_world none chunk maxret w = inl refl
  sync_world (some dbschema) (pos zero) maxret w = inl refl
  sync_world (some dbschema) (pos (suc c)) maxret w =
      let job = copy_measurement parse_float api client general src dst sdb ddb srp drp in
      let chunk : Duration = pos (suc c) in
      let ran = Outcome-cases (
        (run_chunks job srp.measurements e_epoch chunk (h_length s_epoch e_epoch chunk maxret)
          w).0) in
      inr (ground (arith, ran))
  sync_world (some dbschema) (negsuc c) maxret w =
      let job = copy_measurement parse_float api client general src dst sdb ddb srp drp in
      let chunk : Duration = negsuc c in
      let ran = Outcome-cases (
        (run_chunks job srp.measurements e_epoch chunk (h_length s_epoch e_epoch chunk maxret)
          w).0) in
      inr (ground (arith, ran))
