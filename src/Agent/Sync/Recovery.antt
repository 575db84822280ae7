-- ===== src/Agent/Sync/Recovery.antt =====
-- The second pass of SyncDBRP over the bad chunks, and where Sync panics.
use mathlib.Core.Path.{ap₂}
use syncflux.Prelude.{
  ℕ, suc, ◌+◌, ◌*◌, ◌/◌, ◌^◌, ◌<◌, ◌≡◌, refl, ap, sym, ◌∙◌, pos, ◌+ℤ◌, quot, String, Option, none,
  some, List, [], ◌∷◌, ◌++◌, arith, ltb, length, append-nil, append_assoc, Bool-cases, inl, inr,
}
use syncflux.Go.{Action, ret, panic}
use syncflux.Go.Time.{Time, Duration, second, unix, whole_seconds}
use syncflux.Config.{GeneralConfig}
use syncflux.Influx.{Points, Client}
use syncflux.Agent.Schema.{RetPol, InfluxSchDb}
use syncflux.Agent.Monitor.{InfluxMonitor}
use syncflux.Agent.Chunks.{ChunkReport, SyncReport, startsec, endsec, run_chunks}
use syncflux.Agent.Sync.{sync, recover_chunks, sync_dbrp}
use syncflux.Agent.Sync.Windows.{InWindow, pos-*ℤ-pos}
use syncflux.Agent.Sync.Span.{h_length_reversed}

module _ {P B C W : Type 0} (parse_float : String → ℕ) (api : Points P B) (client : Client C W B)
    (general : GeneralConfig) (src dst : InfluxMonitor C) (sdb ddb : String)
    (srp drp : RetPol) where
  abbrev pub one_pass :
      Time → Time → Option InfluxSchDb → Duration → Duration → Action W (Option SyncReport)
  one_pass = sync parse_float api client general src dst sdb ddb srp drp

  abbrev pub two_passes :
      Time → Time → Option InfluxSchDb → Duration → Duration → Action W SyncReport
  two_passes = sync_dbrp parse_float api client general src dst sdb ddb srp drp

  -- A report with no bad chunk is returned as it is, and nothing more is done.
  pub sync_dbrp_clean :
      (s_epoch e_epoch : Time) (dbschema : Option InfluxSchDb) (chunk maxret : Duration) (w w' : W)
      (report : SyncReport)
      → one_pass s_epoch e_epoch dbschema chunk maxret w ≡ (ret (some report), w')
      → report.bad_chunks ≡ []
      → two_passes s_epoch e_epoch dbschema chunk maxret w ≡ (ret report, w')
  unfolding sync_dbrp
  sync_dbrp_clean s_epoch e_epoch dbschema chunk maxret w w' report first clean = ground arith

  -- A bad chunk's second pass: over its bounds, in chunks of a tenth.
  abbrev pub again :
      Option InfluxSchDb → Duration → Duration → ChunkReport → Action W (Option SyncReport)
  again dbschema chunk maxret bc =
      one_pass (unix bc.time_start (pos 0)) (unix bc.time_end (pos 0)) dbschema
        (quot chunk (pos 10)) maxret

  -- The bad chunks that a second pass over some chunks leaves, if it does not panic.
  pub data Leaves (dbschema : Option InfluxSchDb) (chunk maxret : Duration)
      : List ChunkReport → W → List ChunkReport → W → Type 0 where
    done : {w : W} → Leaves dbschema chunk maxret [] w [] w
    more :
        {bc : ChunkReport} {bcs left : List ChunkReport} {w w' w'' : W} {r : SyncReport}
        → again dbschema chunk maxret bc w ≡ (ret (some r), w')
        → Leaves dbschema chunk maxret bcs w' left w''
        → Leaves dbschema chunk maxret (bc ∷ bcs) w (r.bad_chunks ++ left) w''

  recover_chunks-Leaves :
      (dbschema : Option InfluxSchDb) (chunk maxret : Duration) {bcs left : List ChunkReport}
      {w w' : W} (made : List ChunkReport)
      → Leaves dbschema chunk maxret bcs w left w'
      → recover_chunks parse_float api client general src dst sdb ddb srp drp dbschema chunk maxret
          bcs made w
        ≡ (ret (made ++ left), w')
  unfolding recover_chunks
  recover_chunks-Leaves dbschema chunk maxret made done =
      ap (λ l. (ret l, _)) (sym (append-nil made))
  recover_chunks-Leaves dbschema chunk maxret made (more {bc} {bcs} {left} {w} {r = r} once rest) =
      let next = recover_chunks-Leaves dbschema chunk maxret (made ++ r.bad_chunks) rest in
      ground (arith, once, next, append_assoc made r.bad_chunks left)

  Leaves-nothing :
      (dbschema : Option InfluxSchDb) (chunk maxret : Duration) {bcs left : List ChunkReport}
      {w w' : W}
      → bcs ≡ []
      → Leaves dbschema chunk maxret bcs w left w'
      → (left ≡ []) × (w ≡ w')
  Leaves-nothing dbschema chunk maxret e done = (refl, refl)
  Leaves-nothing dbschema chunk maxret e (more once rest) = absurd (cc)

  -- A bad chunk does not stay in the report: what SyncDBRP returns is the first pass's report, with the
  -- bad chunks that the second passes over its bad chunks leave, in order.
  pub sync_dbrp_recovers :
      (s_epoch e_epoch : Time) (dbschema : Option InfluxSchDb) (chunk maxret : Duration)
      (w w' w'' : W) (report : SyncReport) (left : List ChunkReport)
      → one_pass s_epoch e_epoch dbschema chunk maxret w ≡ (ret (some report), w')
      → Leaves dbschema chunk maxret report.bad_chunks w' left w''
      → two_passes s_epoch e_epoch dbschema chunk maxret w
        ≡ (ret (record report { bad_chunks = left }), w'')
  unfolding sync_dbrp
  sync_dbrp_recovers s_epoch e_epoch dbschema chunk maxret w w' w'' report left first leaves =
      elim (Bool-cases (ltb 0 (length report.bad_chunks))) [
        | inl bad ↦
            ground (arith, first, bad, recover_chunks-Leaves dbschema chunk maxret [] leaves)
        | inr clean ↦
            let empty : report.bad_chunks ≡ [] = ground arith in
            let (none_left, same) = Leaves-nothing dbschema chunk maxret empty leaves in
            sync_dbrp_clean s_epoch e_epoch dbschema chunk maxret w w' report first empty
            ∙ ap₂ (λ l v. (ret (record report { bad_chunks = l }), v)) (empty ∙ sym none_left) same
      ]

  -- Without a schema the report is nil, and SyncDBRP panics on it.
  pub sync_dbrp_no_schema :
      (s_epoch e_epoch : Time) (chunk maxret : Duration) (w : W)
      → two_passes s_epoch e_epoch none chunk maxret w ≡ (panic, w)
  unfolding sync_dbrp sync
  sync_dbrp_no_schema s_epoch e_epoch chunk maxret w = refl

  -- A span whose start lies two chunks or more after its end makes Sync panic, on a slice of negative
  -- length.
  pub sync_reversed_panics :
      (e_epoch : Time) (k u m n : ℕ) (dbschema : InfluxSchDb) (w : W)
      → suc k < 2 ^ 62
      → m < 2 ^ 62
      → suc k / suc u ≡ suc (suc n)
      → one_pass (e_epoch +ℤ pos (suc k)) e_epoch (some dbschema) (pos (suc u)) (pos m) w
        ≡ (panic, w)
  unfolding sync run_chunks
  sync_reversed_panics e_epoch k u m n dbschema w hk hm e =
      let h = h_length_reversed e_epoch k (suc u) m n hk hm e in ground (arith, h)

-- In the second pass over chunks shorter than ten seconds the pieces have no whole second, and no
-- instant lies in a window: nothing is copied, and no error is reported for it.
pub second_pass_empty :
    (e_epoch : Time) (d i : ℕ) (t : Time)
    → d < 10 * second
    → ¬ InWindow e_epoch (whole_seconds (quot (pos d) (pos 10))) i t
unfolding startsec endsec
second_pass_empty e_epoch d i t h =
    let z : whole_seconds (quot (pos d) (pos 10)) ≡ pos 0 =
      unfold whole_seconds quot in ap pos (omega arith) in
    let a : i * 0 ≡ 0 = omega arith in
    let b : (i + 1) * 0 ≡ 0 = omega arith in
    rw (z, pos-*ℤ-pos, pos-*ℤ-pos, a, b) (λ w. omega (arith, w))
