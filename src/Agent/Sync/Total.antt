-- ===== src/Agent/Sync/Total.antt =====
-- SyncDBRP returns.
use mathlib.Core.Path.{subst}
use syncflux.Prelude.{
  arith, ℕ, zero, suc, ◌+◌, ◌*◌, ◌/◌, ◌<◌, ◌^◌, ◌≡◌, refl, ap, ◌∙◌, ℤ, pos, ◌-ℤ◌, ◌*ℤ◌, ◌+ℤ◌,
  eq_of_parts, -ℤ_parts, +ℤ_parts, quot, min, String, some, List, [], ◌∷◌, ◌++◌, All, All-mono,
}
use syncflux.Go.{Returns, ret}
use syncflux.Go.Time.{Time, Duration, second, unix, unix_seconds, whole_seconds}
use syncflux.Config.{GeneralConfig}
use syncflux.Influx.{Points, Client}
use syncflux.Agent.Schema.{RetPol, InfluxSchDb}
use syncflux.Agent.Monitor.{InfluxMonitor}
use syncflux.Agent.Chunks.{ChunkReport, SyncReport, startsec, endsec, h_length}
use syncflux.Agent.Sync.{sync, copy_measurement}
use syncflux.Agent.Sync.Windows.{InRange, bound_lem, *ℤ-pos_parts}
use syncflux.Agent.Sync.Span.{IsSane, sane_range, h_length_lem}
use syncflux.Agent.Sync.Ends.{IsOneOf, JobsEnd, run_chunks-Returns}
use syncflux.Agent.Sync.Recovery.{
  one_pass, two_passes, again, Leaves, done, more, sync_dbrp_recovers,
}

whole_seconds_lem : (c : ℕ) → whole_seconds (pos (c * second)) ≡ pos c
unfolding whole_seconds quot
whole_seconds_lem c = ap pos (omega arith)

-- The span between the bounds of a chunk is the chunk's length.
unix-apart :
    (e : ℤ) (a b n : ℕ)
    → b ≡ a + n
    → unix (e -ℤ pos b) (pos 0) ≡ unix (e -ℤ pos a) (pos 0) -ℤ pos (n * second)
unfolding unix
unix-apart e a b n h =
    let x = (e -ℤ pos a) *ℤ pos second in
    let y = (e -ℤ pos b) *ℤ pos second in
    eq_of_parts _ _ (
      omega (
        arith,
        h,
        -ℤ_parts e (pos a),
        -ℤ_parts e (pos b),
        *ℤ-pos_parts (e -ℤ pos a) second,
        *ℤ-pos_parts (e -ℤ pos b) second,
        +ℤ_parts x (pos 0),
        +ℤ_parts y (pos 0),
        -ℤ_parts (x +ℤ pos 0) (pos (n * second)),
      ))

-- The report of a chunk gives its second pass a span of the chunk's length.
chunk_apart :
    (e_epoch : Time) (c h : ℕ) (bc : ChunkReport)
    → InRange e_epoch c h
    → IsOneOf e_epoch (pos c) h bc
    → unix bc.time_start (pos 0) ≡ unix bc.time_end (pos 0) -ℤ pos (c * second)
unfolding startsec endsec
chunk_apart e_epoch c h bc range (i, lt, s, f) =
    let start = s ∙ bound_lem e_epoch c h (i + 1) range (omega arith) in
    let end = f ∙ bound_lem e_epoch c h i range (omega arith) in
    rw (start, end) (unix-apart (unix_seconds e_epoch) (i * c) ((i + 1) * c) c (grind arith))

module _ {P B C W : Type 0} (parse_float : String → ℕ) (api : Points P B) (client : Client C W B)
    (general : GeneralConfig) (src dst : InfluxMonitor C) (sdb ddb : String) (srp drp : RetPol)
    (dbschema : InfluxSchDb)
    (ends : All
      (JobsEnd (copy_measurement parse_float api client general src dst sdb ddb srp drp))
      srp.measurements) where
  -- A pass over a number of chunks returns a report, whose bad chunks are among them.
  sync-Returns :
      (s_epoch e_epoch : Time) (u h : ℕ) (maxret : Duration) (w : W)
      → 0 < u
      → h_length s_epoch e_epoch (pos u) maxret ≡ pos h
      → (report : SyncReport) × ((one_pass parse_float api client general src dst sdb ddb srp drp
            s_epoch e_epoch
            (some dbschema)
            (pos u)
            maxret
            w).0
          ≡ ret (some report))
        × All (IsOneOf e_epoch (whole_seconds (pos u)) h) report.bad_chunks
  unfolding sync
  sync-Returns s_epoch e_epoch zero h maxret w some_length len = absurd (omega arith)
  sync-Returns s_epoch e_epoch (suc u) h maxret w some_length len =
      let (p, ran, bad) =
        run_chunks-Returns (copy_measurement parse_float api client general src dst sdb ddb srp drp)
          srp.measurements e_epoch (pos (suc u)) h w ends in
      let report : SyncReport = record {
        src_srv = src.cfg.name;
        dst_srv = dst.cfg.name;
        src_db = sdb;
        dst_db = ddb;
        src_rp = srp.name;
        dst_rp = drp.name;
        total_points = p.dbpoints;
        start = s_epoch;
        end = e_epoch;
        chunk_report = p.chunk_report;
        bad_chunks = p.bad_chunks;
      } in
      (report, ground (arith, len, ran), bad)

  -- Second passes that return leave bad chunks.
  Leaves-of :
      (chunk maxret : Duration) (bcs : List ChunkReport) (w : W)
      → All
          (λ bc.
            (v : W)
            → (r : SyncReport) × ((again parse_float api client general src dst sdb ddb srp drp
                  (some dbschema)
                  chunk
                  maxret
                  bc
                  v).0
                ≡ ret (some r)))
          bcs
      → (left : List ChunkReport) × (w' : W) × Leaves parse_float api client general src dst sdb ddb
          srp drp
          (some dbschema)
          chunk
          maxret
          bcs
          w
          left
          w'
  Leaves-of chunk maxret [] w h = ([], w, done)
  Leaves-of chunk maxret (bc ∷ bcs) w (h, hs) =
      let (r, once) = h w in
      let w1 =
        (again parse_float api client general src dst sdb ddb srp drp (some dbschema) chunk maxret
          bc w).1 in
      let (left, w', rest) = Leaves-of chunk maxret bcs w1 hs in
      (r.bad_chunks ++ left, w', more (ap (λ o. (o, w1)) once) rest)

  -- The second pass over a chunk of whole seconds returns.
  again-Returns :
      (e_epoch : Time) (c h m : ℕ) (bc : ChunkReport) (w : W)
      → InRange e_epoch c h
      → 0 < c
      → c * second < 2 ^ 61
      → m < 2 ^ 62
      → IsOneOf e_epoch (pos c) h bc
      → (r : SyncReport) × ((again parse_float api client general src dst sdb ddb srp drp
            (some dbschema)
            (pos (c * second))
            (pos m)
            bc
            w).0
          ≡ ret (some r))
  again-Returns e_epoch c h m bc w range hc small hm one =
      let u = c * second / 10 in
      let piece : quot (pos (c * second)) (pos 10) ≡ pos (c * second / 10) = unfold quot in refl in
      let start = unix bc.time_start (pos 0) in
      let end = unix bc.time_end (pos 0) in
      let len : h_length start end (pos (c * second / 10)) (pos m)
          ≡ pos (min (c * second / (c * second / 10)) (m / (c * second / 10)) + 1) =
        rw (chunk_apart e_epoch c h bc range one)
          (h_length_lem end (c * second) (c * second / 10) m (omega arith) hm) in
      let (r, ran, bad) =
        sync-Returns start end (c * second / 10)
          (min (c * second / (c * second / 10)) (m / (c * second / 10)) + 1) (pos m) w (omega arith)
          len in
      (r, rw piece ran)

  -- SyncDBRP returns a report for a span and a chunk within the bounds.
  pub sync_dbrp-Returns :
      (e_epoch : Time) (c span m : ℕ) (w : W)
      → IsSane e_epoch c span m
      → Returns
          (two_passes parse_float api client general src dst sdb ddb srp drp
            (e_epoch -ℤ pos span)
            e_epoch
            (some dbschema)
            (pos (c * second))
            (pos m)
            w).0
  sync_dbrp-Returns e_epoch c span m w s =
      let h = min (span / (c * second)) (m / (c * second)) + 1 in
      let (report, first, bad) =
        sync-Returns (e_epoch -ℤ pos span) e_epoch (c * second) h (pos m) w
          (omega (arith, s.chunk_positive))
          (h_length_lem e_epoch span (c * second) m (omega (arith, s.span_small)) s.maxret_small) in
      let w1 =
        (one_pass parse_float api client general src dst sdb ddb srp drp (e_epoch -ℤ pos span)
          e_epoch (some dbschema) (pos (c * second)) (pos m) w).1 in
      let later =
        λ (bc : ChunkReport) (one : IsOneOf e_epoch (whole_seconds (pos (c * second))) h bc)
            (v : W).
          let (i, lt, start, end) = subst (λ n. IsOneOf e_epoch n h bc) (whole_seconds_lem c) one in
          again-Returns e_epoch c (span / (c * second) + 1) m bc v (sane_range e_epoch c span m s)
            s.chunk_positive s.chunk_small s.maxret_small (i, omega (arith, lt), start, end) in
      let (left, w', leaves) =
        Leaves-of (pos (c * second)) (pos m) report.bad_chunks w1
          (All-mono later report.bad_chunks bad) in
      (
        _,
        ap (λ o. o.0)
            (sync_dbrp_recovers parse_float api client general src dst sdb ddb srp drp
              (e_epoch -ℤ pos span) e_epoch (some dbschema) (pos (c * second)) (pos m) w w1 w'
              report left (ap (λ o. (o, w1)) first) leaves),
      )
