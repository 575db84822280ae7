-- ===== src/Agent/Sync/Job.antt =====
-- One job of Sync: what it reads, writes and stores.
use mathlib.Core.Path.{subst}
use syncflux.Prelude.{
  pos_part, arith, ℕ, ◌<◌, ◌≡◌, refl, ap, sym, ◌∙◌, inl, inr, ℤ, pos, String, none, some, List, [],
  ◌∷◌, map, All, Option-cases,
}
use syncflux.Go.{Returns, Result-cases, Outcome-cases, Action, Result, ok, err, ret, panic}
use syncflux.Config.{GeneralConfig}
use syncflux.Influx.{Placed, Query, answered, Response, Points, PointsLaws, Client}
use syncflux.Agent.Schema.{MeasurementSch, RetPol}
use syncflux.Agent.Monitor.{InfluxMonitor}
use syncflux.Agent.Read.{read_query, read_db}
use syncflux.Agent.Read.Retries.{target, read_db_keeps, read_db_returns, read_db-Returns}
use syncflux.Agent.Write.Stored.{write_db_stores}
use syncflux.Agent.Read.Rows.{RowFits, all_rows, points_of}
use syncflux.Agent.Write.Split.{live}
use syncflux.Agent.Chunks.{JobEnd, read_error, written, write_error}
use syncflux.Agent.Sync.{getvalues, copy_measurement, write_read}

-- The databases as the program sees them: what is stored where, which a successful write adds to behind its connection
-- and in the database and retention policy of its batch, and which no query and no write, a failing one too, removes
-- from.
pub record Keeping {P B C W : Type 0} (api : Points P B) (client : Client C W B)
    (stored : W → Placed C P → Type 0) : Type 0 where
  pub query_keeps :
      (c : C) (q : Query) (w : W) (p : Placed C P) → stored w p → stored (client.query c q w).1 p
  pub write_keeps :
      (c : C) (b : B) (w : W) (p : Placed C P) → stored w p → stored (client.write c b w).1 p
  pub write_stores :
      (c : C) (b : B) (w : W)
      → (client.write c b w).0 ≡ none
      → All (λ p. stored (client.write c b w).1 (c, api.config b, p)) (live (api.slots b))

-- What must be given of the library and of the configuration for a copy from one database to another: the
-- batches are as documented, one for the target can be made, and the limit of points is positive.
pub record CanCopy {P B : Type 0} (api : Points P B) (general : GeneralConfig) (ddb drp : String)
    : Type 0 where
  pub laws : PointsLaws api
  pub batch : B
  pub fresh : api.new_batch (target ddb drp) ≡ ok batch
  pub max_points : ℕ
  pub limit : general.max_points_on_single_write ≡ pos max_points
  pub positive : 0 < max_points

-- The rows of every answer to the queries for a measurement fit its schema.
abbrev pub AnswersFit :
    {B C W : Type 0} → Client C W B → String → String → String × MeasurementSch → Type 0
AnswersFit {C = C} {W = W} client sdb srp (m, sch) =
    (c : C) (start end : ℤ) (v : W) (r : Response)
    → (client.query c (read_query sdb srp (getvalues m start end)) v).0 ≡ answered r
    → All (RowFits sch.fields) (all_rows r.results)

live-map-some : {P : Type 0} (ps : List P) → live (map (λ p. some p) ps) ≡ ps
live-map-some [] = refl
live-map-some (p ∷ ps) = ap (λ qs. p ∷ qs) (live-map-some ps)

module _ {P B C W : Type 0} (parse_float : String → ℕ) (api : Points P B) (client : Client C W B)
    (general : GeneralConfig) (stored : W → Placed C P → Type 0)
    (keeping : Keeping api client stored) (src dst : InfluxMonitor C) (sdb ddb : String)
    (srp drp : RetPol) (can : CanCopy api general ddb drp.name) where
  -- The points of a measurement between two seconds have been copied: the source has answered the query for
  -- them, and all the points of the answer's rows are stored behind the target's connection, in the target database and
  -- retention policy.
  abbrev pub IsCopied : String × MeasurementSch → ℤ → ℤ → W → Type 0
  IsCopied (m, sch) start end w =
      (c : C) × (d : C) × (v : W) × (r : Response) × (ps : List P) × (src.cli ≡ some c)
      × (dst.cli ≡ some d)
      × ((client.query c (read_query sdb srp.name (getvalues m start end)) v).0 ≡ answered r)
      × (points_of parse_float api sch.fields (all_rows r.results) ≡ ret ps)
      × All (λ p. stored w (d, target ddb drp.name, p)) ps

  abbrev pub job : String × MeasurementSch → ℤ → ℤ → Action W JobEnd
  job = copy_measurement parse_float api client general src dst sdb ddb srp drp

  -- The write of a job ends. It keeps what is stored, and if it counts as written the batch is stored.
  write_read_ends :
      (b : B) (np : ℕ) (w : W) (c : C)
      → api.config b ≡ target ddb drp.name
      → dst.cli ≡ some c
      → (x : JobEnd) × (w1 : W) × (write_read parse_float api client general dst.cli (ok (b, np)) w
          ≡ (ret x, w1))
        × ((p : Placed C P) → stored w p → stored w1 p)
        × ((n : ℕ)
            → x ≡ written n
            → All (λ p. stored w1 (c, target ddb drp.name, p)) (live (api.slots b)))
  unfolding write_read
  write_read_ends b np w c conf e =
      let (werr, w1, whole, stores, kept) =
        write_db_stores api client c (pos_part general.rw_max_retries) stored
          (λ b' v p. keeping.write_keeps c b' v p) (λ b' v. keeping.write_stores c b' v)
          can.max_points b can.batch w can.laws can.positive (ap api.new_batch conf ∙ can.fresh) in
      let job_end : JobEnd = elim werr [ none ↦ written np | some x ↦ write_error np ] in
      (
        job_end,
        w1,
        ground (arith, e, can.limit, whole),
        kept,
        λ n h.
            subst (λ k. All (λ p. stored w1 (c, k, p)) (live (api.slots b))) conf
              (stores (ground (arith, h))),
      )

  write_read_lem :
      (b : B) (np : ℕ) (w : W)
      → api.config b ≡ target ddb drp.name
      → ((p : Placed C P)
          → stored w p
          → stored (write_read parse_float api client general dst.cli (ok (b, np)) w).1 p)
        × ((n : ℕ) (w' : W)
            → write_read parse_float api client general dst.cli (ok (b, np)) w
              ≡ (ret (written n), w')
            → (d : C) × (dst.cli ≡ some d)
              × All (λ p. stored w' (d, target ddb drp.name, p)) (live (api.slots b)))
  unfolding write_read
  write_read_lem b np w conf = elim (Option-cases dst.cli) [
    | inl e ↦ (λ p h. ground (arith, e, h), λ n w' h. absurd (ground arith))
    | inr (c, e) ↦
        let (x, w1, ends, kept, stores) = write_read_ends b np w c conf e in
        (
          λ p h. subst (λ r. stored r.1 p) (sym ends) (kept p h),
          λ n w' h.
              let same : w1 ≡ w' = ap (λ r. r.1) (sym ends ∙ h) in
              (
                c,
                e,
                subst (λ v. All (λ p. stored v (c, target ddb drp.name, p)) (live (api.slots b)))
                    same (stores n (ground (arith, ends, h))),
              ),
        )
  ]

  -- The read of a job.
  abbrev reads : C → String × MeasurementSch → ℤ → ℤ → Action W (Result (B × ℕ))
  reads c (m, sch) start end =
      read_db parse_float api client (pos_part general.rw_max_retries) c sdb srp.name ddb drp.name
        (getvalues m start end) sch.fields

  -- A job without a client, one whose read panics or fails, and one that goes on to write.
  job_no_client :
      (m : String × MeasurementSch) (start end : ℤ) (w : W)
      → src.cli ≡ none
      → job m start end w ≡ (panic, w)
  unfolding copy_measurement
  job_no_client (m, sch) start end w e = ground arith

  job_panics :
      (m : String × MeasurementSch) (start end : ℤ) (w : W) (c : C)
      → src.cli ≡ some c
      → (reads c m start end w).0 ≡ panic
      → job m start end w ≡ (panic, (reads c m start end w).1)
  unfolding copy_measurement
  job_panics (m, sch) start end w c e x = ground arith

  job_writes :
      (m : String × MeasurementSch) (start end : ℤ) (w : W) (c : C) (r : Result (B × ℕ))
      → src.cli ≡ some c
      → (reads c m start end w).0 ≡ ret r
      → job m start end w
        ≡ write_read parse_float api client general dst.cli r (reads c m start end w).1
  unfolding copy_measurement
  job_writes (m, sch) start end w c r e x = ground arith

  reads_keep :
      (m : String × MeasurementSch) (start end : ℤ) (w : W) (c : C) (p : Placed C P)
      → stored w p
      → stored (reads c m start end w).1 p
  reads_keep (m, sch) start end w c p h =
      read_db_keeps parse_float api client (pos_part general.rw_max_retries) c sdb srp.name ddb
        drp.name (getvalues m start end) sch.fields w can.batch can.fresh (λ v. stored v p)
        (λ q v. keeping.query_keeps c q v p) h

  returned :
      (m : String × MeasurementSch) (start end : ℤ) (w : W) (c : C) (b : B) (np : ℕ)
      → (reads c m start end w).0 ≡ ret (ok (b, np))
      → (v : W) × (r : Response) × (ps : List P) × ((client.query c
            (read_query sdb srp.name (getvalues m.0 start end))
            v).0
          ≡ answered r)
        × (points_of parse_float api m.1.fields (all_rows r.results) ≡ ret ps)
        × (api.slots b ≡ map (λ p. some p) ps)
        × (api.config b ≡ target ddb drp.name)
  returned (m, sch) start end w c b np e =
      read_db_returns parse_float api client (pos_part general.rw_max_retries) c sdb srp.name ddb
        drp.name (getvalues m start end) sch.fields w can.batch can.fresh can.laws b np _
        (ap (λ o. (o, (reads c (m, sch) start end w).1)) e)

  pub job_keeps :
      (m : String × MeasurementSch) (start end : ℤ) (w : W) (p : Placed C P)
      → stored w p
      → stored (job m start end w).1 p
  unfolding write_read
  job_keeps m start end w p h = elim (Option-cases src.cli) [
    | inl e ↦ rw (job_no_client m start end w e) h
    | inr (c, e) ↦
        let h1 = reads_keep m start end w c p h in
        elim (Outcome-cases (reads c m start end w).0) [
          | inl x ↦ rw (job_panics m start end w c e x) h1
          | inr (err x, y) ↦ rw (job_writes m start end w c (err x) e y) h1
          | inr (ok (b, np), y) ↦
              let conf = (returned m start end w c b np y).6 in
              rw (job_writes m start end w c (ok (b, np)) e y) ((write_read_lem b np _ conf).0 p h1)
        ]
  ]

  pub job_copies :
      (m : String × MeasurementSch) (start end : ℤ) (w w' : W) (n : ℕ)
      → job m start end w ≡ (ret (written n), w')
      → IsCopied m start end w'
  unfolding write_read
  job_copies m start end w w' n h = elim (Option-cases src.cli) [
    | inl e ↦ absurd (cc (job_no_client m start end w e, h))
    | inr (c, e) ↦ elim (Outcome-cases (reads c m start end w).0) [
      | inl x ↦ absurd (cc (job_panics m start end w c e x, h))
      | inr (err x, y) ↦ absurd (ground (arith, job_writes m start end w c (err x) e y, h))
      | inr (ok (b, np), y) ↦
          let (v, r, ps, given, made, slots, conf) = returned m start end w c b np y in
          let whole = sym (job_writes m start end w c (ok (b, np)) e y) ∙ h in
          let (d, f, all) = (write_read_lem b np _ conf).1 n w' whole in
          let same : live (api.slots b) ≡ ps = ap live slots ∙ live-map-some ps in
          (
            c,
            d,
            v,
            r,
            ps,
            e,
            f,
            given,
            made,
            subst (All (λ p. stored w' (d, target ddb drp.name, p))) same all,
          )
    ]
  ]

  -- Between two databases that are connected, a job ends.
  pub job-Returns :
      (m : String × MeasurementSch) (start end : ℤ) (w : W) (c d : C)
      → src.cli ≡ some c
      → dst.cli ≡ some d
      → AnswersFit client sdb srp.name m
      → Returns (job m start end w).0
  unfolding write_read
  job-Returns (m, sch) start end w c d e f fits =
      let (r, x) =
        read_db-Returns parse_float api client (pos_part general.rw_max_retries) c sdb srp.name ddb
          drp.name (getvalues m start end) sch.fields w can.batch can.fresh can.laws
          (fits c start end) in
      let w1 = (reads c (m, sch) start end w).1 in
      let step = job_writes (m, sch) start end w c r e x in
      elim (Result-cases r) [
        | inl (y, g) ↦ (read_error, ground (arith, step, g))
        | inr ((b, np), g) ↦
            let conf = (returned (m, sch) start end w c b np (x ∙ ap ret g)).6 in
            let (z, w2, ends, kept, stores) = write_read_ends b np w1 d conf f in
            (z, ground (arith, step, g, ends))
      ]
