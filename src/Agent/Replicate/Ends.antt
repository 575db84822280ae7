-- ===== src/Agent/Replicate/Ends.antt =====
-- The loops of a replication of many databases, where its jobs end.
use syncflux.Prelude.{
  arith, ℕ, ◌*◌, ◌≡◌, refl, pos, ◌-ℤ◌, String, none, some, List, [], ◌∷◌, All, All-mono,
}
use syncflux.Go.{Returns, ret}
use syncflux.Go.Time.{Time, second}
use syncflux.Config.{GeneralConfig}
use syncflux.Influx.{Placed, Points, Client}
use syncflux.Agent.Schema.{RetPol, InfluxSchDb}
use syncflux.Agent.Monitor.{InfluxMonitor}
use syncflux.Agent.Sync.Job.{Keeping, CanCopy, AnswersFit, job-Returns}
use syncflux.Agent.Sync.Span.{IsSane}
use syncflux.Agent.Sync.Total.{sync_dbrp-Returns}
use syncflux.Agent.Replicate.{renamed, replicate_policy, replicate_each, replicate_spans}

-- A span that ends `span` nanoseconds after its start, within the bounds.
abbrev pub SpanIsSane : ℕ → ℕ → Time × Time → Type 0
SpanIsSane c m (start, end) = (span : ℕ) × (start ≡ end -ℤ pos span) × IsSane end c span m

-- The answers of the master fit the schema.
abbrev pub SchemaFits : {B C W : Type 0} → Client C W B → List InfluxSchDb → Type 0
SchemaFits client schema =
    All
      (λ (db : InfluxSchDb).
        All (λ (rp : RetPol). All (AnswersFit client db.name rp.name) rp.measurements) db.rps)
      schema

module _ {P B C W : Type 0} (parse_float : String → ℕ) (api : Points P B) (client : Client C W B)
    (general : GeneralConfig) (stored : W → Placed C P → Type 0)
    (keeping : Keeping api client stored) (can : (ddb drp : String) → CanCopy api general ddb drp)
    (clock : W → Time) (c m : ℕ) (master slave : InfluxMonitor C) (cm cs : C)
    (master_up : master.cli ≡ some cm) (slave_up : slave.cli ≡ some cs)
    (span : RetPol → Time → Time × Time) where
  -- The spans of a policy.
  abbrev SpansAreSane : RetPol → Type 0
  SpansAreSane rp = (v : W) → SpanIsSane c m (span rp (clock v))

  replicate_policy-Returns :
      (db : InfluxSchDb) (rp : RetPol) (w : W)
      → All (AnswersFit client db.name rp.name) rp.measurements
      → (now : Time) → SpanIsSane c m (span rp now)
      → Returns
          (replicate_policy parse_float api client general clock
            (pos (c * second))
            (pos m)
            master
            slave
            db
            rp
            (span rp now).0
            (span rp now).1
            w).0
  unfolding replicate_policy
  replicate_policy-Returns db rp w fits now (len, start, sane) =
      let drp = renamed db rp in
      let ends =
        All-mono
          (λ x fit s e v.
            job-Returns parse_float api client general stored keeping master slave db.name
              db.new_name rp drp (can db.new_name drp.name) x s e v cm cs master_up slave_up fit)
          rp.measurements fits in
      rw start (
        sync_dbrp-Returns parse_float api client general master slave db.name db.new_name rp drp db
          ends (span rp now).1 c len m w sane)

  replicate_each-Returns :
      (db : InfluxSchDb) (rps : List RetPol) (w : W)
      → All (λ rp. All (AnswersFit client db.name rp.name) rp.measurements) rps
      → All SpansAreSane rps
      → (replicate_each parse_float api client general clock
          (pos (c * second))
          (pos m)
          span
          master
          slave
          db
          rps
          w).0
        ≡ ret none
  unfolding replicate_each
  replicate_each-Returns db [] w fits sane = refl
  replicate_each-Returns db (rp ∷ rps) w (fit, fits) (s, sane) =
      let (report, e) = replicate_policy-Returns db rp w fit (clock w) (s w) in
      let rest =
        replicate_each-Returns db rps
          (replicate_policy parse_float api client general clock (pos (c * second)) (pos m) master
            slave db rp (span rp (clock w)).0 (span rp (clock w)).1 w).1
          fits sane in
      ground (arith, e, rest)

  pub replicate_spans-Returns :
      (schema : List InfluxSchDb) (w : W)
      → SchemaFits client schema
      → All (λ db. All SpansAreSane db.rps) schema
      → (replicate_spans parse_float api client general clock
          (pos (c * second))
          (pos m)
          span
          master
          slave
          schema
          w).0
        ≡ ret none
  unfolding replicate_spans
  replicate_spans-Returns [] w fits sane = refl
  replicate_spans-Returns (db ∷ schema) w (fit, fits) (s, sane) =
      let e = replicate_each-Returns db db.rps w fit s in
      let rest =
        replicate_spans-Returns schema
          (replicate_each parse_float api client general clock (pos (c * second)) (pos m) span
            master slave db db.rps w).1
          fits sane in
      ground (arith, e, rest)
