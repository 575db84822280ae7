-- ===== src/Agent/Replicate/Total.antt =====
-- A replication of many databases as a whole.
use syncflux.Prelude.{ℕ, ◌*◌, ◌≡◌, refl, ap, pos, ◌-ℤ◌, String, none, some, List, All, All-forall}
use syncflux.Go.{ret}
use syncflux.Go.Time.{Time, second}
use syncflux.Config.{GeneralConfig}
use syncflux.Influx.{Placed, Points, Client}
use syncflux.Agent.Schema.{RetPol, InfluxSchDb}
use syncflux.Agent.Monitor.{InfluxMonitor}
use syncflux.Agent.Sync.Job.{Keeping, CanCopy}
use syncflux.Agent.Sync.Span.{IsSane}
use syncflux.Agent.Replicate.{replicate_spans, replicate_data}
use syncflux.Agent.Replicate.Copies.{AllReplicated}
use syncflux.Agent.Replicate.Whole.{replicate_spans_lem}
use syncflux.Agent.Replicate.Ends.{SpanIsSane, SchemaFits, replicate_spans-Returns}

-- The loop over the databases returns, and has replicated them.
pub replicate_spans_total :
    {P B C W : Type 0} (parse_float : String → ℕ) (api : Points P B) (client : Client C W B)
    (general : GeneralConfig) (stored : W → Placed C P → Type 0)
    (keeping : Keeping api client stored) (can : (ddb drp : String) → CanCopy api general ddb drp)
    (clock : W → Time) (c m : ℕ) (master slave : InfluxMonitor C) (cm cs : C)
    (up : master.cli ≡ some cm) (up' : slave.cli ≡ some cs) (span : RetPol → Time → Time × Time)
    (schema : List InfluxSchDb) (w : W)
    → SchemaFits client schema
    → All
        (λ (db : InfluxSchDb). All (λ rp. (v : W) → SpanIsSane c m (span rp (clock v))) db.rps)
        schema
    → (w' : W) × (replicate_spans parse_float api client general clock
          (pos (c * second))
          (pos m)
          span
          master
          slave
          schema
          w
        ≡ (ret none, w'))
      × ((p : Placed C P) → stored w p → stored w' p)
      × AllReplicated parse_float api client general stored keeping can
          (pos (c * second))
          (pos m)
          master
          slave
          clock
          span
          w'
          schema
          w
          w'
replicate_spans_total parse_float api client general stored keeping can clock c m master slave cm cs
      up up' span schema w fits spans =
    let r =
      replicate_spans parse_float api client general clock (pos (c * second)) (pos m) span master
        slave schema w in
    let ends : r ≡ (ret none, r.1) =
      ap (λ o. (o, r.1))
        (replicate_spans-Returns parse_float api client general stored keeping can clock c m master
          slave cm cs up up' span schema w fits spans) in
    let (kept, copied) =
      replicate_spans_lem parse_float api client general stored keeping can clock (pos (c * second))
        (pos m) master slave span schema w (r.1) none ends in
    (r.1, ends, kept, copied)

pub replicate_data_lem :
    {P B C W : Type 0} (parse_float : String → ℕ) (api : Points P B) (client : Client C W B)
    (general : GeneralConfig) (stored : W → Placed C P → Type 0)
    (keeping : Keeping api client stored) (can : (ddb drp : String) → CanCopy api general ddb drp)
    (clock : W → Time) (c m : ℕ) (master slave : InfluxMonitor C) (cm cs : C)
    (schema : List InfluxSchDb) (e_epoch : Time) (span : ℕ) (w : W)
    → master.cli ≡ some cm
    → slave.cli ≡ some cs
    → IsSane e_epoch c span m
    → SchemaFits client schema
    → (w' : W) × (replicate_data parse_float api client general clock
          (pos (c * second))
          (pos m)
          master
          slave
          schema
          (e_epoch -ℤ pos span)
          e_epoch
          w
        ≡ (ret none, w'))
      × ((p : Placed C P) → stored w p → stored w' p)
      × AllReplicated parse_float api client general stored keeping can
          (pos (c * second))
          (pos m)
          master
          slave
          clock
          (λ rp now. (e_epoch -ℤ pos span, e_epoch))
          w'
          schema
          w
          w'
unfolding replicate_data
replicate_data_lem parse_float api client general stored keeping can clock c m master slave cm cs
      schema e_epoch span w up up' sane fits =
    let start = e_epoch -ℤ pos span in
    let spans = All-forall (λ db. All-forall (λ rp v. (span, refl, sane)) db.rps) schema in
    let (w', ends, kept, copied) =
      replicate_spans_total parse_float api client general stored keeping can clock c m master slave
        cm cs up up' (λ rp now. (start, e_epoch)) schema w fits spans in
    (w', ends, kept, copied)
