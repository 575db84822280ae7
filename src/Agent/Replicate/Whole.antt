-- ===== src/Agent/Replicate/Whole.antt =====
-- What a replication of many databases copies.
use mathlib.Core.Path.{subst}
use syncflux.Prelude.{arith, ℕ, ◌≡◌, ap, inl, inr, String, Option, some, List, [], ◌∷◌}
use syncflux.Go.{Error, Outcome-cases, ret}
use syncflux.Go.Time.{Time, Duration}
use syncflux.Config.{GeneralConfig}
use syncflux.Influx.{Placed, Points, Client}
use syncflux.Agent.Schema.{RetPol, InfluxSchDb}
use syncflux.Agent.Monitor.{InfluxMonitor}
use syncflux.Agent.Sync.Job.{Keeping, CanCopy}
use syncflux.Agent.Sync.Recovery.{two_passes}
use syncflux.Agent.Replicate.{renamed, replicate_policy, replicate_each, replicate_spans}
use syncflux.Agent.Replicate.Copies.{
  EachReplicated, AllReplicated, IsTransferred-mono, policy_copies,
}

module _ {P B C W : Type 0} (parse_float : String → ℕ) (api : Points P B) (client : Client C W B)
    (general : GeneralConfig) (stored : W → Placed C P → Type 0)
    (keeping : Keeping api client stored) (can : (ddb drp : String) → CanCopy api general ddb drp)
    (clock : W → Time) (chunk maxret : Duration) (master slave : InfluxMonitor C)
    (span : RetPol → Time → Time × Time) where
  replicate_each_copies :
      (db : InfluxSchDb) (rps : List RetPol) (w w' : W) (e : Option Error)
      → replicate_each parse_float api client general clock chunk maxret span master slave db rps w
        ≡ (ret e, w')
      → ((p : Placed C P) → stored w p → stored w' p)
        × ((u : W)
            → ((p : Placed C P) → stored w' p → stored u p)
            → EachReplicated parse_float api client general stored keeping can chunk maxret master
                slave clock span u db rps w w')
  unfolding replicate_each replicate_policy
  replicate_each_copies db [] w w' e ran =
      let same : w ≡ w' = ap (λ r. r.1) ran in
      (λ p h. subst (λ v. stored v p) same h, λ u later. same)
  replicate_each_copies db (rp ∷ rps) w w' e ran =
      let (start, end) = span rp (clock w) in
      let one =
        two_passes parse_float api client general master slave db.name db.new_name rp
          (renamed db rp) start end (some db) chunk maxret w in
      elim (Outcome-cases (one.0)) [
        | inl x ↦ absurd (ground (arith, ran, x))
        | inr (report, x) ↦
            let whole : one ≡ (ret report, one.1) = ap (λ o. (o, one.1)) x in
            let (kept, done) =
              policy_copies parse_float api client general stored keeping can chunk maxret master
                slave db rp start end w (one.1) report whole in
            let rest : replicate_each parse_float api client general clock chunk maxret span master
                  slave db rps (one.1)
                ≡ (ret e, w') =
              ground (arith, ran, x) in
            let (later, others) = replicate_each_copies db rps (one.1) w' e rest in
            (
              λ p h. later p (kept p h),
              λ u after. (
                one.1,
                report,
                whole,
                IsTransferred-mono parse_float api client general stored keeping can chunk maxret
                    master slave db rp start end report.bad_chunks (one.1) u
                    (λ p h. after p (later p h)) done,
                others u after,
              ),
            )
      ]

  replicate_spans_copies :
      (schema : List InfluxSchDb) (w w' : W) (e : Option Error)
      → replicate_spans parse_float api client general clock chunk maxret span master slave schema w
        ≡ (ret e, w')
      → ((p : Placed C P) → stored w p → stored w' p)
        × ((u : W)
            → ((p : Placed C P) → stored w' p → stored u p)
            → AllReplicated parse_float api client general stored keeping can chunk maxret master
                slave clock span u schema w w')
  unfolding replicate_spans
  replicate_spans_copies [] w w' e ran =
      let same : w ≡ w' = ap (λ r. r.1) ran in
      (λ p h. subst (λ v. stored v p) same h, λ u later. same)
  replicate_spans_copies (db ∷ schema) w w' e ran =
      let one =
        replicate_each parse_float api client general clock chunk maxret span master slave db db.rps
          w in
      elim (Outcome-cases (one.0)) [
        | inl x ↦ absurd (ground (arith, ran, x))
        | inr (r, x) ↦
            let whole : one ≡ (ret r, one.1) = ap (λ o. (o, one.1)) x in
            let (kept, done) = replicate_each_copies db db.rps w (one.1) r whole in
            let rest : replicate_spans parse_float api client general clock chunk maxret span master
                  slave schema (one.1)
                ≡ (ret e, w') =
              ground (arith, ran, x) in
            let (later, others) = replicate_spans_copies schema (one.1) w' e rest in
            (
              λ p h. later p (kept p h),
              λ u after. (one.1, done u (λ p h. after p (later p h)), others u after),
            )
      ]

  -- Where the loop over the databases ends, each of them has been replicated, and what was stored before is still
  -- stored.
  pub replicate_spans_lem :
      (schema : List InfluxSchDb) (w w' : W) (e : Option Error)
      → replicate_spans parse_float api client general clock chunk maxret span master slave schema w
        ≡ (ret e, w')
      → ((p : Placed C P) → stored w p → stored w' p)
        × AllReplicated parse_float api client general stored keeping can chunk maxret master slave
            clock span w' schema w w'
  replicate_spans_lem schema w w' e ran =
      let (kept, copied) = replicate_spans_copies schema w w' e ran in (kept, copied w' (λ p h. h))
