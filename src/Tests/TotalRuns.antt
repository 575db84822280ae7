-- ===== src/Tests/TotalRuns.antt =====
-- Whole replications between two servers, where the master refuses three queries and then answers.
use syncflux.Prelude.{
  ◌≡◌, refl, arith, pos, ◌-ℤ◌, ◌*◌, Bool-cases, inl, inr, ltb, length, true, some, [], ◌∷◌, All,
}
use syncflux.Go.{ret}
use syncflux.Go.Time.{second, unix_seconds}
use syncflux.Influx.{Response, Answer, answered, failed}
use syncflux.Agent.Schema.{lookup}
use syncflux.Agent.Sync.Job.{AnswersFit}
use syncflux.Agent.Chunks.{SyncReport}
use syncflux.Agent.Sync.Recovery.{two_passes}
use syncflux.Agent.Sync.Whole.{AllAccounted, sync_dbrp_lem}
use syncflux.Agent.Sync.Span.{IsSane}
use syncflux.Agent.Read.Rows.{RowFits, all_rows}
use syncflux.Tests.Toy.{
  policy, World, points_api, world, parse_float, general, cpu, entry, monitor_of, one_point, Stored,
}
use syncflux.Tests.CopiedRuns.{flaky, toy_keeps, can}

abbrev pub response_of : Answer → Response
response_of (answered r) = r
response_of (failed r e) = one_point

pub one_point-RowFits :
    All (RowFits (("v", record { name = "v"; type = "integer" }) ∷ [])) (all_rows one_point.results)
unfolding lookup
one_point-RowFits = ((("v", record { name = "v"; type = "integer" }, refl, refl), tt), tt)

flaky-AnswersFit : AnswersFit flaky "db1" "autogen" cpu
flaky-AnswersFit c start end v r e = elim (Bool-cases (ltb (length v.sent) 3)) [
  | inl early ↦ absurd (ground (arith, e, early))
  | inr late ↦ let same : one_point ≡ r = ground (arith, e, late) in rw (← same) one_point-RowFits
]

sane : IsSane (pos 10_000_000_000) 10 5_000_000_000 1_000_000_000
unfolding unix_seconds
sane = record {
  chunk_positive = omega arith;
  chunk_small = omega arith;
  span_small = omega arith;
  maxret_small = omega arith;
  end_above = omega arith;
  end_below = omega arith;
}

sync_dbrp_lem_example :
    (final : SyncReport) × (w' : World) × (two_passes parse_float points_api flaky general
        (monitor_of "m" true)
        (monitor_of "s" true)
        "db1"
        "db1"
        policy
        policy
        (pos 10_000_000_000 -ℤ pos 5_000_000_000)
        (pos 10_000_000_000)
        (some entry)
        (pos (10 * second))
        (pos 1_000_000_000)
        world
      ≡ (ret final, w'))
    × AllAccounted parse_float points_api flaky general Stored toy_keeps
        (monitor_of "m" true)
        (monitor_of "s" true)
        "db1"
        "db1"
        policy
        policy
        (can "db1" "autogen")
        (pos 10_000_000_000 -ℤ pos 5_000_000_000)
        (pos 10_000_000_000)
        entry
        10
        1_000_000_000
        final.bad_chunks
        w'
sync_dbrp_lem_example =
    sync_dbrp_lem parse_float points_api flaky general Stored toy_keeps (monitor_of "m" true)
      (monitor_of "s" true) "db1" "db1" policy policy (can "db1" "autogen") entry
      (pos 10_000_000_000) 10 5_000_000_000 1_000_000_000 true true world refl refl sane
      (flaky-AnswersFit, tt)
