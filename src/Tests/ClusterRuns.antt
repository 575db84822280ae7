-- ===== src/Tests/ClusterRuns.antt =====
-- Runs of the cluster: an outage of the slave, one that the supervisor starts in, and a monitor's ticks.
use syncflux.Prelude.{
  ◌+◌, pos, ◌-ℤ◌, ◌≡◌, refl, inl, Bool, true, false, List, [], ◌∷◌, ◌++◌, length,
}
use syncflux.Go.Time.{Time}
use syncflux.Agent.Monitor.{monitor}
use syncflux.Agent.Monitor.Status.{pings, noted, monitor-noted}
use syncflux.Agent.Cluster.{ok_state, Observation, start_supervisor}
use syncflux.Agent.Cluster.States.{
  Round, run, IsInStep, recoveries, run-recoveries, run_outage, run_late_start,
}
use syncflux.Tests.Toy.{world, client, cluster, monitor_of}

abbrev seen : Bool → Time → Observation
seen up t = record { up = up; last_ok = t; duration = pos 0 }

abbrev round : Bool → Time → Round
round up t = record { master = seen true t; slave = seen up t; elapsed = pos 1 }

abbrev first : Round
first = round false (pos 100)

abbrev waiting : List Round
waiting = round false (pos 100) ∷ round false (pos 100) ∷ []

abbrev last : Round
last = round true (pos 900)

run-recoveries_example :
    let (hac', recovered) = run (first ∷ last ∷ []) cluster in
    IsInStep hac'
    × (length recovered ≡ recoveries true (first ∷ last ∷ []))
    × (hac'.cluster_num_recovers ≡ 0 + recoveries true (first ∷ last ∷ []))
run-recoveries_example = run-recoveries (first ∷ last ∷ []) cluster (inl (refl, refl))

run_outage_example :
    let (hac', recovered) = run (first ∷ waiting ++ last ∷ []) cluster in
    IsInStep hac'
    × (hac'.slave_state_ok ≡ true)
    × (hac'.cluster_num_recovers ≡ 0 + 1)
    × (recovered ≡ (pos 100 -ℤ pos 20_000_000_000, pos 900) ∷ [])
run_outage_example = run_outage cluster first waiting last refl refl (refl, (refl, tt)) refl

run_late_start_example :
    let (hac', recovered) =
      run
        (waiting ++ last ∷ [])
        (start_supervisor (seen true (pos 0)) (seen false (pos 0)) cluster) in
    (recovered ≡ []) × (hac'.cluster_state ≡ ok_state)
run_late_start_example =
    run_late_start (seen true (pos 0)) (seen false (pos 0)) cluster waiting last refl refl
      (refl, (refl, tt))

monitor-noted_example :
    (monitor client (pos 10 ∷ pos 20 ∷ []) (monitor_of "m" false) world).0
    ≡ noted
        (pings client (pos 10 ∷ pos 20 ∷ []) (monitor_of "m" false) world)
        (monitor_of "m" false)
monitor-noted_example = monitor-noted client (pos 10 ∷ pos 20 ∷ []) (monitor_of "m" false) world
