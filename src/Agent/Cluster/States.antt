-- ===== src/Agent/Cluster/States.antt =====
-- The life of the cluster's state over the rounds of the supervisor: when a recovery runs, and over which
-- time.
use syncflux.Prelude.{
  ℕ, ◌+◌, ◌≡◌, ◌≢◌, ap, ◌∙◌, ◌⊎◌, ◌-ℤ◌, Bool, true, false, not, ◌&&◌, List, [], ◌∷◌, ◌++◌, arith,
  if◌then◌else◌, length, length-append, All,
}
use syncflux.Go.Time.{Time, Duration}
use syncflux.Agent.Cluster.{
  ok_state, check_slave_down, recovering, HaCluster, Observation, Verdict, settled, recover,
  begin_check, end_recovery, start_supervisor, switch_state,
}

-- One round of the supervisor: what the two monitors say, and how long a recovery takes, if one runs.
pub record Round : Type 0 where
  pub master : Observation
  pub slave : Observation
  pub elapsed : Duration

-- The windows that a verdict has recovered.
abbrev pub windows : Verdict → List (Time × Time)
windows settled = []
windows (recover start end) = (start, end) ∷ []

-- One recovery where the slave was down and is up.
abbrev pub returns : Bool → Bool → ℕ
returns was_up is_up = if not was_up && is_up then 1 else 0

-- The reference: one recovery at each change of the slave from down to up.
abbrev pub recoveries : Bool → List Round → ℕ
recoveries was_up [] = 0
recoveries was_up (r ∷ rs) = returns was_up r.slave.up + recoveries r.slave.up rs

module _ {C : Type 0} where
  -- A round, with a recovery that leaves the cluster's state alone but for its last critical section.
  unfoldable pub finish : Duration → HaCluster C × Verdict → HaCluster C
  finish elapsed (hac, settled) = hac
  finish elapsed (hac, recover start end) = end_recovery elapsed hac

  unfoldable pub check : Round → HaCluster C → HaCluster C
  unfolding finish begin_check end_recovery
  check r hac = finish r.elapsed (begin_check r.master r.slave hac)

  -- Rounds one after the other: the cluster at the end, and the windows recovered on the way.
  unfoldable pub run : List Round → HaCluster C → HaCluster C × List (Time × Time)
  run [] hac = (hac, [])
  run (r ∷ rs) hac =
      let (hac', later) = run rs (check r hac) in
      (hac', windows (begin_check r.master r.slave hac).1 ++ later)

  -- Between two rounds the cluster is not recovering; while it is in CHECK_SLAVE_DOWN the slave is noted
  -- as down.
  pub record IsAtRest (hac : HaCluster C) : Type 0 where
    pub not_recovering : hac.cluster_state ≢ recovering
    pub down_noted : hac.cluster_state ≡ check_slave_down → hac.slave_state_ok ≡ false

  -- A round, whatever the monitors say, ends at rest if it starts at rest.
  pub check-IsAtRest : (r : Round) (hac : HaCluster C) → IsAtRest hac → IsAtRest (check r hac)
  unfolding check switch_state
  check-IsAtRest r hac h = record { not_recovering = ground arith; down_noted = ground arith }

  -- A cluster in which the state and the noted slave agree.
  abbrev pub IsInStep : HaCluster C → Type 0
  IsInStep hac =
      ((hac.cluster_state ≡ ok_state) × (hac.slave_state_ok ≡ true))
      ⊎ ((hac.cluster_state ≡ check_slave_down) × (hac.slave_state_ok ≡ false))

  -- A cluster that waits for its slave, with the start of the time to recover.
  abbrev Waits : Time → HaCluster C → Type 0
  Waits start hac =
      (hac.cluster_state ≡ check_slave_down)
      × (hac.slave_state_ok ≡ false)
      × (hac.slave_last_ok -ℤ hac.check_interval ≡ start)

  -- The slave is seen down for the first time.
  starts_waiting :
      (r : Round) (hac : HaCluster C)
      → hac.slave_state_ok ≡ true
      → r.slave.up ≡ false
      → Waits (r.slave.last_ok -ℤ hac.check_interval) (check r hac)
        × (windows (begin_check r.master r.slave hac).1 ≡ [])
        × ((check r hac).cluster_num_recovers ≡ hac.cluster_num_recovers)
  unfolding check switch_state
  starts_waiting r hac was_up is_down = ground arith

  -- The slave is still down.
  keeps_waiting :
      (r : Round) (hac : HaCluster C) (start : Time)
      → Waits start hac
      → r.slave.up ≡ false
      → Waits start (check r hac)
        × (windows (begin_check r.master r.slave hac).1 ≡ [])
        × ((check r hac).cluster_num_recovers ≡ hac.cluster_num_recovers)
  unfolding check switch_state
  keeps_waiting r hac start h is_down = ground arith

  -- The slave is back.
  stops_waiting :
      (r : Round) (hac : HaCluster C) (start : Time)
      → Waits start hac
      → r.slave.up ≡ true
      → (IsInStep (check r hac) × ((check r hac).slave_state_ok ≡ true))
        × (windows (begin_check r.master r.slave hac).1 ≡ (start, r.slave.last_ok) ∷ [])
        × ((check r hac).cluster_num_recovers ≡ hac.cluster_num_recovers + 1)
  unfolding check switch_state
  stops_waiting r hac start h is_up = ground arith

  Waits-run :
      (rs : List Round) (r : Round) (hac : HaCluster C) (start : Time)
      → Waits start hac
      → All (λ q. q.slave.up ≡ false) rs
      → r.slave.up ≡ true
      → let (hac', recovered) = run (rs ++ r ∷ []) hac in
        IsInStep hac'
        × (hac'.slave_state_ok ≡ true)
        × (hac'.cluster_num_recovers ≡ hac.cluster_num_recovers + 1)
        × (recovered ≡ (start, r.slave.last_ok) ∷ [])
  unfolding run
  Waits-run [] r hac start h downs is_up =
      let back = stops_waiting r hac start h is_up in
      (back.0.0, back.0.1, back.2, ap (λ ws. ws ++ []) back.1)
  Waits-run (q ∷ rs) r hac start h (is_down, downs) is_up =
      let kept = keeps_waiting q hac start h is_down in
      let later = Waits-run rs r (check q hac) start kept.0 downs is_up in
      (
        later.0,
        later.1,
        later.2 ∙ ap (λ n. n + 1) kept.2,
        ap (λ ws. ws ++ (run (rs ++ r ∷ []) (check q hac)).1) kept.1 ∙ later.3,
      )

  unnoticed_step :
      (r : Round) (hac : HaCluster C)
      → hac.cluster_state ≡ ok_state
      → hac.slave_state_ok ≡ false
      → ((check r hac).cluster_state ≡ ok_state)
        × ((check r hac).slave_state_ok ≡ r.slave.up)
        × (windows (begin_check r.master r.slave hac).1 ≡ [])
  unfolding check switch_state
  unnoticed_step r hac is_ok was_down = ground arith

  unnoticed :
      (rs : List Round) (last : Round) (hac : HaCluster C)
      → hac.cluster_state ≡ ok_state
      → hac.slave_state_ok ≡ false
      → All (λ q. q.slave.up ≡ false) rs
      → let (hac', recovered) = run (rs ++ last ∷ []) hac in
        (recovered ≡ []) × (hac'.cluster_state ≡ ok_state)
  unfolding run
  unnoticed [] last hac is_ok was_down downs =
      let step = unnoticed_step last hac is_ok was_down in (ap (λ ws. ws ++ []) step.2, step.0)
  unnoticed (q ∷ rs) last hac is_ok was_down (is_down, downs) =
      let step = unnoticed_step q hac is_ok was_down in
      let later = unnoticed rs last (check q hac) step.0 (step.1 ∙ is_down) downs in
      (ap (λ ws. ws ++ (run (rs ++ last ∷ []) (check q hac)).1) step.2 ∙ later.0, later.1)

  -- A step of the run, as the reference counts it.
  counts_step :
      (r : Round) (hac : HaCluster C)
      → IsInStep hac
      → let n = returns hac.slave_state_ok r.slave.up in
        IsInStep (check r hac)
        × ((check r hac).slave_state_ok ≡ r.slave.up)
        × ((check r hac).cluster_num_recovers ≡ hac.cluster_num_recovers + n)
        × (length (windows (begin_check r.master r.slave hac).1) ≡ n)
  unfolding check switch_state
  counts_step r hac h = ground arith

  -- From a cluster in step with its slave, the supervisor's rounds run one recovery at each change of the
  -- slave from down to up, no more and no fewer; each is counted in ClusterNumRecovers; and at the end the
  -- cluster is in step again: OK while the slave is up, CHECK_SLAVE_DOWN while it is down.
  pub run-recoveries :
      (rs : List Round) (hac : HaCluster C)
      → IsInStep hac
      → let (hac', recovered) = run rs hac in
        IsInStep hac'
        × (length recovered ≡ recoveries hac.slave_state_ok rs)
        × (hac'.cluster_num_recovers ≡ hac.cluster_num_recovers + recoveries hac.slave_state_ok rs)
  unfolding run
  run-recoveries [] hac h = ground arith
  run-recoveries (r ∷ rs) hac h =
      let step = counts_step r hac h in
      let later = run-recoveries rs (check r hac) step.0 in
      let now = windows (begin_check r.master r.slave hac).1 in
      let rest = later.1 ∙ ap (λ up. recoveries up rs) step.1 in
      let counted =
        later.2 ∙ ap (λ up. (check r hac).cluster_num_recovers + recoveries up rs) step.1 in
      (
        later.0,
        omega (arith, rest, step.3, length-append now (run rs (check r hac)).1),
        omega (arith, counted, step.2),
      )

  -- When a slave that was up is seen down in a round, and then in any number of further rounds, and is then
  -- seen up, exactly one time window is recovered: from one check interval before the slave was last known
  -- to be good, by the first of these rounds, until it is known to be good again. The cluster is then in
  -- step with a slave that is up, and has counted one recovery more.
  pub run_outage :
      (hac : HaCluster C) (first : Round) (rs : List Round) (last : Round)
      → hac.slave_state_ok ≡ true
      → first.slave.up ≡ false
      → All (λ q. q.slave.up ≡ false) rs
      → last.slave.up ≡ true
      → let (hac', recovered) = run (first ∷ rs ++ last ∷ []) hac in
        IsInStep hac'
        × (hac'.slave_state_ok ≡ true)
        × (hac'.cluster_num_recovers ≡ hac.cluster_num_recovers + 1)
        × (recovered ≡ (first.slave.last_ok -ℤ hac.check_interval, last.slave.last_ok) ∷ [])
  unfolding run
  run_outage hac first rs last was_up is_down downs is_up =
      let begun = starts_waiting first hac was_up is_down in
      let later = Waits-run rs last (check first hac) _ begun.0 downs is_up in
      (
        later.0,
        later.1,
        later.2 ∙ ap (λ n. n + 1) begun.2,
        ap (λ ws. ws ++ (run (rs ++ last ∷ []) (check first hac)).1) begun.1 ∙ later.3,
      )

  -- A supervisor that starts, with the cluster OK, while its slave is down runs no recovery for as long as
  -- the slave stays down, nor in the round after that, whether it has come back or not, and the cluster's state stays OK all the time.
  pub run_late_start :
      (m s : Observation) (hac : HaCluster C) (rs : List Round) (last : Round)
      → hac.cluster_state ≡ ok_state
      → s.up ≡ false
      → All (λ q. q.slave.up ≡ false) rs
      → let (hac', recovered) = run (rs ++ last ∷ []) (start_supervisor m s hac) in
        (recovered ≡ []) × (hac'.cluster_state ≡ ok_state)
  unfolding start_supervisor
  run_late_start m s hac rs last is_ok is_down downs =
      unnoticed rs last (start_supervisor m s hac) is_ok is_down downs
