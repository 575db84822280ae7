-- ===== src/Agent/Supervisor/Rounds.antt =====
-- A check of the cluster, with its recovery, as a round of Agent/Cluster/States.
use syncflux.Prelude.{arith, ℕ, pos, ◌≡◌, refl, ap, sym, ◌∙◌, String, Bool}
use syncflux.Go.{Outcome, ret, panic}
use syncflux.Go.Time.{Time, Duration}
use syncflux.Config.{GeneralConfig}
use syncflux.Influx.{Points, Client}
use syncflux.Agent.Discovery.{Libraries}
use syncflux.Agent.Cluster.{
  ClusterState, HaCluster, Verdict, settled, recover, begin_check, end_recovery,
}
use syncflux.Agent.Cluster.States.{Round, check, finish, IsAtRest, check-IsAtRest}
use syncflux.Agent.Supervisor.{observe, recover_slave, conclude, check_cluster}

-- What the supervisor decides by, and what it counts.
pub record Standing : Type 0 where
  pub cluster_state : ClusterState
  pub slave_state_ok : Bool
  pub slave_last_ok : Time
  pub check_interval : Duration
  pub cluster_num_recovers : ℕ

module _ {C : Type 0} where
  unfoldable pub standing : HaCluster C → Standing
  standing hac = record {
    cluster_state = hac.cluster_state;
    slave_state_ok = hac.slave_state_ok;
    slave_last_ok = hac.slave_last_ok;
    check_interval = hac.check_interval;
    cluster_num_recovers = hac.cluster_num_recovers;
  }

-- What holds of the value that an action returns, if it does not panic.
abbrev pub IfReturns : {A : Type 0} → (A → Type 0) → Outcome A → Type 0
IfReturns P panic = Unit
IfReturns P (ret a) = P a

IfReturns-mono :
    {A : Type 0} (P Q : A → Type 0)
    → ((a : A) → P a → Q a)
    → (o : Outcome A) → IfReturns P o
    → IfReturns Q o
IfReturns-mono P Q f panic h = tt
IfReturns-mono P Q f (ret a) h = f a h

IsAtRest-standing :
    {C : Type 0} (hac hac' : HaCluster C)
    → standing hac ≡ standing hac'
    → IsAtRest hac'
    → IsAtRest hac
unfolding standing
IsAtRest-standing hac hac' same h =
    let state : hac.cluster_state ≡ hac'.cluster_state = ap (λ s. s.cluster_state) same in
    let noted : hac.slave_state_ok ≡ hac'.slave_state_ok = ap (λ s. s.slave_state_ok) same in
    record {
      not_recovering = λ e. h.not_recovering (sym state ∙ e);
      down_noted = λ e. noted ∙ h.down_noted (sym state ∙ e);
    }

module _ {P B C W : Type 0} (parse_float : String → ℕ) (api : Points P B) (client : Client C W B)
    (general : GeneralConfig) (clock : W → Time) (libraries : Libraries) where
  -- The round of a check.
  abbrev pub round_of : HaCluster C → W → Round
  round_of hac w = record {
    master = observe hac.master (clock w);
    slave = observe hac.slave (clock w);
    elapsed = pos 0;
  }

  recover_slave-standing :
      (start end : Time) (hac : HaCluster C) (w : W)
      → IfReturns
          (λ hac'. standing hac' ≡ standing hac)
          (recover_slave parse_float api client general clock libraries start end hac w).0
  unfolding recover_slave standing
  recover_slave-standing start end hac w = ground arith

  conclude-finish :
      (begun : HaCluster C × Verdict) (w : W)
      → IfReturns
          (λ hac'. standing hac' ≡ standing (finish (pos 0) begun))
          (conclude parse_float api client general clock libraries begun w).0
  unfolding conclude standing finish end_recovery
  conclude-finish (hac, settled) w = refl
  conclude-finish (hac, recover start end) w =
      ground (arith, recover_slave-standing start end hac w)

  -- A check of the cluster, its recovery included, if it does not panic, leaves the cluster standing as the
  -- round of the two monitors' states does: the same state, the same noted slave, the same count of
  -- recoveries.
  pub check_cluster-check :
      (hac : HaCluster C) (w : W)
      → IfReturns
          (λ hac'. standing hac' ≡ standing (check (round_of hac w) hac))
          (check_cluster parse_float api client general clock libraries hac w).0
  unfolding check_cluster check
  check_cluster-check hac w =
      conclude-finish (begin_check (observe hac.master (clock w)) (observe hac.slave (clock w)) hac)
        w

  -- A cluster at rest is at rest again after a check, its recovery included, that does not panic.
  pub check_cluster-IsAtRest :
      (hac : HaCluster C) (w : W)
      → IsAtRest hac
      → IfReturns IsAtRest (check_cluster parse_float api client general clock libraries hac w).0
  check_cluster-IsAtRest hac w h =
      let rests = check-IsAtRest (round_of hac w) hac h in
      IfReturns-mono _ _ (λ hac' same. IsAtRest-standing hac' _ same rests) _
        (check_cluster-check hac w)
