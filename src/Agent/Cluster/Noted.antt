-- ===== src/Agent/Cluster/Noted.antt =====
-- What a round of the supervisor notes of the two databases.
use syncflux.Prelude.{arith, ◌≡◌}
use syncflux.Agent.Cluster.{HaCluster, switch_state}
use syncflux.Agent.Cluster.States.{Round, check, IsInStep}

pub check_notes :
    {C : Type 0} (r : Round) (hac : HaCluster C)
    → IsInStep hac
    → let hac' = check r hac in
      (hac'.master_state_ok ≡ r.master.up)
      × (hac'.slave_state_ok ≡ r.slave.up)
      × (hac'.master.cfg.name ≡ hac.master.cfg.name)
      × (hac'.slave.cfg.name ≡ hac.slave.cfg.name)
unfolding check switch_state
check_notes r hac h = ground arith
