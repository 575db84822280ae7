-- ===== src/Webui/Api/Active.antt =====
-- What QueryActive says of the databases that the supervisor watches.
use syncflux.Prelude.{arith, String, List, [], ◌∷◌, ◌++◌, Option, some, ◌≡◌, Bool, if◌then◌else◌}
use syncflux.Go.{ret}
use syncflux.Agent.Cluster.{HaCluster, get_status}
use syncflux.Agent.Cluster.States.{Round, check, IsInStep}
use syncflux.Agent.Cluster.Noted.{check_notes}
use syncflux.Webui.Context.{Context, json, names}
use syncflux.Webui.Api.{query_active, current_status, active_names}

-- The name of a database, if it is up.
abbrev pub if_up : Bool → String → List String
if_up up name = if up then name ∷ [] else []

-- After a round of the supervisor, QueryActive lists the names of exactly the databases that the round saw up, if
-- the cluster's state agreed with the slave that it had noted before.
pub query_active_round :
    {R S C W : Type 0} (cluster : W → Option (HaCluster C)) (r : Round) (hac : HaCluster C)
    (ctx : Context R S) (w : W)
    → IsInStep hac
    → cluster w ≡ some (check r hac)
    → query_active cluster ctx w ≡ (
      ret (
          json 200
            (names (if_up r.master.up hac.master.cfg.name ++ if_up r.slave.up hac.slave.cfg.name))
            ctx),
      w,
    )
unfolding query_active current_status active_names get_status
query_active_round cluster r hac ctx w h e = ground (arith, check_notes r hac h, e)
