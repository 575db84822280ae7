-- ===== src/Webui/Api.antt =====
-- pkg/webui/api.go: the handlers of /api.
pub mod Active
use syncflux.Prelude.{ℕ, String, List, [], ◌∷◌, ◌++◌, Option, if◌then◌else◌}
use syncflux.Go.{Action, pure, deref, ◌>>=◌}
use syncflux.Agent.Cluster.{HaCluster, ClusterStatus, get_status}
use syncflux.Webui.Context.{Context, Handler, json, message, cluster_status, names}

-- The names that QueryActive lists.
unfoldable pub active_names : ClusterStatus → List String
active_names status =
    (if status.master_state then status.mid ∷ [] else [])
    ++ (if status.slave_state then status.sid ∷ [] else [])

module _ {C W : Type 0} (cluster : W → Option (HaCluster C)) where
  -- `agent.Cluster.GetStatus()`, which panics on a nil cluster.
  unfoldable pub current_status : Action W ClusterStatus
  unfolding get_status
  current_status w = (deref (cluster w) >>= λ hac. pure (get_status hac)) w

module _ {R S C W : Type 0} (cluster : W → Option (HaCluster C)) where
  -- HealthCluster.
  unfoldable pub health_cluster : Handler R S W
  unfolding current_status json
  health_cluster ctx =
      current_status cluster >>= λ status. pure (json 200 (cluster_status status) ctx)

  -- QueryActive.
  unfoldable pub query_active : Handler R S W
  unfolding current_status active_names json
  query_active ctx =
      current_status cluster >>= λ status. pure (json 200 (names (active_names status)) ctx)

module _ {R S W : Type 0} where
  -- HealthID.
  unfoldable pub health_id : Handler R S W
  unfolding json
  health_id ctx = pure (json 200 (message "hola") ctx)

  -- Action.
  unfoldable pub action : String → Handler R S W
  unfolding json
  action id ctx = pure (json 200 (message "hola") ctx)
