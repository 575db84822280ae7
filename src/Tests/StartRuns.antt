-- ===== src/Tests/StartRuns.antt =====
-- Runs of the start: two databases that answer.
use syncflux.Prelude.{arith, eq_iff, ◌≡◌, refl, inl, inr, false, [], ◌∷◌}
use syncflux.Go.{is_nil}
use syncflux.Config.{Config}
use syncflux.Agent.Monitor.{init_ping, answer_error}
use syncflux.Agent.Startup.{choose, connect, init_cluster}
use syncflux.Agent.Startup.Ready.{IsReadyIfAny, init_cluster-IsReady}
use syncflux.Agent.Startup.Alive.{init_cluster_ends}
use syncflux.Tests.Toy.{world, client, clock, general, database}

abbrev pub config : Config
config = record {
  general = general;
  http = record { bind_addr = ""; admin_user = ""; admin_password = ""; cookie_id = "" };
  influx_array = database "s" ∷ database "m" ∷ [];
}

init_cluster-IsReady_example :
    IsReadyIfAny "s" "s" (init_cluster client clock (λ w. w) config "s" "" 1 world).0
init_cluster-IsReady_example =
    init_cluster-IsReady client clock (λ w. w) config "s" "" "s" "s" 1 world
      ((λ e. ground (arith, e, eq_iff "s" "")), λ n. refl) ((λ e. refl), λ n. absurd (n refl))

init_cluster_ends_example :
    is_nil (init_cluster client clock (λ w. w) config "" "" 1 world).0 ≡ false
unfolding choose connect init_ping answer_error
init_cluster_ends_example =
    init_cluster_ends client clock (λ w. w) config "" "" 0 world (λ idb v. refl) (inr (inl refl))
      (inl refl)
