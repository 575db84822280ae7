-- ===== src/Webui/Histories.antt =====
-- Requests in any order: each passes GetContextHandler when it comes and the rest under the mutex, so that
-- other requests may be served between the two.
pub mod Kept
pub mod Invariant
pub mod Users
use mathlib.Core.Path.{subst}
use syncflux.Prelude.{
  arith, ℕ, String, List, [], ◌∷◌, ◌++◌, Option, none, some, ◌≡◌, refl, ◌∙◌, ap, ◌≢◌, ◌⊎◌, Bool,
  true, false, eq_iff, inl, inr, sym, All, All-append, Option-cases, Bool-cases,
}
use syncflux.Go.{Outcome, ret, panic, Action, Outcome-cases}
use syncflux.Config.{HttpServerConfig}
use syncflux.Agent.Cluster.{HaCluster}
use syncflux.Webui.Session.{
  Any, text, other, Sessions, SessionWrapper, sess_key_user_id, start, get, set, release, destroy,
}
use syncflux.Webui.Context.{
  req_signed_in, Context, Handler, get_context_handler, init_context_with_user_session_cookie,
}
use syncflux.Webui.Server.{
  UserLogin, Route, login, logout, health, health_of, act, active, is_admin, my_login_handler,
  my_logout_handler, closing, sessioner, route_handlers, serve,
}
use syncflux.Webui.Api.{health_cluster, health_id, query_active, action, current_status}
use syncflux.Webui.Access.{chain_one, chain_guarded}
use syncflux.Webui.Laws.{ChainLaws, SessionsLaws}

-- What happens: a request comes, or one that has come is served.
pub data Event (R : Type 0) : Type 0 where
  comes : R → Event R
  serves : Route → Event R

-- The world, and the requests that have come and are not served yet.
pub record Serving (R S W : Type 0) : Type 0 where
  pub world : W
  pub waiting : List (Context R S)

-- The requests that wait after one has passed GetContextHandler; a panic ends it.
abbrev pub enqueue :
    {R S : Type 0} → Outcome (Context R S) → List (Context R S) → List (Context R S)
enqueue panic waiting = waiting
enqueue (ret ctx) waiting = ctx ∷ waiting

module _ {R S C W : Type 0} (library : Sessions R S W) (conf : HttpServerConfig) (cookie : String)
    (cluster : W → Option (HaCluster C)) (chain : List (Handler R S W) → Handler R S W) where
  pub data Step : Event R → Serving R S W → Serving R S W → Type 0 where
    enters :
        (r : R) (w : W) (waiting : List (Context R S))
        → Step
            (comes r)
            (record { world = w; waiting = waiting })
            (record {
              world = (get_context_handler library r w).1;
              waiting = enqueue ((get_context_handler library r w).0) waiting;
            })
    leaves :
        (route : Route) (ctx : Context R S) (w : W) (before after : List (Context R S))
        → Step
            (serves route)
            (record { world = w; waiting = before ++ ctx ∷ after })
            (record {
              world = (serve library conf cookie cluster chain route ctx w).1;
              waiting = before ++ after;
            })

  pub data Steps : List (Event R) → Serving R S W → Serving R S W → Type 0 where
    stays : (s : Serving R S W) → Steps [] s s
    steps :
        (e : Event R) (es : List (Event R)) (s s' s'' : Serving R S W)
        → Step e s s'
        → Steps es s' s''
        → Steps (e ∷ es) s s''
