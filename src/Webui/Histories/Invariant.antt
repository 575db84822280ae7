-- ===== src/Webui/Histories/Invariant.antt =====
-- The invariant of the server over the histories of requests.
use mathlib.Core.Path.{subst}
use syncflux.Prelude.{
  arith, String, List, [], ◌∷◌, ◌++◌, Option, ◌≡◌, true, inl, inr, sym, All, Option-cases,
  Bool-cases,
}
use syncflux.Go.{Outcome-cases}
use syncflux.Config.{HttpServerConfig}
use syncflux.Agent.Cluster.{HaCluster}
use syncflux.Webui.Session.{Any, text, Sessions}
use syncflux.Webui.Context.{req_signed_in, Context, Handler, get_context_handler}
use syncflux.Webui.Server.{
  Route, login, logout, health, health_of, act, active, is_admin, my_login_handler,
  my_logout_handler, sessioner, route_handlers, serve,
}
use syncflux.Webui.Api.{health_cluster, health_id, query_active, action, current_status}
use syncflux.Webui.Access.{chain_one, chain_guarded}
use syncflux.Webui.Laws.{ChainLaws, SessionsLaws}
use syncflux.Webui.Histories.{
  Event, comes, serves, Serving, enqueue, Step, enters, leaves, Steps, stays, steps,
}
use syncflux.Webui.Histories.Kept.{
  Holds, IsGood, sessioner-Holds, my_logout_handler-Holds, my_login_handler-Holds,
  get_context_handler-Holds, get_context_handler-IsGood,
}

-- An element of a list, and the others.
pub All-middle :
    {A : Type 0} (P : A → Type 0) (before : List A) (a : A) (after : List A)
    → All P (before ++ a ∷ after)
    → P a × All P (before ++ after)
All-middle P [] a after h = h
All-middle P (b ∷ before) a after (p, h) =
    let (here, others) = All-middle P before a after h in (here, (p, others))

-- A login with the configured name and password, as an event, and the names that such logins use.
abbrev pub SignsIn : {R : Type 0} → HttpServerConfig → (Any → Type 0) → Event R → Type 0
SignsIn conf Q (comes r) = Unit
SignsIn conf Q (serves (login user)) = is_admin conf user ≡ true → Q (text user.user_name)
SignsIn conf Q (serves _) = Unit

module _ {R S C W : Type 0} (library : Sessions R S W) (laws : SessionsLaws library)
    (conf : HttpServerConfig) (cookie : String) (cluster : W → Option (HaCluster C))
    (chain : List (Handler R S W) → Handler R S W) (next : ChainLaws chain) (Q : Any → Type 0) where
  -- A route whose handlers change no session.
  health_cluster_world : (ctx : Context R S) (w : W) → (health_cluster cluster ctx w).1 ≡ w
  unfolding health_cluster current_status
  health_cluster_world ctx w = ground (arith, Option-cases (cluster w))

  query_active_world : (ctx : Context R S) (w : W) → (query_active cluster ctx w).1 ≡ w
  unfolding query_active current_status
  query_active_world ctx w = ground (arith, Option-cases (cluster w))

  action_world :
      (id : String) (ctx : Context R S) (w : W)
      → ctx.written ≡ []
      → (chain (req_signed_in ∷ action id ∷ []) ctx w).1 ≡ w
  unfolding action
  action_world id ctx w fresh =
      let (forbids, allows) = chain_guarded chain next (action id) ctx w fresh in
      ground (arith, forbids, allows, Bool-cases ctx.is_signed_in)

  one_Holds :
      (h : Handler R S W) (ctx : Context R S) (w : W)
      → Holds library laws Q ((h ctx w).1)
      → Holds library laws Q ((sessioner library (chain (h ∷ [])) ctx w).1)
  one_Holds h ctx w held =
      sessioner-Holds library laws Q (chain (h ∷ [])) ctx w
        (λ s v e. held s v (ground (arith, e, chain_one chain next h ctx w)))

  same_Holds : (w w' : W) → w' ≡ w → Holds library laws Q w → Holds library laws Q w'
  same_Holds w w' same held s v e = held s v (ground (arith, e, same))

  serve-Holds :
      (route : Route) (ctx : Context R S) (w : W)
      → SignsIn {R = R} conf Q (serves route)
      → ctx.written ≡ []
      → Holds library laws Q w
      → Holds library laws Q ((serve library conf cookie cluster chain route ctx w).1)
  unfolding serve route_handlers health_id
  serve-Holds (login user) ctx w q fresh held =
      one_Holds (my_login_handler library conf cookie user) ctx w
        (my_login_handler-Holds library laws Q conf cookie user ctx w q held)
  serve-Holds logout ctx w q fresh held =
      one_Holds (my_logout_handler library) ctx w
        (my_logout_handler-Holds library laws Q ctx w held)
  serve-Holds health ctx w q fresh held =
      one_Holds (health_cluster cluster) ctx w (same_Holds w _ (health_cluster_world ctx w) held)
  serve-Holds (health_of id) ctx w q fresh held = one_Holds health_id ctx w held
  serve-Holds (act id) ctx w q fresh held =
      sessioner-Holds library laws Q (chain (req_signed_in ∷ action id ∷ [])) ctx w
        (same_Holds w _ (action_world id ctx w fresh) held)
  serve-Holds active ctx w q fresh held =
      one_Holds (query_active cluster) ctx w (same_Holds w _ (query_active_world ctx w) held)

  -- The invariant of the server.
  pub record IsSafe (s : Serving R S W) : Type 0 where
    pub stores : Holds library laws Q s.world
    pub waits : All (IsGood library laws Q) s.waiting

  Step-IsSafe :
      (e : Event R) (s s' : Serving R S W)
      → Step library conf cookie cluster chain e s s'
      → SignsIn conf Q e
      → IsSafe s
      → IsSafe s'
  Step-IsSafe _ _ _ (enters r w waiting) q safe = record {
    stores = get_context_handler-Holds library laws Q r w safe.stores;
    waits = elim (Outcome-cases ((get_context_handler library r w).0)) [
      | inl e ↦ subst (λ o. All (IsGood library laws Q) (enqueue o waiting)) (sym e) safe.waits
      | inr (ctx, e) ↦
          subst (λ o. All (IsGood library laws Q) (enqueue o waiting)) (sym e)
            (get_context_handler-IsGood library laws Q r w ctx safe.stores e, safe.waits)
    ];
  }
  Step-IsSafe _ _ _ (leaves route ctx w before after) q safe =
      let (good, others) = All-middle (IsGood library laws Q) before ctx after safe.waits in
      record { stores = serve-Holds route ctx w q good.fresh safe.stores; waits = others }

  -- Whatever requests come and are served in whatever order: if each successful login of the history is by a
  -- name that satisfies a predicate, and the predicate holds of the users in the stores and of those signed in
  -- at the start, then it holds of them at the end.
  pub Steps-IsSafe :
      (es : List (Event R)) (s s' : Serving R S W)
      → Steps library conf cookie cluster chain es s s'
      → All (SignsIn conf Q) es
      → IsSafe s
      → IsSafe s'
  Steps-IsSafe _ _ _ (stays s) q safe = safe
  Steps-IsSafe _ _ _ (steps e es s s' s'' step later) (q, qs) safe =
      Steps-IsSafe es s' s'' later qs (Step-IsSafe e s s' step q safe)
