-- ===== src/Webui/Access.antt =====
-- Who may do what: the login, the logout and the guard of an action.
use syncflux.Prelude.{
  arith, String, List, [], ◌∷◌, Option, none, some, ◌≡◌, refl, ◌∙◌, ◌≢◌, true, false, eq_iff,
  Bool-cases, if◌then◌else◌,
}
use syncflux.Go.{Outcome, >>=_at, ret, panic, pure}
use syncflux.Config.{HttpServerConfig}
use syncflux.Agent.Cluster.{HaCluster}
use syncflux.Webui.Session.{text, Sessions, sess_key_user_id, start, get, set, release, destroy}
use syncflux.Webui.Context.{
  Context, Handler, Response, json, message, forbidden, req_signed_in, access_forbidden,
  get_context_handler, init_context_with_user_session_cookie,
}
use syncflux.Webui.Api.{action}
use syncflux.Webui.Server.{
  UserLogin, login, logout, act, is_admin, my_login_handler, my_logout_handler, route_handlers,
  sessioner, closing, serve,
}
use syncflux.Webui.Laws.{ChainLaws, SessionsLaws, is_written}

module _ {R S W : Type 0} (chain : List (Handler R S W) → Handler R S W)
    (next : ChainLaws chain) where
  ending :
      (r : Outcome (Context R S) × W)
      → elim (r.0) [
        | ret ctx ↦ (if is_written ctx then pure ctx else chain [] ctx) (r.1)
        | panic ↦ (panic, r.1)
      ]
        ≡ r
  ending (panic, w) = refl
  ending (ret ctx, w) = ground (arith, next.chain-nil ctx w, Bool-cases (is_written ctx))

  -- A route with one handler.
  pub chain_one : (h : Handler R S W) (ctx : Context R S) (w : W) → chain (h ∷ []) ctx w ≡ h ctx w
  chain_one h ctx w = next.chain-cons h [] ctx w ∙ ending (h ctx w)

  -- The guard in front of an action.
  pub chain_guarded :
      (h : Handler R S W) (ctx : Context R S) (w : W)
      → ctx.written ≡ []
      → (ctx.is_signed_in ≡ false
          → chain (req_signed_in ∷ h ∷ []) ctx w ≡ (ret (access_forbidden ctx), w))
        × (ctx.is_signed_in ≡ true → chain (req_signed_in ∷ h ∷ []) ctx w ≡ h ctx w)
  unfolding req_signed_in access_forbidden json
  chain_guarded h ctx w fresh = (
    λ n. next.chain-cons req_signed_in (h ∷ []) ctx w ∙ ground (arith, n, fresh),
    λ y. next.chain-cons req_signed_in (h ∷ []) ctx w ∙ ground (arith, y, fresh, chain_one h ctx w),
  )

module _ {R S C W : Type 0} (library : Sessions R S W) (conf : HttpServerConfig) (cookie : String)
    (cluster : W → Option (HaCluster C)) (chain : List (Handler R S W) → Handler R S W)
    (next : ChainLaws chain) where
  -- A chain that ends with a value is closed.
  sessioner_ret :
      (h : Handler R S W) (ctx ctx' : Context R S) (w w' : W)
      → h ctx w ≡ (ret ctx', w')
      → sessioner library h ctx w ≡ closing library ctx' w'
  unfolding sessioner
  sessioner_ret h ctx ctx' w w' e = >>=_at (h ctx) (pure ctx') (closing library) w w' e

  -- An action: without a user who is signed in the answer is a 403 and the action does not run, with one it
  -- runs. Either way the session is released at the end.
  pub action_guarded :
      (id : String) (ctx : Context R S) (w : W)
      → ctx.written ≡ []
      → let served = serve library conf cookie cluster chain (act id) ctx w in
        let answer = λ (r : Response). closing library (record ctx { written = r ∷ [] }) w in
        (ctx.is_signed_in ≡ false → served ≡ answer (record { status = 403; body = forbidden }))
        × (ctx.is_signed_in ≡ true
            → served ≡ answer (record { status = 200; body = message "hola" }))
  unfolding serve route_handlers access_forbidden action json
  action_guarded id ctx w fresh =
      let (forbids, allows) = chain_guarded chain next (action id) ctx w fresh in
      (
        λ n.
            sessioner_ret (chain (req_signed_in ∷ action id ∷ [])) ctx _ w w
              (forbids n ∙ rw fresh refl),
        λ y.
            sessioner_ret (chain (req_signed_in ∷ action id ∷ [])) ctx _ w w
              (allows y ∙ rw fresh refl),
      )

  -- The login handler is the whole chain of its route.
  served_login :
      (user : UserLogin) (ctx ctx' : Context R S) (w w' : W)
      → my_login_handler library conf cookie user ctx w ≡ (ret ctx', w')
      → serve library conf cookie cluster chain (login user) ctx w ≡ closing library ctx' w'
  unfolding serve route_handlers
  served_login user ctx ctx' w w' e =
      sessioner_ret (chain (my_login_handler library conf cookie user ∷ [])) ctx ctx' w w'
        (chain_one chain next (my_login_handler library conf cookie user) ctx w ∙ e)

  -- A login is answered with 200 and the cookie exactly for the configured name and password, and with 400
  -- and no change of a session else. The 200 does not depend on what Set returns, nor on there being a
  -- session at all: without one nothing is stored.
  pub login_answers :
      (user : UserLogin) (ctx : Context R S) (w : W)
      → ctx.written ≡ []
      → let served = serve library conf cookie cluster chain (login user) ctx w in
        let answer = λ (r : Response). closing library (record ctx { written = r ∷ [] }) w in
        let signed = λ (w' : W).
          closing library
            (record ctx {
              signed_in_user = user.user_name;
              is_signed_in = true;
              written = record { status = 200; body = message cookie } ∷ [];
            })
            w' in
        let right = (user.user_name ≡ conf.admin_user) × (user.password ≡ conf.admin_password) in
        (right
          → (s : S) → ctx.session.session ≡ some s
          → served ≡ signed (library.set s sess_key_user_id (text user.user_name) w).1)
        × (right → ctx.session.session ≡ none → served ≡ signed w)
        × (¬ right
            → served
              ≡ answer (record { status = 400; body = message "ERROR user or password not match" }))
  unfolding my_login_handler is_admin set json
  login_answers user ctx w fresh =
      let n = eq_iff user.user_name conf.admin_user in
      let p = eq_iff user.password conf.admin_password in
      (
        λ right s stored. served_login user ctx _ w _ (ground (arith, right, stored, fresh, n, p)),
        λ right none_of. served_login user ctx _ w w (ground (arith, right, none_of, fresh, n, p)),
        λ wrong. served_login user ctx _ w w (ground (arith, wrong, fresh, n, p)),
      )

  -- A logout writes no answer, whether the session could be destroyed or not: if so, the request has no
  -- session left and nothing is released; if not, the session stays as it is.
  pub logout_lem :
      (ctx : Context R S) (s : S) (w : W)
      → ctx.session.session ≡ some s
      → let served = serve library conf cookie cluster chain logout ctx w in
        let destroyed = library.destroy ctx.request w in
        (destroyed.0 ≡ none
          → served ≡ (ret (record ctx { session = record { session = none } }), destroyed.1))
        × (destroyed.0 ≢ none → served ≡ closing library ctx destroyed.1)
  unfolding serve route_handlers my_logout_handler destroy closing release
  logout_lem ctx s w stored =
      let destroyed = library.destroy ctx.request w in
      let run = chain_one chain next (my_logout_handler library) ctx w in
      let h = chain (my_logout_handler library ∷ []) in
      (
        λ ok.
            sessioner_ret h ctx (record ctx { session = record { session = none } }) w (destroyed.1)
              (run ∙ ground (arith, stored, ok))
            ∙ ground arith,
        λ failed. sessioner_ret h ctx ctx w (destroyed.1) (run ∙ ground (arith, stored, failed)),
      )

module _ {R S W : Type 0} (library : Sessions R S W) (laws : SessionsLaws library) where
  -- Who a request is, when its session starts: the user that the store holds; nobody where it
  -- holds none.
  pub context_user :
      (r : R) (w w' : W) (s : S)
      → library.start r w ≡ ((some s, none), w')
      → let ctx : Context R S = record {
        request = r;
        signed_in_user = "";
        session = record { session = some s };
        is_signed_in = false;
        written = [];
      } in
        (laws.user_of w s ≡ none → get_context_handler library r w ≡ (ret ctx, w'))
        × ((user : String)
            → laws.user_of w s ≡ some (text user)
            → get_context_handler library r w
              ≡ (ret (record ctx { signed_in_user = user; is_signed_in = true }), w'))
  unfolding get_context_handler init_context_with_user_session_cookie start get
  context_user r w w' s started =
      let kept : laws.user_of w' s ≡ laws.user_of w s =
        ground (arith, started, laws.start_user r w s) in
      (
        λ e. ground (arith, started, laws.get_user s w', kept, e),
        λ user e. ground (arith, started, laws.get_user s w', kept, e),
      )
