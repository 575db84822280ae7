-- ===== src/Webui/SignedIn.antt =====
-- From a login to the next request of the same session.
use syncflux.Prelude.{arith, String, List, [], ◌∷◌, Option, none, some, ◌≡◌, refl, ◌∙◌, ap, true}
use syncflux.Go.{ret}
use syncflux.Config.{HttpServerConfig}
use syncflux.Agent.Cluster.{HaCluster}
use syncflux.Webui.Session.{text, Sessions, sess_key_user_id, release}
use syncflux.Webui.Context.{Context, Handler, message, get_context_handler}
use syncflux.Webui.Server.{UserLogin, login, act, closing, serve}
use syncflux.Webui.Laws.{ChainLaws, SessionsLaws}
use syncflux.Webui.Access.{login_answers, action_guarded, context_user}

closing_ok :
    {R S W : Type 0} (library : Sessions R S W) (ctx : Context R S) (s : S) (w w' : W)
    → ctx.session.session ≡ some s
    → library.release s w ≡ (none, w')
    → closing library ctx w ≡ (ret ctx, w')
unfolding closing release
closing_ok library ctx s w w' stored released = ground (arith, stored, released)

-- A login with the configured name and password, on a session whose store takes the user and is released
-- without an error, signs in the next request that gets the same store: it has the configured name, and its
-- action runs.
pub login_signs_in :
    {R S C W : Type 0} (library : Sessions R S W) (laws : SessionsLaws library)
    (conf : HttpServerConfig) (cookie : String) (cluster : W → Option (HaCluster C))
    (chain : List (Handler R S W) → Handler R S W) (next : ChainLaws chain) (user : UserLogin)
    (ctx : Context R S) (s : S) (r : R) (id : String) (w w1 w2 w3 : W)
    → (user.user_name ≡ conf.admin_user) × (user.password ≡ conf.admin_password)
    → ctx.written ≡ []
    → ctx.session.session ≡ some s
    → library.set s sess_key_user_id (text user.user_name) w ≡ (none, w1)
    → library.release s w1 ≡ (none, w2)
    → library.start r w2 ≡ ((some s, none), w3)
    → (ctx1 : Context R S) × (serve library conf cookie cluster chain (login user) ctx w
        ≡ (ret ctx1, w2))
      × ((ctx2 : Context R S) × (get_context_handler library r w2 ≡ (ret ctx2, w3))
          × (ctx2.signed_in_user ≡ conf.admin_user)
          × (serve library conf cookie cluster chain (act id) ctx2 w3
              ≡ closing library
                  (record ctx2 { written = record { status = 200; body = message "hola" } ∷ [] })
                  w3))
login_signs_in library laws conf cookie cluster chain next user ctx s r id w w1 w2 w3 right fresh
      stored taken released started =
    let ctx1 : Context _ _ = record ctx {
      signed_in_user = user.user_name;
      is_signed_in = true;
      written = record { status = 200; body = message cookie } ∷ [];
    } in
    let ctx2 : Context _ _ = record {
      request = r;
      signed_in_user = user.user_name;
      session = record { session = some s };
      is_signed_in = true;
      written = [];
    } in
    let answered =
      (login_answers library conf cookie cluster chain next user ctx w fresh).0 right s stored in
    let user_in : laws.user_of w2 s ≡ some (text user.user_name) = ground (
      arith,
      taken,
      released,
      laws.set_succeeds s (text user.user_name) w,
      laws.release_user s s w1,
    ) in
    (
      ctx1,
      answered
          ∙ ap (λ x. closing library ctx1 (x.1)) taken
          ∙ closing_ok library ctx1 s w1 w2 stored released,
      (
        ctx2,
        (context_user library laws r w2 w3 s started).1 user.user_name user_in,
        right.0,
        (action_guarded library conf cookie cluster chain next id ctx2 w3 refl).1 refl,
      ),
    )
