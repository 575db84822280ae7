-- ===== src/Webui/Server.antt =====
-- pkg/webui/webserver.go: the login, the routes, and what a request runs through.
use syncflux.Prelude.{
  String, Bool, true, false, List, [], ◌∷◌, Option, none, some, str_eq, ◌&&◌, if◌then◌else◌, pos,
}
use syncflux.Go.{ret, panic, ◌>>=◌}
use syncflux.Go.Text.{concat}
use syncflux.Config.{HttpServerConfig}
use syncflux.Agent.Cluster.{HaCluster}
use syncflux.Webui.Session.{text, Options, Sessions, sess_key_user_id, set, release, destroy}
use syncflux.Webui.Context.{Handler, json, message, req_signed_in}
use syncflux.Webui.Api.{health_cluster, health_id, query_active, action}

-- UserLogin. The binding requires both, and answers a request that lacks one itself.
pub record UserLogin : Type 0 where
  pub user_name : String
  pub password : String

-- The address of WebServer.
unfoldable pub bind_address : HttpServerConfig → String → String
bind_address cfg bind_addr = if str_eq cfg.bind_addr "" then bind_addr else cfg.bind_addr

-- The global `cookie`; `md5_hex` is md5.Sum, printed with `%x`.
unfoldable pub cookie_of : (String → String) → HttpServerConfig → String → String
cookie_of md5_hex cfg instance_id =
    if str_eq cfg.cookie_id "" then md5_hex instance_id else cfg.cookie_id

-- The options that WebServer gives to Sessioner.
unfoldable pub session_options : String → Options
session_options cookie = record {
  provider = "memory";
  provider_config = "";
  cookie_name = concat ("syncflux-sess-" ∷ cookie ∷ []);
  cookie_path = "/";
  gclifetime = pos 3600;
  maxlifetime = pos 3600;
  secure = false;
  cookie_life_time = pos 0;
  domain = "";
  id_length = pos 16;
  section_name = "session";
}

-- The requests that have a handler.
pub data Route : Type 0 where
  login : UserLogin → Route
  logout : Route
  health : Route
  health_of : String → Route
  act : String → Route
  active : Route

-- The test of myLoginHandler.
unfoldable pub is_admin : HttpServerConfig → UserLogin → Bool
is_admin conf user =
    str_eq user.user_name conf.admin_user && str_eq user.password conf.admin_password

module _ {R S W : Type 0} (library : Sessions R S W) where
  -- myLogoutHandler. The error of Destory is not looked at, and nothing is written.
  unfoldable pub my_logout_handler : Handler R S W
  unfolding destroy
  my_logout_handler ctx w =
      let (r, w') = destroy library ctx.session ctx.request w in
      (ret (record ctx { session = r.1 }), w')

  -- The end of the handler that Sessioner returns: an error of Release is a panic.
  unfoldable pub closing : Handler R S W
  unfolding release
  closing ctx w =
      let (e, w') = release library ctx.session w in
      elim e [ none ↦ (ret ctx, w') | some error ↦ (panic, w') ]

  -- The handler that Sessioner returns, around what stands behind it.
  unfoldable pub sessioner : Handler R S W → Handler R S W
  unfolding closing
  sessioner next ctx = next ctx >>= closing

module _ {R S W : Type 0} (library : Sessions R S W) (conf : HttpServerConfig)
    (cookie : String) where
  -- myLoginHandler. The error of Set is not looked at.
  unfoldable pub my_login_handler : UserLogin → Handler R S W
  unfolding is_admin set json
  my_login_handler user ctx w =
      if is_admin conf user
      then (let (e, w') = set library ctx.session sess_key_user_id (text user.user_name) w in
          (
            ret (
                json 200 (message cookie)
                  (record ctx { signed_in_user = user.user_name; is_signed_in = true })),
            w',
          ))
      else (ret (json 400 (message "ERROR user or password not match") ctx), w)

module _ {R S C W : Type 0} (library : Sessions R S W) (conf : HttpServerConfig) (cookie : String)
    (cluster : W → Option (HaCluster C)) where
  -- The handlers of a route: those of WebServer and of NewAPI. `login user` is a request that the binding of macaron,
  -- bind(UserLogin{}), has let through with these fields; one that it answers itself reaches no handler of the program.
  unfoldable pub route_handlers : Route → List (Handler R S W)
  unfolding my_login_handler my_logout_handler
  route_handlers (login user) = my_login_handler library conf cookie user ∷ []
  route_handlers logout = my_logout_handler library ∷ []
  route_handlers health = health_cluster cluster ∷ []
  route_handlers (health_of id) = health_id ∷ []
  route_handlers (act id) = req_signed_in ∷ action id ∷ []
  route_handlers active = query_active cluster ∷ []

  -- A request after GetContextHandler, under the mutex. `chain` is macaron's Next on the handlers left.
  unfoldable pub serve : (List (Handler R S W) → Handler R S W) → Route → Handler R S W
  unfolding sessioner route_handlers
  serve chain route = sessioner library (chain (route_handlers route))
