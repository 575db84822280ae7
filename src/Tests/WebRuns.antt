-- ===== src/Tests/WebRuns.antt =====
-- Runs of the web server, on a store of sessions in the place of the session package.
use syncflux.Prelude.{
  arith, ℕ, ◌==◌, ◌≡◌, refl, inl, Bool, true, false, Option, none, some, List, [], ◌∷◌,
  if◌then◌else◌, ==_iff, Bool-cases, pos, All,
}
use syncflux.Go.{ret, pure, ◌>>=◌}
use syncflux.Config.{HttpServerConfig}
use syncflux.Agent.Cluster.{HaCluster, Observation}
use syncflux.Agent.Cluster.States.{Round, check}
use syncflux.Webui.Session.{Any, text, Sessions, sess_key_user_id}
use syncflux.Webui.Context.{Context, Handler, json, message, names, forbidden, get_context_handler}
use syncflux.Webui.Api.{query_active}
use syncflux.Webui.Api.Active.{query_active_round}
use syncflux.Webui.Server.{UserLogin, is_admin, login, logout, act, closing, serve}
use syncflux.Webui.Laws.{is_written, ChainLaws, SessionsLaws}
use syncflux.Webui.Access.{login_answers, logout_lem}
use syncflux.Webui.SignedIn.{login_signs_in}
use syncflux.Webui.Histories.{Event, comes, serves, Serving, enters, leaves, Steps, stays, steps}
use syncflux.Webui.Histories.Users.{no_login_no_action, users_are_admin}
use syncflux.Tests.Toy.{cluster}

-- The users of the stores, which have numbers; a request carries the number of its session.
abbrev Users : Type 0
Users = ℕ → Option Any

abbrev library : Sessions ℕ ℕ Users
library = record {
  start = λ r w. ((some r, none), w);
  destroy = λ r w. (none, λ s. if r == s then none else w s);
  set = λ s k v w. (none, λ s'. if s == s' then some v else w s');
  get = λ s k w. w s;
  id = λ s. "";
  release = λ s w. (none, w);
}

laws : SessionsLaws library
laws = record {
  user_of = λ w s. w s;
  get_user = λ s w. refl;
  start_user = λ r w s. refl;
  release_user = λ s s' w. refl;
  destroy_user = λ r w s. ground (arith, Bool-cases (r == s));
  set_user = λ s s' v w. ground (arith, ==_iff s s', Bool-cases (s == s'));
  set_succeeds = λ s v w e. ground (arith, ==_iff s s);
}

abbrev chain : List (Handler ℕ ℕ Users) → Handler ℕ ℕ Users
chain [] ctx = pure ctx
chain (h ∷ hs) ctx = h ctx >>= λ ctx'. if is_written ctx' then pure ctx' else chain hs ctx'

chain_laws : ChainLaws chain
chain_laws = record { chain-nil = λ ctx w. refl; chain-cons = λ h hs ctx w. refl }

abbrev conf : HttpServerConfig
conf = record { bind_addr = ""; admin_user = "adm"; admin_password = "secret"; cookie_id = "" }

abbrev the_cluster : Users → Option (HaCluster Bool)
the_cluster w = some cluster

abbrev right : UserLogin
right = record { user_name = "adm"; password = "secret" }

abbrev wrong : UserLogin
wrong = record { user_name = "adm"; password = "guess" }

abbrev nobody : Users
nobody s = none

abbrev visitor : ℕ → Context ℕ ℕ
visitor r = record {
  request = r;
  signed_in_user = "";
  session = record { session = some r };
  is_signed_in = false;
  written = [];
}

login_answers_example :
    serve library conf "c" the_cluster chain (login right) (visitor 1) nobody
    ≡ closing library
        (record (visitor 1) {
          signed_in_user = "adm";
          is_signed_in = true;
          written = record { status = 200; body = message "c" } ∷ [];
        })
        (library.set 1 sess_key_user_id (text "adm") nobody).1
login_answers_example =
    (login_answers library conf "c" the_cluster chain chain_laws right (visitor 1) nobody refl).0
      (refl, refl) 1 refl

logout_lem_example : serve library conf "c" the_cluster chain logout (visitor 1) nobody ≡ (
  ret (record (visitor 1) { session = record { session = none } }),
  (library.destroy 1 nobody).1,
)
logout_lem_example =
    (logout_lem library conf "c" the_cluster chain chain_laws (visitor 1) 1 nobody refl).0 refl

login_signs_in_example :
    (ctx1 : Context ℕ ℕ) × (serve library conf "c" the_cluster chain
        (login right)
        (visitor 1)
        nobody
      ≡ (ret ctx1, (library.set 1 sess_key_user_id (text "adm") nobody).1))
    × ((ctx2 : Context ℕ ℕ) × (get_context_handler library 1
            ((library.set 1 sess_key_user_id (text "adm") nobody).1)
          ≡ (ret ctx2, (library.set 1 sess_key_user_id (text "adm") nobody).1))
        × (ctx2.signed_in_user ≡ "adm")
        × (serve library conf "c" the_cluster chain
              (act "x")
              ctx2
              ((library.set 1 sess_key_user_id (text "adm") nobody).1)
            ≡ closing library
                (record ctx2 { written = record { status = 200; body = message "hola" } ∷ [] })
                ((library.set 1 sess_key_user_id (text "adm") nobody).1)))
login_signs_in_example =
    login_signs_in library laws conf "c" the_cluster chain chain_laws right (visitor 1) 1 1 "x"
      nobody ((library.set 1 sess_key_user_id (text "adm") nobody).1)
      ((library.set 1 sess_key_user_id (text "adm") nobody).1)
      ((library.set 1 sess_key_user_id (text "adm") nobody).1) (refl, refl) refl refl refl refl refl

-- Two visitors; the second one tries a wrong password.
abbrev opened : Serving ℕ ℕ Users
opened = record { world = nobody; waiting = [] }

abbrev tried : Users
tried = (serve library conf "c" the_cluster chain (login wrong) (visitor 2) nobody).1

abbrev one_waits : Serving ℕ ℕ Users
one_waits = record { world = tried; waiting = visitor 1 ∷ [] }

abbrev guessed : List (Event ℕ)
guessed = comes 1 ∷ comes 2 ∷ serves (login wrong) ∷ []

guessing : Steps library conf "c" the_cluster chain guessed opened one_waits
unfolding get_context_handler
guessing = steps _ _ _ _ _ (enters 1 nobody []) (
    steps _ _ _ _ _ (enters 2 nobody (visitor 1 ∷ []))
      (steps _ _ _ _ _ (leaves (login wrong) (visitor 2) nobody [] (visitor 1 ∷ [])) (stays _)))

no_login_no_action_example :
    serve library conf "c" the_cluster chain (act "x") (visitor 1) tried
    ≡ closing library
        (record (visitor 1) { written = record { status = 403; body = forbidden } ∷ [] })
        tried
unfolding is_admin laws
no_login_no_action_example =
    no_login_no_action library laws conf "c" the_cluster chain chain_laws guessed opened one_waits
      [] [] (visitor 1) "x" guessing (tt, (tt, (refl, tt))) (λ s. refl) refl refl

-- One visitor logs in, and comes again.
abbrev after_login : Users
after_login = (serve library conf "c" the_cluster chain (login right) (visitor 1) nobody).1

abbrev back : Serving ℕ ℕ Users
back = record {
  world = after_login;
  waiting = record (visitor 1) { signed_in_user = "adm"; is_signed_in = true } ∷ [];
}

entering :
    Steps library conf "c" the_cluster chain
      (comes 1 ∷ serves (login right) ∷ comes 1 ∷ [])
      opened
      back
unfolding get_context_handler serve
entering = steps _ _ _ _ _ (enters 1 nobody []) (
    steps _ _ _ _ _ (leaves (login right) (visitor 1) nobody [] [])
      (steps _ _ _ _ _ (enters 1 after_login []) (stays _)))

users_are_admin_example :
    ((store : ℕ) (v : Any) → after_login store ≡ some v → v ≡ text "adm")
    × All (λ ctx. ctx.is_signed_in ≡ true → ctx.signed_in_user ≡ "adm") back.waiting
unfolding laws
users_are_admin_example =
    users_are_admin library laws conf "c" the_cluster chain chain_laws
      (comes 1 ∷ serves (login right) ∷ comes 1 ∷ []) opened back entering (λ s. refl) refl

abbrev seen : Bool → Observation
seen up = record { up = up; last_ok = pos 0; duration = pos 0 }

abbrev slave_lost : Round
slave_lost = record { master = seen true; slave = seen false; elapsed = pos 0 }

query_active_round_example :
    query_active (λ w. some (check slave_lost cluster)) (visitor 1) nobody
    ≡ (ret (json 200 (names ("m" ∷ [])) (visitor 1)), nobody)
query_active_round_example =
    query_active_round (λ w. some (check slave_lost cluster)) slave_lost cluster (visitor 1) nobody
      (inl (refl, refl)) refl
