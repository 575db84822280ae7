-- ===== src/Webui/Histories/Users.antt =====
-- Who is signed in, in a history of requests.
use mathlib.Core.Path.{subst}
use syncflux.Prelude.{
  arith, String, List, [], ◌∷◌, ◌++◌, Option, none, some, ◌≡◌, true, false, eq_iff, inl, inr, sym,
  All, All-mono, Bool-cases,
}
use syncflux.Config.{HttpServerConfig}
use syncflux.Agent.Cluster.{HaCluster}
use syncflux.Webui.Session.{Any, text, Sessions}
use syncflux.Webui.Context.{forbidden, Context, Handler}
use syncflux.Webui.Server.{login, logout, health, health_of, act, active, is_admin, closing, serve}
use syncflux.Webui.Access.{action_guarded}
use syncflux.Webui.Laws.{ChainLaws, SessionsLaws}
use syncflux.Webui.Histories.{Event, comes, serves, Serving, Steps}
use syncflux.Webui.Histories.Kept.{IsGood}
use syncflux.Webui.Histories.Invariant.{All-middle, SignsIn, IsSafe, Steps-IsSafe}

All-of : {A : Type 0} (P : A → Type 0) → ((a : A) → P a) → (xs : List A) → All P xs
All-of P h [] = tt
All-of P h (x ∷ xs) = (h x, All-of P h xs)

-- An event that is no login with the configured name and password.
abbrev pub IsNoSignIn : {R : Type 0} → HttpServerConfig → Event R → Type 0
IsNoSignIn conf (comes r) = Unit
IsNoSignIn conf (serves (login user)) = is_admin conf user ≡ false
IsNoSignIn conf (serves _) = Unit

module _ {R S C W : Type 0} (library : Sessions R S W) (laws : SessionsLaws library)
    (conf : HttpServerConfig) (cookie : String) (cluster : W → Option (HaCluster C))
    (chain : List (Handler R S W) → Handler R S W) (next : ChainLaws chain) where
  never : (e : Event R) → IsNoSignIn conf e → SignsIn conf (λ v. ⊥) e
  never (comes r) h = tt
  never (serves (login user)) h = λ right. ground (arith, right, h)
  never (serves logout) h = tt
  never (serves health) h = tt
  never (serves (health_of id)) h = tt
  never (serves (act id)) h = tt
  never (serves active) h = tt

  by_admin : (e : Event R) → SignsIn conf (λ v. v ≡ text conf.admin_user) e
  by_admin (comes r) = tt
  by_admin (serves (login user)) =
      unfold is_admin in λ right. ground (arith, right, eq_iff user.user_name conf.admin_user)
  by_admin (serves logout) = tt
  by_admin (serves health) = tt
  by_admin (serves (health_of id)) = tt
  by_admin (serves (act id)) = tt
  by_admin (serves active) = tt

  -- Where no store holds a user and no request waits, and then requests come and are served in any order,
  -- none of them a login with the configured name and password, every request that waits gets a 403 for an
  -- action, and the action does not run.
  pub no_login_no_action :
      (es : List (Event R)) (s s' : Serving R S W) (before after : List (Context R S))
      (ctx : Context R S) (id : String)
      → Steps library conf cookie cluster chain es s s'
      → All (IsNoSignIn conf) es
      → ((store : S) → laws.user_of s.world store ≡ none)
      → s.waiting ≡ []
      → s'.waiting ≡ before ++ ctx ∷ after
      → serve library conf cookie cluster chain (act id) ctx s'.world
        ≡ closing library
            (record ctx { written = record { status = 403; body = forbidden } ∷ [] })
            s'.world
  no_login_no_action es s s' before after ctx id run nobody empty idle waits =
      let Q : Any → Type 0 = λ v. ⊥ in
      let start : IsSafe library laws conf cookie cluster chain next Q s = record {
        stores = λ store v e. ground (arith, e, empty store);
        waits = subst (All (IsGood library laws Q)) (sym idle) tt;
      } in
      let end =
        Steps-IsSafe library laws conf cookie cluster chain next Q es s s' run
          (All-mono never es nobody) start in
      let good =
        (All-middle (IsGood library laws Q) before ctx after
          (subst (All (IsGood library laws Q)) waits end.waits)).0 in
      let unsigned : ctx.is_signed_in ≡ false = elim (Bool-cases ctx.is_signed_in) [
        | inl signed ↦ absurd (good.user signed)
        | inr e ↦ e
      ] in
      (action_guarded library conf cookie cluster chain next id ctx s'.world good.fresh).0 unsigned

  -- In every history, a user that a store holds or that is signed in is the configured one.
  pub users_are_admin :
      (es : List (Event R)) (s s' : Serving R S W)
      → Steps library conf cookie cluster chain es s s'
      → ((store : S) → laws.user_of s.world store ≡ none)
      → s.waiting ≡ []
      → ((store : S) (v : Any) → laws.user_of s'.world store ≡ some v → v ≡ text conf.admin_user)
        × All (λ ctx. ctx.is_signed_in ≡ true → ctx.signed_in_user ≡ conf.admin_user) s'.waiting
  users_are_admin es s s' run empty idle =
      let Q : Any → Type 0 = λ v. v ≡ text conf.admin_user in
      let start : IsSafe library laws conf cookie cluster chain next Q s = record {
        stores = λ store v e. ground (arith, e, empty store);
        waits = subst (All (IsGood library laws Q)) (sym idle) tt;
      } in
      let end =
        Steps-IsSafe library laws conf cookie cluster chain next Q es s s' run
          (All-of (SignsIn conf Q) by_admin es) start in
      (
        end.stores,
        All-mono (λ ctx good signed. ground (arith, good.user signed)) s'.waiting end.waits,
      )
