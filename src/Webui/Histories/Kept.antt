-- ===== src/Webui/Histories/Kept.antt =====
-- What the handlers leave of the users that the stores hold.
use mathlib.Core.Path.{subst}
use syncflux.Prelude.{arith, String, [], some, ◌≡◌, true, inl, inr, Option-cases, Bool-cases}
use syncflux.Go.{ret, Outcome-cases}
use syncflux.Config.{HttpServerConfig}
use syncflux.Webui.Session.{Any, text, Sessions, start, get, set, release, destroy}
use syncflux.Webui.Context.{
  Context, Handler, get_context_handler, init_context_with_user_session_cookie,
}
use syncflux.Webui.Server.{
  UserLogin, is_admin, my_login_handler, my_logout_handler, closing, sessioner,
}
use syncflux.Webui.Laws.{SessionsLaws}

module _ {R S W : Type 0} (library : Sessions R S W) (laws : SessionsLaws library)
    (Q : Any → Type 0) where
  -- Every user that a store holds satisfies `Q`.
  abbrev pub Holds : W → Type 0
  Holds w = (s : S) (v : Any) → laws.user_of w s ≡ some v → Q v

  pub closing-Holds : (ctx : Context R S) (w : W) → Holds w → Holds ((closing library ctx w).1)
  unfolding closing release
  closing-Holds ctx w h s v e = elim (Option-cases ctx.session.session) [
    | inl none_of ↦ h s v (ground (arith, e, none_of))
    | inr (store, one) ↦ h s v (
        ground
          (arith, e, one, laws.release_user store s w, Option-cases ((library.release store w).0)))
  ]

  pub sessioner-Holds :
      (f : Handler R S W) (ctx : Context R S) (w : W)
      → Holds ((f ctx w).1)
      → Holds ((sessioner library f ctx w).1)
  unfolding sessioner
  sessioner-Holds f ctx w h = elim (Outcome-cases ((f ctx w).0)) [
    | inl e ↦ λ s v o. h s v (ground (arith, e, o))
    | inr (ctx', e) ↦ λ s v o. closing-Holds ctx' ((f ctx w).1) h s v (ground (arith, e, o))
  ]

  pub my_logout_handler-Holds :
      (ctx : Context R S) (w : W) → Holds w → Holds ((my_logout_handler library ctx w).1)
  unfolding my_logout_handler destroy
  my_logout_handler-Holds ctx w h s v e = elim (Option-cases ctx.session.session) [
    | inl none_of ↦ h s v (ground (arith, e, none_of))
    | inr (store, one) ↦ h s v (
        ground (
          arith,
          e,
          one,
          laws.destroy_user ctx.request w s,
          Option-cases ((library.destroy ctx.request w).0),
        ))
  ]

  pub my_login_handler-Holds :
      (conf : HttpServerConfig) (cookie : String) (user : UserLogin) (ctx : Context R S) (w : W)
      → (is_admin conf user ≡ true → Q (text user.user_name))
      → Holds w
      → Holds ((my_login_handler library conf cookie user ctx w).1)
  unfolding my_login_handler set
  my_login_handler-Holds conf cookie user ctx w q h s v e = elim (Bool-cases (is_admin conf user)) [
    | inl right ↦ elim (Option-cases ctx.session.session) [
      | inl none_of ↦ h s v (ground (arith, e, right, none_of))
      | inr (store, one) ↦ elim (laws.set_user store s (text user.user_name) w) [
        | inl (same, changed) ↦
            let is_user : text user.user_name ≡ v = ground (arith, e, right, one, changed) in
            subst Q is_user (q right)
        | inr kept ↦ h s v (ground (arith, e, right, one, kept))
      ]
    ]
    | inr wrong ↦ h s v (ground (arith, e, wrong))
  ]

  pub get_context_handler-Holds :
      (r : R) (w : W) → Holds w → Holds ((get_context_handler library r w).1)
  unfolding get_context_handler init_context_with_user_session_cookie start get
  get_context_handler-Holds r w h s v e = h s v (ground (arith, e, laws.start_user r w s))

  -- A request that has come: nothing is written, and who is signed in satisfies `Q`.
  pub record IsGood (ctx : Context R S) : Type 0 where
    pub user : ctx.is_signed_in ≡ true → Q (text ctx.signed_in_user)
    pub fresh : ctx.written ≡ []

  pub get_context_handler-IsGood :
      (r : R) (w : W) (ctx : Context R S)
      → Holds w
      → (get_context_handler library r w).0 ≡ ret ctx
      → IsGood ctx
  unfolding get_context_handler init_context_with_user_session_cookie start get
  get_context_handler-IsGood r w ctx h e =
      let w' = (library.start r w).1 in
      record {
        user = λ signed. elim (Option-cases ((library.start r w).0.1)) [
          | inr (error, failed) ↦ absurd (ground (arith, e, signed, failed))
          | inl ok ↦ elim (Option-cases ((library.start r w).0.0)) [
            | inl none_of ↦ absurd (ground (arith, e, signed, ok, none_of))
            | inr (store, one) ↦ h store (text ctx.signed_in_user) (
                ground
                  (arith, e, signed, ok, one, laws.get_user store w', laws.start_user r w store))
          ]
        ];
        fresh = ground (arith, e);
      }
