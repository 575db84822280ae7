-- ===== src/Webui/Laws.antt =====
-- What the package relies on: macaron's Next, and the stores of the session package.
use syncflux.Prelude.{List, [], ◌∷◌, Option, none, some, ◌≡◌, ◌⊎◌, if◌then◌else◌, Bool, true, false}
use syncflux.Go.{pure, ◌>>=◌}
use syncflux.Webui.Session.{Any, Sessions, sess_key_user_id}
use syncflux.Webui.Context.{Context, Handler}

abbrev pub is_written : {R S : Type 0} → Context R S → Bool
is_written ctx = elim ctx.written [ [] ↦ false | r ∷ rs ↦ true ]

-- Next runs the handlers left, one after the other, until the response is written.
pub record ChainLaws {R S W : Type 0} (chain : List (Handler R S W) → Handler R S W) : Type 0 where
  pub chain-nil : (ctx : Context R S) (w : W) → chain [] ctx w ≡ pure ctx w
  pub chain-cons :
      (h : Handler R S W) (hs : List (Handler R S W)) (ctx : Context R S) (w : W)
      → chain (h ∷ hs) ctx w
        ≡ (h ctx >>= λ ctx'. if is_written ctx' then pure ctx' else chain hs ctx') w

-- The user that a store holds, apart from the store's own life: a start or a release changes no store, setting
-- changes the one it is called on, if it succeeds, and destroying a session may empty stores.
pub record SessionsLaws {R S W : Type 0} (library : Sessions R S W) : Type 0 where
  pub user_of : W → S → Option Any
  pub get_user : (s : S) (w : W) → library.get s sess_key_user_id w ≡ user_of w s
  pub start_user : (r : R) (w : W) (s : S) → user_of ((library.start r w).1) s ≡ user_of w s
  pub release_user : (s s' : S) (w : W) → user_of ((library.release s w).1) s' ≡ user_of w s'
  pub destroy_user :
      (r : R) (w : W) (s : S)
      → (user_of ((library.destroy r w).1) s ≡ none)
        ⊎ (user_of ((library.destroy r w).1) s ≡ user_of w s)
  pub set_user :
      (s s' : S) (v : Any) (w : W)
      → ((s ≡ s') × (user_of ((library.set s sess_key_user_id v w).1) s' ≡ some v))
        ⊎ (user_of ((library.set s sess_key_user_id v w).1) s' ≡ user_of w s')
  pub set_succeeds :
      (s : S) (v : Any) (w : W)
      → (library.set s sess_key_user_id v w).0 ≡ none
      → user_of ((library.set s sess_key_user_id v w).1) s ≡ some v
