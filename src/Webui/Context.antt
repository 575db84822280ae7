-- ===== src/Webui/Context.antt =====
-- pkg/webui/webcontext.go: the context of a request, and who is signed in.
use syncflux.Prelude.{
  ℕ, String, Bool, true, false, none, some, List, [], ◌∷◌, ◌++◌, not, if◌then◌else◌,
}
use syncflux.Go.{ret, panic, Action, pure}
use syncflux.Agent.Cluster.{ClusterStatus}
use syncflux.Webui.Session.{text, other, Sessions, SessionWrapper, sess_key_user_id, start, get}

-- What the handlers put into a response.
pub data Body : Type 0 where
  message : String → Body
  forbidden : Body
  cluster_status : ClusterStatus → Body
  names : List String → Body

pub record Response : Type 0 where
  pub status : ℕ
  pub body : Body

-- Context, with what has been written to the response.
pub record Context (R S : Type 0) : Type 0 where
  pub request : R
  pub signed_in_user : String
  pub session : SessionWrapper S
  pub is_signed_in : Bool
  pub written : List Response

-- ctx.JSON
unfoldable pub json : {R S : Type 0} → ℕ → Body → Context R S → Context R S
json status body ctx = record ctx {
  written = ctx.written ++ record { status = status; body = body } ∷ [];
}

-- A handler changes its context; a panic in it ends the request.
abbrev pub Handler : Type 0 → Type 0 → Type 0 → Type 0
Handler R S W = Context R S → Action W (Context R S)

unfoldable pub access_forbidden : {R S : Type 0} → Context R S → Context R S
unfolding json
access_forbidden = json 403 forbidden

module _ {R S W : Type 0} where
  -- reqSignedIn.
  unfoldable pub req_signed_in : Handler R S W
  unfolding access_forbidden
  req_signed_in ctx = pure (if not ctx.is_signed_in then access_forbidden ctx else ctx)

module _ {R S W : Type 0} (library : Sessions R S W) where
  -- initContextWithUserSessionCookie; it panics where the value is no string. The caller does not look at
  -- its result.
  unfoldable pub init_context_with_user_session_cookie : Handler R S W
  unfolding start get
  init_context_with_user_session_cookie ctx w =
      let (r, w') = start library ctx.request w in
      let ctx' = record ctx { session = r.1 } in
      elim r.0 [
        | some error ↦ (ret ctx', w')
        | none ↦ elim (get library r.1 sess_key_user_id w') [
          | none ↦ (ret ctx', w')
          | some (text user) ↦
              (ret (record ctx' { signed_in_user = user; is_signed_in = true }), w')
          | some other ↦ (panic, w')
        ]
      ]

  -- GetContextHandler.
  unfoldable pub get_context_handler : R → Action W (Context R S)
  unfolding init_context_with_user_session_cookie
  get_context_handler r = init_context_with_user_session_cookie (record {
    request = r;
    signed_in_user = "";
    session = record { session = none };
    is_signed_in = false;
    written = [];
  })
