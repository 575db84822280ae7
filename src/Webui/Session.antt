-- ===== src/Webui/Session.antt =====
-- pkg/webui/websession.go: the session of a request, and the options of the session manager.
use syncflux.Prelude.{String, Bool, Option, none, some, ℤ, pos, str_eq, ◌==◌, if◌then◌else◌}
use syncflux.Go.{Error}

-- A value of type `interface{}`: a string, or what is none.
pub data Any : Type 0 where
  text : String → Any
  other : Any

-- session.Options.
pub record Options : Type 0 where
  pub provider : String
  pub provider_config : String
  pub cookie_name : String
  pub cookie_path : String
  pub gclifetime : ℤ
  pub maxlifetime : ℤ
  pub secure : Bool
  pub cookie_life_time : ℤ
  pub domain : String
  pub id_length : ℤ
  pub section_name : String

unfoldable text_or : String → String → String
text_or default s = if str_eq s "" then default else s

unfoldable number_or : ℤ → ℤ → ℤ
number_or default (pos n) = if n == 0 then default else pos n
number_or default z = z

-- prepareOptions. The life time takes its default from the interval of the collector, which has its own by
-- then.
unfoldable pub prepare_options : Options → Options
unfolding text_or number_or
prepare_options opt =
    let gclifetime = number_or (pos 3600) opt.gclifetime in
    record opt {
      provider = text_or "memory" opt.provider;
      provider_config = text_or "data/sessions" opt.provider_config;
      cookie_name = text_or "syncflux-session" opt.cookie_name;
      cookie_path = text_or "/" opt.cookie_path;
      gclifetime = gclifetime;
      maxlifetime = number_or gclifetime opt.maxlifetime;
      id_length = number_or (pos 16) opt.id_length;
    }

-- SessKeyUserID.
abbrev pub sess_key_user_id : String
sess_key_user_id = "uid"

-- The calls of the session package, on requests `R` and stores `S`: Manager.Start and Manager.Destory, and the
-- methods of RawStore.
pub record Sessions (R S W : Type 0) : Type 0 where
  pub start : R → W → (Option S × Option Error) × W
  pub destroy : R → W → Option Error × W
  pub set : S → String → Any → W → Option Error × W
  pub get : S → String → W → Option Any
  pub id : S → String
  pub release : S → W → Option Error × W

-- SessionWrapper; none is a nil `session`. The manager is a global of the package.
pub record SessionWrapper (S : Type 0) : Type 0 where
  pub session : Option S

module _ {R S W : Type 0} (library : Sessions R S W) where
  unfoldable pub start : R → W → (Option Error × SessionWrapper S) × W
  start r w =
      let (found, w') = library.start r w in
      let s : SessionWrapper S = record { session = found.0 } in ((found.1, s), w')

  unfoldable pub set : SessionWrapper S → String → Any → W → Option Error × W
  set s k v w = elim s.session [ some store ↦ library.set store k v w | none ↦ (none, w) ]

  unfoldable pub get : SessionWrapper S → String → W → Option Any
  get s k w = elim s.session [ some store ↦ library.get store k w | none ↦ none ]

  unfoldable pub id : SessionWrapper S → String
  id s = elim s.session [ some store ↦ library.id store | none ↦ "" ]

  unfoldable pub release : SessionWrapper S → W → Option Error × W
  release s w = elim s.session [ some store ↦ library.release store w | none ↦ (none, w) ]

  -- Destory.
  unfoldable pub destroy : SessionWrapper S → R → W → (Option Error × SessionWrapper S) × W
  destroy s r w = elim s.session [
    | some store ↦
        let (e, w') = library.destroy r w in
        elim e [
          | some error ↦ ((some error, s), w')
          | none ↦ ((none, record { session = none }), w')
        ]
    | none ↦ ((none, s), w)
  ]
