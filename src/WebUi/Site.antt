-- ===== src/WebUi/Site.antt =====
-- internal/webui/server.go: the requests to the web interface, from the access list through the routes to
-- the logins. `compare` is `bcrypt`'s, whether a hash is that of a password. Behind `requireAuth` a
-- handler is only said to be served; what it does to the configuration comes as `updated`.
use do_daemon.Prelude.{
  Bool, Bytes, List, Option, [], drop, equal, false, if◌then◌else◌, length, ltb, none, some, true,
  ℕ, ◌&&◌, ◌++◌, ◌-◌, ◌∷◌,
}
use do_daemon.Config.{Config}
use do_daemon.Acl.{Acl, NetPackage, allowed}
use do_daemon.Sessions.{Response, SessionStore, create, redirected, require_auth, revoke, served}

-- `Server`, with the events that are kept.
pub record Site (IpNet : Type 0) (Item : Type 0) : Type 0 where
  pub cfg : Config
  pub acl : Acl IpNet
  pub sessions : SessionStore
  pub recent : List Item

-- The routes that `Start` registers: "/static/", "/login", "/logout", and those with `requireAuth`.
pub data Route : Type 0 where
  static_files login_page logout_page protected_page : Route

pub data Verb : Type 0 where
  verb_get verb_post verb_other : Verb

-- A request: the time at which it is handled, its address as `ParseIP` has it, and its cookie and form,
-- where they can be read. `fresh` is the token that a session made for it would have, `none` where
-- `rand.Read` fails.
pub record WebRequest (Ip : Type 0) : Type 0 where
  pub now : ℕ
  pub remote : Option Ip
  pub route : Route
  pub verb : Verb
  pub cookie : Option Bytes
  pub form : Option (Bytes × Bytes)
  pub fresh : Option Bytes

pub data WebAnswer : Type 0 where
  forbidden page to_root to_login unauthorized bad_form bad_verb internal_error handled : WebAnswer

abbrev pub recent_events_cap : ℕ
recent_events_cap = 200

-- One event of `subscribeEvents`.
unfoldable pub remember : {Item : Type 0} → Item → List Item → List Item
remember ev recent =
    let all = recent ++ (ev ∷ []) in
    if ltb recent_events_cap (length all) then drop (length all - recent_events_cap) all else all

-- The test of `aclMiddleware`.
abbrev pub passes_acl : {Ip IpNet : Type 0} → NetPackage Ip IpNet → Acl IpNet → Option Ip → Bool
passes_acl p acl none = true
passes_acl p acl (some ip) = allowed p acl ip

abbrev pub is_password : (Bytes → Bytes → Bool) → Config → Option (Bytes × Bytes) → Bool
is_password compare cfg none = false
is_password compare cfg (some (username, password)) =
    equal username cfg.web_ui.auth.username && compare cfg.web_ui.auth.password_hash password

abbrev pub answer_of : Response → WebAnswer
answer_of served = handled
answer_of redirected = to_login

module _ {IpNet Item : Type 0} where
  -- `New`
  abbrev pub new_site : Config → Acl IpNet → Site IpNet Item
  new_site cfg acl = record { cfg = cfg; acl = acl; sessions = []; recent = [] }

  -- `UpdateConfig`
  abbrev pub update_site : Config → Acl IpNet → Site IpNet Item → Site IpNet Item
  update_site cfg acl s = record s { cfg = cfg; acl = acl }

  abbrev pub with_session :
      SessionStore × Option Bytes → Site IpNet Item → WebAnswer × Site IpNet Item
  with_session (store, none) s = (internal_error, record s { sessions = store })
  with_session (store, some token) s = (to_root, record s { sessions = store })

module _ {Ip IpNet Item : Type 0} where
  -- `handleLogin`
  unfoldable pub handle_login :
      (Bytes → Bytes → Bool) → WebRequest Ip → Site IpNet Item → WebAnswer × Site IpNet Item
  unfolding create
  handle_login compare r s = elim r.verb [
    | verb_get ↦ (page, s)
    | verb_other ↦ (bad_verb, s)
    | verb_post ↦ elim r.form [
      | none ↦ (bad_form, s)
      | some form ↦
          if is_password compare s.cfg (some form)
          then with_session (create r.fresh r.now s.sessions) s
          else (unauthorized, s)
    ]
  ]

  -- `handleLogout`
  unfoldable pub handle_logout : WebRequest Ip → Site IpNet Item → WebAnswer × Site IpNet Item
  unfolding revoke
  handle_logout r s = elim r.cookie [
    | none ↦ (to_login, s)
    | some token ↦ (to_login, record s { sessions = revoke token s.sessions })
  ]

  -- A handler behind `requireAuth`.
  unfoldable pub handle_protected : WebRequest Ip → Site IpNet Item → WebAnswer × Site IpNet Item
  unfolding require_auth
  handle_protected r s =
      let (store, response) = require_auth r.cookie r.now s.sessions in
      (answer_of response, record s { sessions = store })

  abbrev pub by_route :
      (Bytes → Bytes → Bool) → Route → WebRequest Ip → Site IpNet Item → WebAnswer × Site IpNet Item
  by_route compare static_files r s = (page, s)
  by_route compare login_page r s = handle_login compare r s
  by_route compare logout_page r s = handle_logout r s
  by_route compare protected_page r s = handle_protected r s

  -- `aclMiddleware` and the routes behind it.
  unfoldable pub handle_request :
      NetPackage Ip IpNet
      → (Bytes → Bytes → Bool)
      → WebRequest Ip
      → Site IpNet Item
      → WebAnswer × Site IpNet Item
  unfolding handle_login handle_logout handle_protected
  handle_request p compare r s =
      if passes_acl p s.acl r.remote then by_route compare r.route r s else (forbidden, s)

-- What happens to a site, in its order.
pub data Happening (Ip : Type 0) (IpNet : Type 0) (Item : Type 0) : Type 0 where
  requested : WebRequest Ip → Happening Ip IpNet Item
  updated : Config → Acl IpNet → Happening Ip IpNet Item
  noticed : Item → Happening Ip IpNet Item

module _ {Ip IpNet Item : Type 0} (p : NetPackage Ip IpNet) (compare : Bytes → Bytes → Bool) where
  abbrev pub happens : Happening Ip IpNet Item → Site IpNet Item → Site IpNet Item
  happens (requested r) s = (handle_request p compare r s).1
  happens (updated cfg acl) s = update_site cfg acl s
  happens (noticed ev) s = record s { recent = remember ev s.recent }

  abbrev pub after_happenings : List (Happening Ip IpNet Item) → Site IpNet Item → Site IpNet Item
  after_happenings [] s = s
  after_happenings (h ∷ hs) s = after_happenings hs (happens h s)
