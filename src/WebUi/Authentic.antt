-- ===== src/WebUi/Authentic.antt =====
-- internal/webui/server.go: who is served.
use do_daemon.Prelude.{Bool, Bytes, List, [], some, true, ℕ, ◌+◌, ◌∷◌, ◌≡◌, ◌⊎◌}
use do_daemon.Config.{Config}
use do_daemon.Sessions.{session_ttl}
use do_daemon.WebUi.Site.{
  Happening, Site, WebRequest, login_page, noticed, requested, updated, verb_post,
}
use do_daemon.Acl.{Acl}

module _ {Ip : Type 0} (compare : Bytes → Bytes → Bool) where
  -- A login with the name and the password of a configuration, that was let in and made this session.
  pub record IsLogin (cfg : Config) (r : WebRequest Ip) (session : Bytes × ℕ) : Type 0 where
    pub to_login_page : r.route ≡ login_page
    pub posted : r.verb ≡ verb_post
    pub username : Bytes
    pub password : Bytes
    pub sent : r.form ≡ some (username, password)
    pub is_user : username ≡ cfg.web_ui.auth.username
    pub is_hashed : compare cfg.web_ui.auth.password_hash password ≡ true
    pub token : r.fresh ≡ some session.0
    pub lifetime : session.1 ≡ r.now + session_ttl

module _ {Ip IpNet Item : Type 0} (compare : Bytes → Bytes → Bool) where
  -- One of the requests, under the configuration of its time, was a login that made this session.
  abbrev pub IsFromLogin : Config → List (Happening Ip IpNet Item) → Bytes × ℕ → Type 0
  IsFromLogin cfg [] session = ⊥
  IsFromLogin cfg (requested r ∷ hs) session =
      IsLogin compare cfg r session ⊎ IsFromLogin cfg hs session
  IsFromLogin cfg (updated new acl ∷ hs) session = IsFromLogin new hs session
  IsFromLogin cfg (noticed ev ∷ hs) session = IsFromLogin cfg hs session
