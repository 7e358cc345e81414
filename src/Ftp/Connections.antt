-- ===== src/Ftp/Connections.antt =====
-- internal/ftp/driver.go: who may connect and log in, and with which files. `compare` is `bcrypt`'s, as in
-- internal/auth/auth.go; a TLS key pair is a number. What is published is a list, of the event's kind.
use do_daemon.Prelude.{
  Bool, Bytes, List, Option, [], codes, equal, false, if◌then◌else◌, map, none, not, some, true, ℕ,
  ◌++◌, ◌>>=◌, ◌||◌, ◌∷◌,
}
use do_daemon.Auth.{User, Users, authenticate, new_store}
use do_daemon.Acl.{Acl, NetPackage, allowed, is_open}
use do_daemon.Config.{FtpConfig, FtpUser}

abbrev pub anonymous_user : Bytes
anonymous_user = codes "anonymous"

pub data Kind : Type 0 where
  kind_connect kind_disconnect kind_auth kind_error : Kind

-- `driver`; `bus` says whether there is one, and `tls_config` is `nil` for `none`.
pub record Driver (IpNet : Type 0) : Type 0 where
  pub cfg : FtpConfig
  pub store : Users
  pub acl : Acl IpNet
  pub bus : Bool
  pub tls_config : Option ℕ

abbrev pub auth_user_of : FtpUser → User
auth_user_of u = record {
  username = u.username;
  password_hash = u.password_hash;
  home_dir = u.home_dir;
  permissions = u.permissions;
}

-- `net.Addr`: a `*net.TCPAddr`, or another with its string.
pub data Addr (Ip : Type 0) : Type 0 where
  tcp_addr : Ip → Addr Ip
  other_addr : Bytes → Addr Ip

module _ {IpNet : Type 0} where
  unfoldable pub update_config : FtpConfig → Acl IpNet → Driver IpNet → Driver IpNet
  update_config cfg acl d = record d {
    cfg = cfg;
    store = new_store (map auth_user_of cfg.users) [];
    acl = acl;
  }

  -- `newDriver`; `none` is an error.
  unfoldable pub new_driver :
      (Bytes → Bytes → Option ℕ) → FtpConfig → Acl IpNet → Bool → Option (Driver IpNet)
  unfolding update_config
  new_driver load_key_pair cfg acl bus =
      let d : Driver IpNet = record {
        cfg = cfg;
        store = new_store (map auth_user_of cfg.users) [];
        acl = acl;
        bus = bus;
        tls_config = none;
      } in
      if cfg.tls.enabled
      then (do
        cert ← load_key_pair cfg.tls.cert_file cfg.tls.key_file
        some (record d { tls_config = some cert }))
      else some d

  unfoldable pub publish_event : Driver IpNet → Kind → List Kind → List Kind
  publish_event d kind published = if d.bus then published ++ (kind ∷ []) else published

-- `remoteIP`; `none` is `nil`.
unfoldable pub remote_ip :
    {Ip : Type 0} → (Bytes → Option (Bytes × Bytes)) → (Bytes → Option Ip) → Addr Ip → Option Ip
remote_ip split_host_port parse_ip (tcp_addr ip) = some ip
remote_ip split_host_port parse_ip (other_addr s) = do
  (host, port) ← split_host_port s
  parse_ip host

module _ {Ip IpNet : Type 0} (p : NetPackage Ip IpNet) where
  -- `Allowed` of an address that may be `nil`, which no network contains.
  abbrev pub allowed_ip : Acl IpNet → Option Ip → Bool
  allowed_ip acl none = is_open acl
  allowed_ip acl (some ip) = allowed p acl ip

  -- `ClientConnected`, and whether there is no error.
  unfoldable pub client_connected : Driver IpNet → Option Ip → List Kind → Bool × List Kind
  unfolding publish_event
  client_connected d ip published =
      if not (allowed_ip d.acl ip)
      then (false, publish_event d kind_error published)
      else (true, publish_event d kind_connect published)

-- `ClientDisconnected`
unfoldable pub client_disconnected : {IpNet : Type 0} → Driver IpNet → List Kind → List Kind
unfolding publish_event
client_disconnected d published = publish_event d kind_disconnect published

abbrev pub anonymous : FtpConfig → User
anonymous cfg = record {
  username = anonymous_user;
  password_hash = [];
  home_dir = cfg.anonymous_home_dir;
  permissions = codes "lr";
}

module _ {IpNet : Type 0} (compare : Bytes → Bytes → Bool) where
  -- `AuthUser`: the user whose files are served, in the user's home directory; `none` is an error.
  unfoldable pub auth_user : Driver IpNet → Bytes → Bytes → List Kind → Option User × List Kind
  unfolding publish_event authenticate
  auth_user d user pass published =
      let published' = publish_event d kind_auth published in
      if equal user anonymous_user || equal user (codes "ftp")
      then (if d.cfg.allow_anonymous then some (anonymous d.cfg) else none, published')
      else ((authenticate compare d.store user pass).0, published')
