-- ===== src/Program/Services.antt =====
-- cmd/dodaemon/main.go: the servers of `newRunFunc`, as variables of the program and as registered with
-- the supervisor.
use do_daemon.Prelude.{
  Bool, Bytes, List, Option, [], equal, false, if◌then◌else◌, none, not, some, true, ℕ, ◌&&◌, ◌++◌,
  ◌+◌, ◌>>=◌, ◌∷◌,
}
use do_daemon.Config.{Config, FtpConfig, SyslogConfig}
use do_daemon.Tftp.Options.{TftpConfig}
use do_daemon.Acl.{Acl, AclResult, NetPackage, made, new_acl, refused}
use do_daemon.Ftp.Connections.{Driver, new_driver, update_config}
use do_daemon.Program.Equality.{
  same_bool, same_ftp, same_list, same_range, same_syslog, same_tftp, same_tls,
}

-- The instances: `bound` is the configuration that an instance was made with.
pub record FtpServer (IpNet : Type 0) : Type 0 where
  pub id : ℕ
  pub bound : FtpConfig
  pub driver : Driver IpNet

pub record SftpServer (IpNet : Type 0) : Type 0 where
  pub id : ℕ
  pub cfg : FtpConfig
  pub data_dir : Bytes
  pub acl : Acl IpNet

pub record TftpServer : Type 0 where
  pub id : ℕ
  pub cfg : TftpConfig

pub record SyslogServer (IpNet : Type 0) : Type 0 where
  pub id : ℕ
  pub cfg : SyslogConfig
  pub acl : Acl IpNet

pub record WebServer (IpNet : Type 0) : Type 0 where
  pub id : ℕ
  pub bound : Config
  pub cfg : Config
  pub acl : Acl IpNet

-- A variable like `ftpSrv`, and the number of the instance that the supervisor has under its name;
-- `none` is `nil`, and no entry.
pub record Cell (A : Type 0) : Type 0 where
  pub srv : Option A
  pub entry : Option ℕ

-- The servers, a number that no instance has yet, `liveCfg`, and the configurations that `onReload` has
-- been called with.
pub record Program (IpNet : Type 0) : Type 0 where
  pub ftp : Cell (FtpServer IpNet)
  pub sftp : Cell (SftpServer IpNet)
  pub tftp : Cell TftpServer
  pub syslog : Cell (SyslogServer IpNet)
  pub web : Cell (WebServer IpNet)
  pub next : ℕ
  pub live_cfg : Config
  pub shown : List Config

abbrev pub is_some : {A : Type 0} → Option A → Bool
is_some none = false
is_some (some a) = true

-- `NewACL`; `none` is an error.
abbrev pub acl_of : {IpNet : Type 0} → AclResult IpNet → Option (Acl IpNet)
acl_of (made allow deny) = some (some (allow, deny))
acl_of (refused e) = none

-- `Remove`, and the variable set to `nil`; and `Replace`, or `Add`, with the variable set.
abbrev pub removed : {A : Type 0} → Cell A
removed = record { srv = none; entry = none }

abbrev pub replaced : {A : Type 0} → ℕ → A → Cell A
replaced n a = record { srv = some a; entry = some n }

abbrev pub is_rebound : FtpConfig → FtpConfig → Bool
is_rebound old new = not (
    equal old.listen new.listen
    && same_range old.passive_port_range new.passive_port_range
    && same_tls old.tls new.tls
    && same_list equal old.ip_allowlist new.ip_allowlist)

module _ {IpNet : Type 0} (load_key_pair : Bytes → Bytes → Option ℕ) (bus : Bool) where
  -- `ftp.New`, and the instance in place, with the number `n`; an error leaves everything as it was.
  unfoldable pub renew_ftp :
      FtpConfig → Acl IpNet → ℕ → Cell (FtpServer IpNet) → Cell (FtpServer IpNet)
  renew_ftp new acl n c = elim (new_driver load_key_pair new acl bus) [
    | none ↦ c
    | some d ↦ replaced n (record { id = n; bound = new; driver = d })
  ]

  abbrev pub update_ftp : FtpConfig → Acl IpNet → FtpServer IpNet → FtpServer IpNet
  update_ftp new acl f = record f { driver = update_config new acl f.driver }

  unfoldable pub reload_ftp :
      FtpConfig → FtpConfig → Acl IpNet → ℕ → Cell (FtpServer IpNet) → Cell (FtpServer IpNet)
  unfolding renew_ftp
  reload_ftp old new acl n c = elim c.srv [
    | some f ↦
        if not new.enabled
        then removed
        else if is_rebound old new
        then renew_ftp new acl n c
        else record c { srv = some (update_ftp new acl f) }
    | none ↦ if new.enabled then renew_ftp new acl n c else c
  ]

module _ {IpNet : Type 0} where
  unfoldable pub renew_sftp : Config → Acl IpNet → ℕ → Cell (SftpServer IpNet)
  renew_sftp new acl n =
      replaced n (record { id = n; cfg = new.ftp; data_dir = new.server.data_dir; acl = acl })

  unfoldable pub reload_sftp :
      Config → Config → Acl IpNet → ℕ → Cell (SftpServer IpNet) → Cell (SftpServer IpNet)
  unfolding renew_sftp
  reload_sftp old new acl n c = elim c.srv [
    | some f ↦
        if not new.ftp.sftp_enabled
        then removed
        else if not (same_ftp old.ftp new.ftp)
        then renew_sftp new acl n
        else c
    | none ↦ if new.ftp.sftp_enabled then renew_sftp new acl n else c
  ]

abbrev pub renew_tftp : TftpConfig → ℕ → Cell TftpServer
renew_tftp new n = replaced n (record { id = n; cfg = new })

unfoldable pub reload_tftp : TftpConfig → TftpConfig → ℕ → Cell TftpServer → Cell TftpServer
reload_tftp old new n c = elim c.srv [
  | some f ↦
      if not new.enabled then removed else if not (same_tftp old new) then renew_tftp new n else c
  | none ↦ if new.enabled then renew_tftp new n else c
]

module _ {IpNet : Type 0} (opens : SyslogConfig → Bool) where
  -- `syslogsrv.New`, and the instance in place; an error leaves everything as it was.
  unfoldable pub renew_syslog :
      SyslogConfig → Acl IpNet → ℕ → Cell (SyslogServer IpNet) → Cell (SyslogServer IpNet)
  renew_syslog new acl n c =
      if opens new then replaced n (record { id = n; cfg = new; acl = acl }) else c

  unfoldable pub reload_syslog :
      SyslogConfig
      → SyslogConfig
      → Acl IpNet
      → ℕ
      → Cell (SyslogServer IpNet)
      → Cell (SyslogServer IpNet)
  unfolding renew_syslog
  reload_syslog old new acl n c = elim c.srv [
    | some f ↦
        if not new.enabled
        then removed
        else if not (same_syslog old new)
        then renew_syslog new acl n c
        else c
    | none ↦ if new.enabled then renew_syslog new acl n c else c
  ]

module _ {IpNet : Type 0} where
  unfoldable pub renew_web : Config → Acl IpNet → ℕ → Cell (WebServer IpNet)
  renew_web new acl n = replaced n (record { id = n; bound = new; cfg = new; acl = acl })

  unfoldable pub reload_web :
      Config → Config → Acl IpNet → ℕ → Cell (WebServer IpNet) → Cell (WebServer IpNet)
  unfolding renew_web
  reload_web old new acl n c = elim c.srv [
    | some f ↦
        if not new.web_ui.enabled
        then removed
        else if not (equal old.web_ui.listen new.web_ui.listen)
        then renew_web new acl n
        else record c { srv = some (record f { cfg = new; acl = acl }) }
    | none ↦ if new.web_ui.enabled then renew_web new acl n else c
  ]

-- The access lists of the FTP, syslog and web servers.
pub record Acls (IpNet : Type 0) : Type 0 where
  pub for_ftp : Acl IpNet
  pub for_syslog : Acl IpNet
  pub for_web : Acl IpNet

-- `none` is an error of one of them.
unfoldable pub acls_of : {Ip IpNet : Type 0} → NetPackage Ip IpNet → Config → Option (Acls IpNet)
acls_of p cfg = do
  f ← acl_of (new_acl p cfg.ftp.ip_allowlist [])
  s ← acl_of (new_acl p cfg.syslog.ip_allowlist [])
  w ← acl_of (new_acl p cfg.web_ui.ip_allowlist [])
  some (record { for_ftp = f; for_syslog = s; for_web = w })

module _ {Ip IpNet : Type 0} (p : NetPackage Ip IpNet) (load_key_pair : Bytes → Bytes → Option ℕ)
    (opens : SyslogConfig → Bool) (bus : Bool) where
  -- The callback of the watcher, where the access lists are given.
  unfoldable pub apply_config : Config → Acls IpNet → Program IpNet → Program IpNet
  unfolding reload_ftp reload_sftp reload_tftp reload_syslog reload_web
  apply_config new acls s =
      let old = s.live_cfg in
      record {
        ftp = reload_ftp load_key_pair bus old.ftp new.ftp acls.for_ftp s.next s.ftp;
        sftp = reload_sftp old new acls.for_ftp s.next s.sftp;
        tftp = reload_tftp old.tftp new.tftp s.next s.tftp;
        syslog = reload_syslog opens old.syslog new.syslog acls.for_syslog s.next s.syslog;
        web = reload_web old new acls.for_web s.next s.web;
        next = s.next + 1;
        live_cfg = new;
        shown = s.shown ++ (new ∷ []);
      }

  -- The callback of the watcher.
  unfoldable pub hot_reload : Config → Program IpNet → Program IpNet
  unfolding acls_of apply_config
  hot_reload new s = elim (acls_of p new) [ none ↦ s | some acls ↦ apply_config new acls s ]

  -- The server is in place if it is enabled, and not if it is not.
  abbrev pub as_wanted : {A : Type 0} → Bool → Cell A → Bool
  as_wanted wanted c = same_bool wanted (is_some c.srv)

  abbrev pub when : {A : Type 0} → Bool → Cell A → Cell A
  when wanted c = if wanted then c else removed

  -- `newRunFunc` up to `Run`, where the access lists are given; `none` is an error. What is done to
  -- servers that are given up with it is left out.
  unfoldable pub start_with : Config → Acls IpNet → Option (Program IpNet)
  unfolding renew_ftp renew_sftp renew_syslog renew_web
  start_with cfg acls =
      let ftp = when cfg.ftp.enabled (renew_ftp load_key_pair bus cfg.ftp acls.for_ftp 0 removed) in
      let syslog =
        when cfg.syslog.enabled (renew_syslog opens cfg.syslog acls.for_syslog 0 removed) in
      if as_wanted cfg.ftp.enabled ftp && as_wanted cfg.syslog.enabled syslog
      then some (record {
        ftp = ftp;
        sftp = when cfg.ftp.sftp_enabled (renew_sftp cfg acls.for_ftp 0);
        tftp = when cfg.tftp.enabled (renew_tftp cfg.tftp 0);
        syslog = syslog;
        web = when cfg.web_ui.enabled (renew_web cfg acls.for_web 0);
        next = 1;
        live_cfg = cfg;
        shown = cfg ∷ [];
      })
      else none

  unfoldable pub start : Config → Option (Program IpNet)
  unfolding acls_of start_with
  start cfg = acls_of p cfg >>= start_with cfg
