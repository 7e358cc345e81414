-- ===== src/Program/Current.antt =====
-- cmd/dodaemon/main.go: what runs, and what a configuration wants to run.
use do_daemon.Prelude.{Bool, Bytes, Option, [], if◌then◌else◌, map, none, not, some, true, ℕ, ℤ}
use do_daemon.Config.{Config, FtpConfig, SyslogConfig, TlsConfig}
use do_daemon.Tftp.Options.{TftpConfig}
use do_daemon.Acl.{Acl}
use do_daemon.Auth.{Users, is_some, new_store}
use do_daemon.Ftp.Connections.{auth_user_of}
use do_daemon.Program.Services.{Acls, Cell, FtpServer, Program, SftpServer, SyslogServer, WebServer}
use do_daemon.Supervisor.{is_bound}

-- What an FTP server listens on, and what it goes by.
pub record FtpView (IpNet : Type 0) : Type 0 where
  pub listen : Bytes
  pub passive_port_range : ℤ × ℤ
  pub tls : TlsConfig
  pub cfg : FtpConfig
  pub users : Users
  pub acl : Acl IpNet

abbrev pub map_option : {A B : Type 0} → (A → B) → Option A → Option B
map_option f none = none
map_option f (some a) = some (f a)

-- What is seen of a server: what it runs with, and that the supervisor has that very instance.
abbrev pub seen : {A B : Type 0} → (A → B) → (A → ℕ) → Cell A → Option B × Bool
seen view id_of c = (
  map_option view c.srv,
  elim c.srv [ none ↦ not (is_some c.entry) | some a ↦ is_bound (id_of a) c.entry ],
)

abbrev pub wanted : {B : Type 0} → Bool → B → Option B × Bool
wanted enabled b = (if enabled then some b else none, true)

-- What runs, of all servers.
pub record View (IpNet : Type 0) : Type 0 where
  pub ftp : Option (FtpView IpNet) × Bool
  pub sftp : Option (Bytes × FtpConfig × Acl IpNet) × Bool
  pub tftp : Option TftpConfig × Bool
  pub syslog : Option (SyslogConfig × Acl IpNet) × Bool
  pub web : Option ((Bytes × Config) × Acl IpNet) × Bool

module _ {IpNet : Type 0} where
  abbrev pub view_ftp : FtpServer IpNet → FtpView IpNet
  view_ftp f = record {
    listen = f.bound.listen;
    passive_port_range = f.bound.passive_port_range;
    tls = f.bound.tls;
    cfg = f.driver.cfg;
    users = f.driver.store;
    acl = f.driver.acl;
  }

  abbrev pub view_sftp : SftpServer IpNet → Bytes × FtpConfig × Acl IpNet
  view_sftp f = (f.data_dir, f.cfg, f.acl)

  abbrev pub view_syslog : SyslogServer IpNet → SyslogConfig × Acl IpNet
  view_syslog f = (f.cfg, f.acl)

  abbrev pub view_web : WebServer IpNet → (Bytes × Config) × Acl IpNet
  view_web f = ((f.bound.web_ui.listen, f.cfg), f.acl)

  abbrev pub view_of : Program IpNet → View IpNet
  view_of s = record {
    ftp = seen view_ftp (λ f. f.id) s.ftp;
    sftp = seen view_sftp (λ f. f.id) s.sftp;
    tftp = seen (λ f. f.cfg) (λ f. f.id) s.tftp;
    syslog = seen view_syslog (λ f. f.id) s.syslog;
    web = seen view_web (λ f. f.id) s.web;
  }

  abbrev pub ftp_of : FtpConfig → Acl IpNet → FtpView IpNet
  ftp_of cfg acl = record {
    listen = cfg.listen;
    passive_port_range = cfg.passive_port_range;
    tls = cfg.tls;
    cfg = cfg;
    users = new_store (map auth_user_of cfg.users) [];
    acl = acl;
  }

  -- What a configuration and its access lists want to run, with this data directory for SFTP.
  abbrev pub spec : Config → Bytes → Acls IpNet → View IpNet
  spec cfg dir acls = record {
    ftp = wanted cfg.ftp.enabled (ftp_of cfg.ftp acls.for_ftp);
    sftp = wanted cfg.ftp.sftp_enabled (dir, cfg.ftp, acls.for_ftp);
    tftp = wanted cfg.tftp.enabled cfg.tftp;
    syslog = wanted cfg.syslog.enabled (cfg.syslog, acls.for_syslog);
    web = wanted cfg.web_ui.enabled ((cfg.web_ui.listen, cfg), acls.for_web);
  }
