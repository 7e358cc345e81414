-- ===== src/Config.antt =====
-- internal/config/config.go: the configuration, its defaults, `Load` and `Validate`. `net.SplitHostPort`,
-- `net.ParseCIDR`, `net.ParseIP`, the file system and YAML are the record `Host`, over a world `W`.
pub mod Validated
pub mod Accounts
use do_daemon.Prelude.{
  Bool, Bytes, List, Option, [], codes, equal, false, if◌then◌else◌, inl, inr, int_lt, lt_int, ltb,
  negsuc, none, not, pos, some, true, ℕ, ℤ, ◌&&◌, ◌+◌, ◌||◌, ◌∷◌, ◌⊎◌,
}
use do_daemon.Tftp.Options.{TftpConfig}

abbrev pub fixed_hostname : Bytes
fixed_hostname = codes "DoDaeMon"

pub record ServerConfig : Type 0 where
  pub hostname : Bytes
  pub data_dir : Bytes

pub record TlsConfig : Type 0 where
  pub enabled : Bool
  pub cert_file : Bytes
  pub key_file : Bytes

pub record FtpUser : Type 0 where
  pub username : Bytes
  pub password_hash : Bytes
  pub home_dir : Bytes
  pub permissions : Bytes

pub record FtpConfig : Type 0 where
  pub enabled : Bool
  pub listen : Bytes
  pub passive_port_range : ℤ × ℤ
  pub tls : TlsConfig
  pub allow_anonymous : Bool
  pub anonymous_home_dir : Bytes
  pub users : List FtpUser
  pub max_connections : ℤ
  pub ip_allowlist : List Bytes
  pub sftp_enabled : Bool
  pub sftp_listen : Bytes

pub record RotateConfig : Type 0 where
  pub max_size_mb : ℤ
  pub max_age_day : ℤ
  pub compress : Bool

pub record SyslogConfig : Type 0 where
  pub enabled : Bool
  pub udp_listen : Bytes
  pub tcp_listen : Bytes
  pub tls : TlsConfig
  pub log_dir : Bytes
  pub rotate : RotateConfig
  pub ip_allowlist : List Bytes

pub record WebUiAuth : Type 0 where
  pub username : Bytes
  pub password_hash : Bytes

pub record WebUiConfig : Type 0 where
  pub enabled : Bool
  pub listen : Bytes
  pub auth : WebUiAuth
  pub ip_allowlist : List Bytes

pub record Config : Type 0 where
  pub server : ServerConfig
  pub ftp : FtpConfig
  pub tftp : TftpConfig
  pub syslog : SyslogConfig
  pub web_ui : WebUiConfig

abbrev no_tls : TlsConfig
no_tls = record { enabled = false; cert_file = []; key_file = [] }

-- `Default`
abbrev pub default_config : Config
default_config = record {
  server = record { hostname = fixed_hostname; data_dir = codes "./data" };
  ftp = record {
    enabled = false;
    listen = codes "0.0.0.0:21";
    passive_port_range = (pos 50000, pos 50100);
    tls = no_tls;
    allow_anonymous = false;
    anonymous_home_dir = [];
    users = [];
    max_connections = pos 100;
    ip_allowlist = [];
    sftp_enabled = false;
    sftp_listen = codes "0.0.0.0:2222";
  };
  tftp = record {
    enabled = false;
    listen = codes "0.0.0.0:69";
    root_dir = codes "./data/tftp";
    allow_read = true;
    allow_write = false;
    max_blksize = pos 65464;
    timeout_sec = pos 3;
    max_retries = pos 5;
  };
  syslog = record {
    enabled = false;
    udp_listen = codes "0.0.0.0:514";
    tcp_listen = [];
    tls = no_tls;
    log_dir = codes "./data/syslog";
    rotate = record { max_size_mb = pos 100; max_age_day = pos 30; compress = true };
    ip_allowlist = [];
  };
  web_ui = record {
    enabled = true;
    listen = codes "127.0.0.1:8080";
    auth = record { username = []; password_hash = [] };
    ip_allowlist = [];
  };
}

-- `stat` says whether a path is a directory, `none` for an error; `read_file` and `unmarshal` are
-- `none` for an error too, and `unmarshal` fills in a configuration that it is given.
pub record Host (W : Type 0) : Type 0 where
  pub split_host_port : Bytes → Option (Bytes × Bytes)
  pub parse_cidr : Bytes → Bool
  pub parse_ip : Bytes → Bool
  pub stat : Bytes → W → Option Bool
  pub mkdir_all : Bytes → W → Bool × W
  pub read_file : Bytes → W → Option Bytes
  pub unmarshal : Bytes → Config → Option Config

-- The errors, with the field that they name.
pub data Problem : Type 0 where
  empty : Bytes → Problem
  bad_address : Bytes → Problem
  missing_port : Bytes → Problem
  tls_files_required : Bytes → Problem
  no_cert_file : Bytes → Problem
  no_key_file : Bytes → Problem
  bad_entry : Bytes → Bytes → Problem
  bad_port_range : Problem
  empty_username : ℕ → Problem
  empty_home_dir : ℕ → Problem
  listen_clash : Problem
  root_not_directory : Problem
  root_not_usable : Problem
  max_blksize_out_of_range : Problem
  timeout_sec_out_of_range : Problem
  max_retries_out_of_range : Problem
  no_syslog_listen : Problem
  cannot_read : Problem
  cannot_parse : Problem

abbrev pub is_empty : Bytes → Bool
is_empty s = equal s []

-- `if err := ...; err != nil { return err }`
abbrev pub first : Option Problem → Option Problem → Option Problem
first (some p) rest = some p
first none rest = rest

abbrev pub fail_if : Bool → Problem → Option Problem
fail_if b p = if b then some p else none

abbrev pub only_if : Bool → Option Problem → Option Problem
only_if b checks = if b then checks else none

-- `i > j` of two `int`s.
abbrev pub int_above : ℤ → ℤ → Bool
int_above (pos m) (pos n) = ltb n m
int_above (pos m) (negsuc n) = true
int_above (negsuc m) (pos n) = false
int_above (negsuc m) (negsuc n) = ltb m n

module _ {W : Type 0} (host : Host W) where
  unfoldable pub validate_listen_addr : Bytes → Bytes → Option Problem
  validate_listen_addr field addr =
      first (fail_if (is_empty addr) (empty field)) (elim (host.split_host_port addr) [
        | none ↦ some (bad_address field)
        | some (h, port) ↦ fail_if (is_empty port) (missing_port field)
      ])

  -- What is left of a call of `Stat` that is only asked for its error.
  abbrev pub exists_file : Bytes → W → Bool
  exists_file path w = elim (host.stat path w) [ none ↦ false | some d ↦ true ]

  unfoldable pub validate_tls_files : Bytes → TlsConfig → W → Option Problem
  validate_tls_files field t w =
      first (fail_if (is_empty t.cert_file || is_empty t.key_file) (tls_files_required field)) (
        first (fail_if (not (exists_file t.cert_file w)) (no_cert_file field))
          (fail_if (not (exists_file t.key_file w)) (no_key_file field)))

  unfoldable pub validate_cidr_list : Bytes → List Bytes → Option Problem
  validate_cidr_list field [] = none
  validate_cidr_list field (e ∷ es) =
      first (fail_if (not (host.parse_cidr e) && not (host.parse_ip e)) (bad_entry field e))
        (validate_cidr_list field es)

-- The loop over the users, from index `i`.
unfoldable pub validate_users : ℕ → List FtpUser → Option Problem
validate_users i [] = none
validate_users i (u ∷ us) =
    first (fail_if (is_empty u.username) (empty_username i))
      (first (fail_if (is_empty u.home_dir) (empty_home_dir i)) (validate_users (i + 1) us))

-- `lo <= 0 || hi <= 0 || lo > hi || hi > 65535`
abbrev pub is_bad_range : ℤ → ℤ → Bool
is_bad_range lo hi = int_lt lo 1 || (int_lt hi 1 || (int_above lo hi || lt_int 65535 hi))

module _ {W : Type 0} (host : Host W) where
  unfoldable pub validate_ftp : FtpConfig → W → Option Problem
  unfolding validate_listen_addr validate_tls_files validate_cidr_list validate_users
  validate_ftp ftp w = first (validate_listen_addr host (codes "ftp.listen") ftp.listen) (
      first
        (fail_if (is_bad_range ftp.passive_port_range.0 ftp.passive_port_range.1) bad_port_range)
        (first (only_if ftp.tls.enabled (validate_tls_files host (codes "ftp.tls") ftp.tls w)) (
          first (validate_users 0 ftp.users) (
            first (validate_cidr_list host (codes "ftp.ip_allowlist") ftp.ip_allowlist) (
              only_if ftp.sftp_enabled (
                first (validate_listen_addr host (codes "ftp.sftp_listen") ftp.sftp_listen)
                  (fail_if (equal ftp.sftp_listen ftp.listen) listen_clash)))))))

  -- The root directory is made where there is none.
  unfoldable pub usable_root : Bytes → W → Option Problem × W
  usable_root root_dir w = elim (host.stat root_dir w) [
    | none ↦ let (made, w') = host.mkdir_all root_dir w in (fail_if (not made) root_not_usable, w')
    | some is_dir ↦ (fail_if (not is_dir) root_not_directory, w)
  ]

  abbrev pub is_outside : ℤ → ℕ → ℕ → Bool
  is_outside i lo hi = int_lt i lo || lt_int hi i

  unfoldable pub validate_limits : TftpConfig → Option Problem
  validate_limits tftp =
      first (fail_if (is_outside tftp.max_blksize 8 65464) max_blksize_out_of_range) (
        first (fail_if (is_outside tftp.timeout_sec 1 255) timeout_sec_out_of_range)
          (fail_if (is_outside tftp.max_retries 1 20) max_retries_out_of_range))

  -- Early returns leave the world as it is.
  abbrev pub stop_or : Option Problem → W → Option Problem × W → Option Problem × W
  stop_or none w rest = rest
  stop_or (some p) w rest = (some p, w)

  unfoldable pub validate_tftp : TftpConfig → W → Option Problem × W
  unfolding validate_listen_addr usable_root validate_limits
  validate_tftp tftp w =
      stop_or
        (first (validate_listen_addr host (codes "tftp.listen") tftp.listen)
          (fail_if (is_empty tftp.root_dir) (empty (codes "tftp.root_dir"))))
        w (let (p, w') = usable_root tftp.root_dir w in (first p (validate_limits tftp), w'))

  unfoldable pub validate_syslog : SyslogConfig → W → Option Problem
  unfolding validate_listen_addr validate_tls_files validate_cidr_list
  validate_syslog syslog w =
      first (fail_if (is_empty syslog.udp_listen && is_empty syslog.tcp_listen) no_syslog_listen) (
        first
          (only_if (not (is_empty syslog.udp_listen))
            (validate_listen_addr host (codes "syslog.udp_listen") syslog.udp_listen))
          (first
            (only_if (not (is_empty syslog.tcp_listen)) (
              first (validate_listen_addr host (codes "syslog.tcp_listen") syslog.tcp_listen) (
                only_if syslog.tls.enabled
                  (validate_tls_files host (codes "syslog.tls") syslog.tls w))))
            (validate_cidr_list host (codes "syslog.ip_allowlist") syslog.ip_allowlist)))

  unfoldable pub validate_web_ui : WebUiConfig → Option Problem
  unfolding validate_listen_addr validate_cidr_list
  validate_web_ui web_ui =
      first (validate_listen_addr host (codes "webui.listen") web_ui.listen)
        (validate_cidr_list host (codes "webui.ip_allowlist") web_ui.ip_allowlist)

  -- `Validate`: its first error, and the world behind it.
  unfoldable pub validate : Config → W → Option Problem × W
  unfolding validate_ftp validate_tftp validate_syslog validate_web_ui
  validate c w =
      stop_or
        (first (fail_if (is_empty c.server.data_dir) (empty (codes "server.data_dir")))
          (only_if c.ftp.enabled (validate_ftp c.ftp w)))
        w
        (let (p, w') = if c.tftp.enabled then validate_tftp c.tftp w else (none, w) in
          (
            first p (
                first (only_if c.syslog.enabled (validate_syslog c.syslog w'))
                  (only_if c.web_ui.enabled (validate_web_ui c.web_ui))),
            w',
          ))

  -- `cfg.Server.Hostname = FixedHostname`
  abbrev pub with_hostname : Config → Config
  with_hostname c = record c { server = record c.server { hostname = fixed_hostname } }

  abbrev pub checked : Config → Option Problem × W → (Problem ⊎ Config) × W
  checked c (none, w) = (inr c, w)
  checked c (some p, w) = (inl p, w)

  -- `Load`
  unfoldable pub load : Bytes → W → (Problem ⊎ Config) × W
  unfolding validate
  load path w = elim (host.read_file path w) [
    | none ↦ (inl cannot_read, w)
    | some bytes ↦ elim (host.unmarshal bytes default_config) [
      | none ↦ (inl cannot_parse, w)
      | some c ↦ checked (with_hostname c) (validate (with_hostname c) w)
    ]
  ]
