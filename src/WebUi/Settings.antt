-- ===== src/WebUi/Settings.antt =====
-- internal/webui/settings.go: the settings as the browser has them, and their merge into a
-- configuration. `hash i` is `bcrypt` called for account `i`, or for the web interface with the
-- number of accounts; it gives the hash of a password, or `none` for an error. The program is one
-- for a system other than Windows, with no autostart.
use do_daemon.Prelude.{
  Bool, Bytes, List, Option, [], codes, equal, false, if◌then◌else◌, inl, inr, length, map, none,
  some, ℕ, ℤ, ◌+◌, ◌∷◌, ◌⊎◌,
}
use do_daemon.Config.{Config, FtpUser, fixed_hostname, is_empty}
use do_daemon.WebUi.Text.{concat, runes, trim_space}

pub record FtpUserDto : Type 0 where
  pub username : Bytes
  pub new_password : Bytes
  pub home_dir : Bytes
  pub permissions : List Bytes

-- `settingsDTO`
pub record SettingsDto : Type 0 where
  pub data_dir : Bytes
  pub ftp_enabled : Bool
  pub ftp_listen : Bytes
  pub ftp_passive_lo : ℤ
  pub ftp_passive_hi : ℤ
  pub ftp_max_connections : ℤ
  pub ftp_allow_anonymous : Bool
  pub ftp_anonymous_home_dir : Bytes
  pub ftp_tls_enabled : Bool
  pub ftp_tls_cert : Bytes
  pub ftp_tls_key : Bytes
  pub ftp_sftp_enabled : Bool
  pub ftp_sftp_listen : Bytes
  pub ftp_users : List FtpUserDto
  pub ftp_ip_allowlist : List Bytes
  pub tftp_enabled : Bool
  pub tftp_listen : Bytes
  pub tftp_root_dir : Bytes
  pub tftp_allow_read : Bool
  pub tftp_allow_write : Bool
  pub tftp_max_blksize : ℤ
  pub tftp_timeout_sec : ℤ
  pub tftp_max_retries : ℤ
  pub syslog_enabled : Bool
  pub syslog_udp_listen : Bytes
  pub syslog_tcp_listen : Bytes
  pub syslog_log_dir : Bytes
  pub syslog_max_size_mb : ℤ
  pub syslog_max_age_day : ℤ
  pub syslog_compress : Bool
  pub syslog_tls_enabled : Bool
  pub syslog_tls_cert : Bytes
  pub syslog_tls_key : Bytes
  pub syslog_ip_allowlist : List Bytes
  pub web_enabled : Bool
  pub web_listen : Bytes
  pub web_username : Bytes
  pub web_new_password : Bytes
  pub web_ip_allowlist : List Bytes
  pub autostart_available : Bool
  pub autostart_enabled : Bool

-- `autostart.Available` and `autostart.IsEnabled`
abbrev pub available : Bool
available = false

abbrev pub is_enabled : Bool
is_enabled = false

abbrev pub perms_to_string : List Bytes → Bytes
perms_to_string codes = concat codes

abbrev pub string_to_perms : Bytes → List Bytes
string_to_perms s = runes (length s) s

abbrev pub user_dto : FtpUser → FtpUserDto
user_dto u = record {
  username = u.username;
  new_password = [];
  home_dir = u.home_dir;
  permissions = string_to_perms u.permissions;
}

-- `toDTO`
unfoldable pub to_dto : Config → SettingsDto
to_dto cfg = record {
  data_dir = cfg.server.data_dir;
  ftp_enabled = cfg.ftp.enabled;
  ftp_listen = cfg.ftp.listen;
  ftp_passive_lo = cfg.ftp.passive_port_range.0;
  ftp_passive_hi = cfg.ftp.passive_port_range.1;
  ftp_max_connections = cfg.ftp.max_connections;
  ftp_allow_anonymous = cfg.ftp.allow_anonymous;
  ftp_anonymous_home_dir = cfg.ftp.anonymous_home_dir;
  ftp_tls_enabled = cfg.ftp.tls.enabled;
  ftp_tls_cert = cfg.ftp.tls.cert_file;
  ftp_tls_key = cfg.ftp.tls.key_file;
  ftp_sftp_enabled = cfg.ftp.sftp_enabled;
  ftp_sftp_listen = cfg.ftp.sftp_listen;
  ftp_users = map user_dto cfg.ftp.users;
  ftp_ip_allowlist = cfg.ftp.ip_allowlist;
  tftp_enabled = cfg.tftp.enabled;
  tftp_listen = cfg.tftp.listen;
  tftp_root_dir = cfg.tftp.root_dir;
  tftp_allow_read = cfg.tftp.allow_read;
  tftp_allow_write = cfg.tftp.allow_write;
  tftp_max_blksize = cfg.tftp.max_blksize;
  tftp_timeout_sec = cfg.tftp.timeout_sec;
  tftp_max_retries = cfg.tftp.max_retries;
  syslog_enabled = cfg.syslog.enabled;
  syslog_udp_listen = cfg.syslog.udp_listen;
  syslog_tcp_listen = cfg.syslog.tcp_listen;
  syslog_log_dir = cfg.syslog.log_dir;
  syslog_max_size_mb = cfg.syslog.rotate.max_size_mb;
  syslog_max_age_day = cfg.syslog.rotate.max_age_day;
  syslog_compress = cfg.syslog.rotate.compress;
  syslog_tls_enabled = cfg.syslog.tls.enabled;
  syslog_tls_cert = cfg.syslog.tls.cert_file;
  syslog_tls_key = cfg.syslog.tls.key_file;
  syslog_ip_allowlist = cfg.syslog.ip_allowlist;
  web_enabled = cfg.web_ui.enabled;
  web_listen = cfg.web_ui.listen;
  web_username = cfg.web_ui.auth.username;
  web_new_password = [];
  web_ip_allowlist = cfg.web_ui.ip_allowlist;
  autostart_available = available;
  autostart_enabled = is_enabled;
}

unfoldable pub clean_list : List Bytes → List Bytes
unfolding trim_space
clean_list [] = []
clean_list (s ∷ ss) =
    let t = trim_space s in let rest = clean_list ss in if is_empty t then rest else t ∷ rest

-- The map of the accounts' hashes: `found` is what the users before have set.
unfoldable pub existing_hash : List FtpUser → Bytes → Bytes → Bytes
existing_hash [] found name = found
existing_hash (u ∷ us) found name =
    existing_hash us (if equal u.username name then u.password_hash else found) name

pub data DtoError : Type 0 where
  hash_failed : DtoError
  new_account_needs_password : Bytes → DtoError

-- The hash that is kept or made for a password that is given, where one is.
abbrev pub new_hash : (ℕ → Bytes → Option Bytes) → ℕ → Bytes → Bytes → Option Bytes
new_hash hash i old password = if is_empty password then some old else hash i password

module _ (hash : ℕ → Bytes → Option Bytes) (existing : Bytes → Bytes) where
  abbrev pub apply_user : ℕ → FtpUserDto → DtoError ⊎ FtpUser
  apply_user i u = elim (new_hash hash i (existing u.username) u.new_password) [
    | none ↦ inl hash_failed
    | some h ↦
        if is_empty h
        then inl (new_account_needs_password u.username)
        else inr (record {
          username = u.username;
          password_hash = h;
          home_dir = u.home_dir;
          permissions = perms_to_string u.permissions;
        })
  ]

  -- The loop over the accounts, from index `i`.
  unfoldable pub apply_users : ℕ → List FtpUserDto → DtoError ⊎ List FtpUser
  apply_users i [] = inr []
  apply_users i (u ∷ us) = elim (apply_user i u) [
    | inl e ↦ inl e
    | inr w ↦ elim (apply_users (i + 1) us) [ inl e ↦ inl e | inr ws ↦ inr (w ∷ ws) ]
  ]

-- The configuration with these accounts and this hash for the web interface.
abbrev pub merged : Config → SettingsDto → List FtpUser → Bytes → Config
merged base dto users web_hash = record {
  server = record { hostname = fixed_hostname; data_dir = dto.data_dir };
  ftp = record {
    enabled = dto.ftp_enabled;
    listen = dto.ftp_listen;
    passive_port_range = (dto.ftp_passive_lo, dto.ftp_passive_hi);
    tls = record {
      enabled = dto.ftp_tls_enabled;
      cert_file = dto.ftp_tls_cert;
      key_file = dto.ftp_tls_key;
    };
    allow_anonymous = dto.ftp_allow_anonymous;
    anonymous_home_dir = dto.ftp_anonymous_home_dir;
    users = users;
    max_connections = dto.ftp_max_connections;
    ip_allowlist = clean_list dto.ftp_ip_allowlist;
    sftp_enabled = dto.ftp_sftp_enabled;
    sftp_listen = dto.ftp_sftp_listen;
  };
  tftp = record {
    enabled = dto.tftp_enabled;
    listen = dto.tftp_listen;
    root_dir = dto.tftp_root_dir;
    allow_read = dto.tftp_allow_read;
    allow_write = dto.tftp_allow_write;
    max_blksize = dto.tftp_max_blksize;
    timeout_sec = dto.tftp_timeout_sec;
    max_retries = dto.tftp_max_retries;
  };
  syslog = record {
    enabled = dto.syslog_enabled;
    udp_listen = dto.syslog_udp_listen;
    tcp_listen = dto.syslog_tcp_listen;
    tls = record {
      enabled = dto.syslog_tls_enabled;
      cert_file = dto.syslog_tls_cert;
      key_file = dto.syslog_tls_key;
    };
    log_dir = dto.syslog_log_dir;
    rotate = record {
      max_size_mb = dto.syslog_max_size_mb;
      max_age_day = dto.syslog_max_age_day;
      compress = dto.syslog_compress;
    };
    ip_allowlist = clean_list dto.syslog_ip_allowlist;
  };
  web_ui = record {
    enabled = dto.web_enabled;
    listen = dto.web_listen;
    auth = record { username = dto.web_username; password_hash = web_hash };
    ip_allowlist = clean_list dto.web_ip_allowlist;
  };
}

-- `applyDTO`
unfoldable pub apply_dto : (ℕ → Bytes → Option Bytes) → Config → SettingsDto → DtoError ⊎ Config
unfolding apply_users existing_hash clean_list
apply_dto hash base dto =
    elim (apply_users hash (existing_hash base.ftp.users []) 0 dto.ftp_users) [
      | inl e ↦ inl e
      | inr users ↦
          elim (new_hash hash (length dto.ftp_users) base.web_ui.auth.password_hash
            dto.web_new_password) [
              | none ↦ inl hash_failed
              | some h ↦ inr (merged base dto users h)
            ]
    ]
