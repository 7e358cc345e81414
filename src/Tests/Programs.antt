-- ===== src/Tests/Programs.antt =====
-- The servers that run for a configuration, and who logs in to the FTP server.
use do_daemon.Prelude.{
  Bool, Bytes, Option, [], codes, equal, false, none, refl, some, true, ℕ, ◌↔◌, ◌∷◌, ◌≡◌,
}
use do_daemon.Config.{Config, FtpConfig, FtpUser, SyslogConfig, default_config}
use do_daemon.Acl.{Acl, NetPackage, new_acl}
use do_daemon.Program.Services.{
  Acls, Cell, FtpServer, Program, acls_of, hot_reload, is_rebound, update_ftp,
}
use do_daemon.Program.Retry.{hot_reload-failed}
use do_daemon.Ftp.Connections.{
  Driver, anonymous, auth_user, auth_user_of, new_driver, update_config,
}
use do_daemon.Ftp.Logins.{IsLogin, anonymous-denied, auth_user-IsLogin}
use do_daemon.Ftp.{PermissionFs, Refusal, call_create, denied, perform}
use do_daemon.Tests.Servers.{at_start, counting}

-- No text is a network or an address.
abbrev no_net : NetPackage Bytes Bytes
no_net = record {
  parse_cidr = λ _. none;
  parse_ip = λ s. none;
  host_net = λ ip bits. ip;
  contains = λ n ip. false;
}

abbrev no_keys : Bytes → Bytes → Option ℕ
no_keys cert key = none

abbrev some_key : Bytes → Bytes → Option ℕ
some_key cert key = some 5

abbrev always : SyslogConfig → Bool
always cfg = true

-- The default configuration with FTP, and then with TFTP too.
abbrev with_ftp : Config
with_ftp = record default_config { ftp = record default_config.ftp { enabled = true } }

abbrev with_tftp : Config
with_tftp = record with_ftp { tftp = record with_ftp.tftp { enabled = true } }

abbrev no_acl : Acl Bytes
no_acl = some ([], [])

abbrev a_driver : FtpConfig → Driver Bytes
a_driver cfg = record { cfg = cfg; store = []; acl = no_acl; bus = true; tls_config = none }

abbrev ftp_started : Cell (FtpServer Bytes)
ftp_started = record {
  srv = some (record { id = 0; bound = with_ftp.ftp; driver = a_driver with_ftp.ftp });
  entry = some 0;
}

abbrev started : Program Bytes
started = record {
  ftp = ftp_started;
  sftp = record { srv = none; entry = none };
  tftp = record { srv = none; entry = none };
  syslog = record { srv = none; entry = none };
  web = record {
    srv = some (record { id = 0; bound = with_ftp; cfg = with_ftp; acl = no_acl });
    entry = some 0;
  };
  next = 1;
  live_cfg = with_ftp;
  shown = with_ftp ∷ [];
}

-- The FTP server with TLS.
abbrev with_tls : Config
with_tls = record with_ftp {
  ftp = record with_ftp.ftp {
    tls = record { enabled = true; cert_file = codes "c"; key_file = codes "k" };
  };
}

abbrev open_acls : Acls Bytes
open_acls = record { for_ftp = no_acl; for_syslog = no_acl; for_web = no_acl }

acls_are_made : acls_of no_net with_tls ≡ some open_acls
unfolding acls_of new_acl
acls_are_made = refl

needs_rebound : is_rebound with_ftp.ftp with_tls.ftp ≡ true
needs_rebound = refl

key_is_missing : new_driver no_keys with_tls.ftp no_acl true ≡ none
unfolding new_driver
key_is_missing = refl

hot_reload-failed_example :
    let t = hot_reload no_net no_keys always true with_tls started in
    (t.ftp ≡ ftp_started)
    × ((hot_reload no_net some_key always true with_tls t).ftp ≡ record ftp_started {
      srv = some (
          update_ftp some_key true with_tls.ftp no_acl
            (record { id = 0; bound = with_ftp.ftp; driver = a_driver with_ftp.ftp }));
    })
hot_reload-failed_example =
    hot_reload-failed no_net always true with_tls open_acls acls_are_made no_keys some_key started
      (record { id = 0; bound = with_ftp.ftp; driver = a_driver with_ftp.ftp }) refl refl
      needs_rebound key_is_missing

-- The hash of a password is the password behind a "#".
abbrev is_hash : Bytes → Bytes → Bool
is_hash hash password = equal hash (b'#' ∷ password)

abbrev kim : FtpUser
kim = record {
  username = codes "kim";
  password_hash = codes "#pw";
  home_dir = codes "/h";
  permissions = codes "lr";
}

abbrev with_kim : FtpConfig
with_kim = record with_ftp.ftp { users = kim ∷ [] }

auth_user-IsLogin_example :
    ((auth_user is_hash
        (update_config with_kim no_acl (a_driver with_ftp.ftp))
        (codes "kim")
        (codes "pw")
        []).0
      ≡ some (auth_user_of kim))
    ↔ IsLogin is_hash with_kim (codes "kim") (codes "pw") (auth_user_of kim)
auth_user-IsLogin_example =
    auth_user-IsLogin is_hash (a_driver with_ftp.ftp) with_kim no_acl (codes "kim") (codes "pw") []
      (auth_user_of kim)

abbrev anonymous_files : PermissionFs ℕ
anonymous_files = record {
  inner = counting;
  root = codes "/srv/ftp";
  user = anonymous with_ftp.ftp;
  has_bus = true;
  cwd = none;
}

anonymous-denied_example :
    (r : Refusal) × (perform anonymous_files (call_create (codes "b")) at_start
      ≡ (denied r, at_start))
anonymous-denied_example =
    anonymous-denied anonymous_files with_ftp.ftp (call_create (codes "b")) at_start refl refl
