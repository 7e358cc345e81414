-- ===== src/Tests/Sessions.antt =====
-- SFTP.
use do_daemon.Prelude.{
  Bool, Bytes, [], codes, equal, false, length, none, refl, some, true, ℕ, ◌*◌, ◌+◌, ◌∷◌, ◌≡◌, ◌⊎◌,
}
use do_daemon.Sftp.{JailedFs, Os, Request, St, method_mkdir, user_of}
use do_daemon.Sftp.Jailed.{HasActed, IsRefused, call_cmd, perform, perform-IsJailed}
use do_daemon.Sftp.Session.{login}
use do_daemon.Sftp.Logins.{login-Unique}
use do_daemon.Auth.{new_store}
use do_daemon.Config.{FtpUser}
use do_daemon.Ftp.{value}
use do_daemon.Tests.Servers.{shallow_files}

abbrev kim : FtpUser
kim = record {
  username = codes "kim";
  password_hash = codes "#pw";
  home_dir = codes "/srv/ftp";
  permissions = codes "lrm";
}

-- A disk on which every call succeeds; the world counts the calls.
abbrev counting_os : Os ℕ
counting_os = record {
  open_to_read = λ p w. (value 3, w + 1);
  open_file = λ p flags mode w. (value 3, w + 1);
  stat_file = λ h w. value (record { is_dir = false; size = 9 });
  truncate = λ p n w. (value tt, w + 1);
  rename = λ old new w. (value tt, w + 1);
  remove = λ p w. (value tt, w + 1);
  mkdir = λ p mode w. (value tt, w + 1);
  read_dir = λ p w. value [];
  stat = λ p w. value (record { is_dir = false; size = 9 });
  read_at = λ h size off w. ((codes "abc", none), w + 1);
  write_at = λ h p off w. ((length p, none), w + 1);
  close = λ h w. (none, w + 1);
  view = λ w. shallow_files;
  clock = λ w. 100 * w;
}

abbrev kims_jail : JailedFs ℕ
kims_jail = record { os = counting_os; user = user_of kim; cwd = none }

abbrev at_login : St ℕ
at_login = record { world = 0; published = [] }

abbrev a_mkdir : Request
a_mkdir = record {
  method = method_mkdir;
  filepath = codes "/a/../b";
  target = [];
  pflags = record { append = false; trunc = false; excl = false };
  size = none;
}

perform-IsJailed_example :
    IsRefused kims_jail at_login (perform kims_jail (call_cmd a_mkdir) at_login)
    ⊎ HasActed kims_jail (call_cmd a_mkdir) at_login
perform-IsJailed_example = perform-IsJailed kims_jail (call_cmd a_mkdir) at_login

-- The hash of a password is the password behind a "#".
abbrev is_hash : Bytes → Bytes → Bool
is_hash hash password = equal hash (b'#' ∷ password)

kim_logs_in : login is_hash (kim ∷ []) (codes "kim") (codes "pw") ≡ some kim
unfolding login new_store
kim_logs_in = refl

login-Unique_example :
    (kim.username ≡ codes "kim") × (is_hash kim.password_hash (codes "pw") ≡ true)
login-Unique_example =
    login-Unique is_hash (kim ∷ []) (codes "kim") (codes "pw") kim (tt, tt) kim_logs_in
