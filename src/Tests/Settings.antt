-- ===== src/Tests/Settings.antt =====
-- The settings of the web interface, and the servers that run for a configuration.
use do_daemon.Prelude.{
  Bytes, Option, [], arith, codes, equal, false, if◌then◌else◌, inr, length, none, refl, some, true,
  ℕ, ◌∷◌, ◌≡◌,
}
use do_daemon.Config.{Config, Host, default_config}
use do_daemon.Acl.{NetPackage}
use do_daemon.WebUi.Settings.{SettingsDto, apply_dto, clean_list, to_dto}
use do_daemon.WebUi.RoundTrip.{AreClean, apply_dto-to_dto}
use do_daemon.WebUi.Passwords.{AreSecured, IsRenewed, apply_dto-AreSecured}
use do_daemon.WebUi.Saving.{Disk, SettingsState}
use do_daemon.WebUi.Text.{trim_space}

-- A configuration with one account and one entry in an access list.
abbrev pub one_account : Config
one_account = record default_config {
  ftp = record default_config.ftp {
    users =
        (record {
          username = codes "kim";
          password_hash = codes "#pw";
          home_dir = codes "/h";
          permissions = codes "lr";
        })
        ∷ [];
    ip_allowlist = codes "10.0.0.1" ∷ [];
  };
}

-- The hash of a password is the password behind a "#".
abbrev make_hash : ℕ → Bytes → Option Bytes
make_hash n password = some (b'#' ∷ password)

entry_is_clean : AreClean (codes "10.0.0.1" ∷ [])
unfolding trim_space
entry_is_clean = ((refl, refl), tt)

apply_dto-to_dto_example : apply_dto make_hash one_account (to_dto one_account) ≡ inr one_account
apply_dto-to_dto_example =
    apply_dto-to_dto make_hash one_account refl (tt, tt)
      ((refl, (omega arith, (omega arith, tt))), tt) entry_is_clean tt tt

-- The settings of that configuration with a new password for the account.
abbrev new_password_dto : SettingsDto
new_password_dto = record (to_dto one_account) {
  ftp_users =
      (record {
        username = codes "kim";
        new_password = codes "new";
        home_dir = codes "/h";
        permissions = codes "l" ∷ [];
      })
      ∷ [];
}

abbrev new_password_config : Config
new_password_config = record one_account {
  ftp = record one_account.ftp {
    users =
        (record {
          username = codes "kim";
          password_hash = codes "#new";
          home_dir = codes "/h";
          permissions = codes "l";
        })
        ∷ [];
  };
}

password_is_applied : apply_dto make_hash one_account new_password_dto ≡ inr new_password_config
unfolding apply_dto to_dto clean_list
password_is_applied = refl

apply_dto-AreSecured_example :
    AreSecured make_hash one_account.ftp.users 0 new_password_dto.ftp_users
      new_password_config.ftp.users
    × IsRenewed make_hash
        (λ h. h ≡ one_account.web_ui.auth.password_hash)
        (length new_password_dto.ftp_users)
        new_password_dto.web_new_password
        new_password_config.web_ui.auth.password_hash
apply_dto-AreSecured_example =
    apply_dto-AreSecured make_hash one_account new_password_config new_password_dto
      password_is_applied

-- A disk that keeps what is written last, and a format for one configuration.
abbrev pub Files : Type 0
Files = Option Bytes

abbrev pub kept_host : Host Files
kept_host = record {
  split_host_port = λ a. some (a, codes "80");
  parse_cidr = λ s. false;
  parse_ip = λ s. true;
  stat = λ path w. none;
  mkdir_all = λ path w. (true, w);
  read_file = λ path w. w;
  unmarshal = λ bytes c. if equal bytes (codes "one") then some one_account else none;
}

abbrev kept_disk : Disk Files
kept_disk = record {
  dir = λ path. path;
  marshal = λ c. some (codes "one");
  write_file = λ path bytes w. (true, some bytes);
}

-- Addresses that are their text, and networks that hold one address.
abbrev pub text_package : NetPackage Bytes Bytes
text_package = record {
  parse_cidr = λ _. none;
  parse_ip = λ s. some (s, true);
  host_net = λ ip bits. ip;
  contains = λ n ip. equal n ip;
}

abbrev before_post : SettingsState Files Bytes
before_post = record { cfg = one_account; acl = none; world = none }
