-- ===== src/Program/Refined.antt =====
-- cmd/dodaemon/main.go: what runs after a reload is what the configuration wants to run.
use mathlib.Core.Path.{subst}
use do_daemon.Prelude.{
  Bool, Bool-cases, Bytes, Option, Option-cases, [], ap, arith, if◌then◌else◌, inl, inr, refl, some,
  some_inj, sym, true, ℕ, ◌∙◌, ◌≡◌, ◌⊎◌,
}
use do_daemon.Config.{Config, FtpConfig, SyslogConfig}
use do_daemon.Tftp.Options.{TftpConfig}
use do_daemon.Acl.{Acl, NetPackage, new_acl}
use do_daemon.Auth.{is_some}
use do_daemon.Ftp.Connections.{new_driver, update_config}
use do_daemon.Program.Equality.{
  equal-eq, same_ftp, same_ftp-eq, same_listener-eq, same_syslog-eq, same_tftp-eq,
}
use do_daemon.Program.Services.{
  Acls, Cell, FtpServer, Program, SftpServer, SyslogServer, TftpServer, WebServer, acl_of, acls_of,
  apply_config, hot_reload, reload_ftp, reload_sftp, reload_syslog, reload_tftp, reload_web,
  renew_ftp, renew_sftp, renew_syslog, renew_web,
}
use do_daemon.Program.Current.{
  View, ftp_of, seen, spec, view_ftp, view_of, view_sftp, view_syslog, view_web, wanted,
}

reload_tftp-seen :
    (old new : TftpConfig) (n : ℕ) (c : Cell TftpServer)
    → seen (λ f. f.cfg) (λ f. f.id) c ≡ wanted old.enabled old
    → seen (λ f. f.cfg) (λ f. f.id) (reload_tftp old new n c) ≡ wanted new.enabled new
unfolding reload_tftp
reload_tftp-seen old new n c h = ground (arith, same_tftp-eq old new)

-- The SFTP server gets a new data directory with a new FTP section only.
abbrev pub dir_after : Config → Config → Bytes → Bytes
dir_after old new dir = if same_ftp old.ftp new.ftp then dir else new.server.data_dir

dir_after-cases :
    (IsDir : Bytes → Type 0) (old new : Config) (dir : Bytes)
    → IsDir dir
    → IsDir (dir_after old new dir) ⊎ (dir_after old new dir ≡ new.server.data_dir)
dir_after-cases IsDir old new dir is = elim (Bool-cases (same_ftp old.ftp new.ftp)) [
  | inl e ↦ rw e (inl is)
  | inr n ↦ rw n (inr refl)
]

module _ {IpNet : Type 0} where
  reload_sftp-seen :
      (old new : Config) (dir : Bytes) (a b : Acl IpNet) (n : ℕ) (c : Cell (SftpServer IpNet))
      → (old.ftp ≡ new.ftp → a ≡ b)
      → seen view_sftp (λ f. f.id) c ≡ wanted old.ftp.sftp_enabled (dir, old.ftp, a)
      → seen view_sftp (λ f. f.id) (reload_sftp old new b n c)
        ≡ wanted new.ftp.sftp_enabled (dir_after old new dir, new.ftp, b)
  unfolding reload_sftp renew_sftp
  reload_sftp-seen old new dir a b n c same h = ground (arith, same_ftp-eq old.ftp new.ftp)

  reload_syslog-seen :
      (opens : SyslogConfig → Bool) (old new : SyslogConfig) (a b : Acl IpNet) (n : ℕ)
      (c : Cell (SyslogServer IpNet))
      → (old ≡ new → a ≡ b)
      → opens new ≡ true
      → seen view_syslog (λ f. f.id) c ≡ wanted old.enabled (old, a)
      → seen view_syslog (λ f. f.id) (reload_syslog opens old new b n c)
        ≡ wanted new.enabled (new, b)
  unfolding reload_syslog renew_syslog
  reload_syslog-seen opens old new a b n c same o h = ground (arith, same_syslog-eq old new)

  reload_web-seen :
      (old new : Config) (a b : Acl IpNet) (n : ℕ) (c : Cell (WebServer IpNet))
      → seen view_web (λ f. f.id) c ≡ wanted old.web_ui.enabled ((old.web_ui.listen, old), a)
      → seen view_web (λ f. f.id) (reload_web old new b n c)
        ≡ wanted new.web_ui.enabled ((new.web_ui.listen, new), b)
  unfolding reload_web renew_web
  reload_web-seen old new a b n c h = ground (arith, equal-eq old.web_ui.listen new.web_ui.listen)

  renew_ftp-seen :
      (load_key_pair : Bytes → Bytes → Option ℕ) (bus : Bool) (new : FtpConfig) (b : Acl IpNet)
      (n : ℕ) (c : Cell (FtpServer IpNet))
      → is_some (new_driver load_key_pair new b bus) ≡ true
      → seen view_ftp (λ f. f.id) (renew_ftp load_key_pair bus new b n c)
        ≡ (some (ftp_of new b), true)
  unfolding renew_ftp new_driver update_config
  renew_ftp-seen load_key_pair bus new b n c o = ground arith

  reload_ftp-seen :
      (load_key_pair : Bytes → Bytes → Option ℕ) (bus : Bool) (old new : FtpConfig)
      (a b : Acl IpNet) (n : ℕ) (c : Cell (FtpServer IpNet))
      → is_some (new_driver load_key_pair new b bus) ≡ true
      → seen view_ftp (λ f. f.id) c ≡ wanted old.enabled (ftp_of old a)
      → seen view_ftp (λ f. f.id) (reload_ftp load_key_pair bus old new b n c)
        ≡ wanted new.enabled (ftp_of new b)
  unfolding reload_ftp update_config
  reload_ftp-seen load_key_pair bus old new a b n c o h =
      ground (arith, renew_ftp-seen load_key_pair bus new b n c o, same_listener-eq old new)

pub View-eq :
    {IpNet : Type 0} (v w : View IpNet)
    → v.ftp ≡ w.ftp
    → v.sftp ≡ w.sftp
    → v.tftp ≡ w.tftp
    → v.syslog ≡ w.syslog
    → v.web ≡ w.web
    → v ≡ w
View-eq v w a b c d e = cc

-- The servers of a configuration can be made: its key pair can be read, where FTP has TLS, and the store
-- of the syslog server can be opened.
pub record CanBuild {IpNet : Type 0} (load_key_pair : Bytes → Bytes → Option ℕ)
    (opens : SyslogConfig → Bool) (bus : Bool) (cfg : Config) (acls : Acls IpNet) : Type 0 where
  pub builds_ftp : is_some (new_driver load_key_pair cfg.ftp acls.for_ftp bus) ≡ true
  pub builds_syslog : opens cfg.syslog ≡ true

module _ {Ip IpNet : Type 0} (p : NetPackage Ip IpNet) (load_key_pair : Bytes → Bytes → Option ℕ)
    (opens : SyslogConfig → Bool) (bus : Bool) where
  acls_of-parts :
      (cfg : Config) (a : Acls IpNet)
      → acls_of p cfg ≡ some a
      → (acl_of (new_acl p cfg.ftp.ip_allowlist []) ≡ some a.for_ftp)
        × (acl_of (new_acl p cfg.syslog.ip_allowlist []) ≡ some a.for_syslog)
  unfolding acls_of
  acls_of-parts cfg a e = ground arith

  -- The access lists come from the configuration.
  acls_of_unique :
      (old new : Config) (a b : Acls IpNet)
      → acls_of p old ≡ some a
      → acls_of p new ≡ some b
      → (old.ftp ≡ new.ftp → a.for_ftp ≡ b.for_ftp)
        × (old.syslog ≡ new.syslog → a.for_syslog ≡ b.for_syslog)
  acls_of_unique old new a b e f =
      let (e1, e2) = acls_of-parts old a e in
      let (f1, f2) = acls_of-parts new b f in
      (
        λ same. some_inj (sym e1 ∙ ap (λ c. acl_of (new_acl p c.ip_allowlist [])) same ∙ f1),
        λ same. some_inj (sym e2 ∙ ap (λ c. acl_of (new_acl p c.ip_allowlist [])) same ∙ f2),
      )

  -- Everything that runs is what the configuration in use wants to run, with its access lists, and the
  -- supervisor has the instances that the program's variables have. The SFTP server's data directory
  -- is one that `IsDir` allows.
  pub record IsCurrent (IsDir : Bytes → Type 0) (s : Program IpNet) : Type 0 where
    pub dir : Bytes
    pub dir_is : IsDir dir
    pub acls : Acls IpNet
    pub acls_are : acls_of p s.live_cfg ≡ some acls
    pub runs : view_of s ≡ spec s.live_cfg dir acls

  apply_config-seen :
      (s : Program IpNet) (new : Config) (dir : Bytes) (a b : Acls IpNet)
      → acls_of p s.live_cfg ≡ some a
      → acls_of p new ≡ some b
      → CanBuild load_key_pair opens bus new b
      → view_of s ≡ spec s.live_cfg dir a
      → view_of (apply_config p load_key_pair opens bus new b s)
        ≡ spec new (dir_after s.live_cfg new dir) b
  unfolding apply_config
  apply_config-seen s new dir a b e f can runs =
      let (same_f, same_s) = acls_of_unique s.live_cfg new a b e f in
      let old = s.live_cfg in
      let ftp =
        reload_ftp-seen load_key_pair bus old.ftp new.ftp a.for_ftp b.for_ftp s.next s.ftp
          can.builds_ftp (ap (λ v. v.ftp) runs) in
      let sftp =
        reload_sftp-seen old new dir a.for_ftp b.for_ftp s.next s.sftp same_f
          (ap (λ v. v.sftp) runs) in
      let tftp = reload_tftp-seen old.tftp new.tftp s.next s.tftp (ap (λ v. v.tftp) runs) in
      let syslog =
        reload_syslog-seen opens old.syslog new.syslog a.for_syslog b.for_syslog s.next s.syslog
          same_s can.builds_syslog (ap (λ v. v.syslog) runs) in
      let web = reload_web-seen old new a.for_web b.for_web s.next s.web (ap (λ v. v.web) runs) in
      View-eq (view_of (apply_config p load_key_pair opens bus new b s))
        (spec new (dir_after old new dir) b) ftp sftp tftp syslog web

  pub IsCurrent-map :
      (P Q : Bytes → Type 0) (s : Program IpNet)
      → ((d : Bytes) → P d → Q d)
      → IsCurrent P s
      → IsCurrent Q s
  IsCurrent-map P Q s f c = record {
    dir = c.dir;
    dir_is = f c.dir c.dir_is;
    acls = c.acls;
    acls_are = c.acls_are;
    runs = c.runs;
  }

  -- A program that runs what its configuration wants is given a new configuration.
  pub hot_reload-IsCurrent :
      (IsDir : Bytes → Type 0) (s : Program IpNet) (new : Config)
      → ((acls : Acls IpNet)
          → acls_of p new ≡ some acls
          → CanBuild load_key_pair opens bus new acls)
      → IsCurrent IsDir s
      → IsCurrent
          (λ d. IsDir d ⊎ (d ≡ new.server.data_dir))
          (hot_reload p load_key_pair opens bus new s)
  unfolding hot_reload apply_config
  hot_reload-IsCurrent IsDir s new can current = elim (Option-cases (acls_of p new)) [
    | inl bad ↦
        subst (IsCurrent (λ d. IsDir d ⊎ (d ≡ new.server.data_dir)))
          (sym (rw (hot_reload, bad) refl))
          (IsCurrent-map IsDir (λ d. IsDir d ⊎ (d ≡ new.server.data_dir)) s (λ d is. inl is)
            current)
    | inr (acls, is) ↦
        let applied : hot_reload p load_key_pair opens bus new s
            ≡ apply_config p load_key_pair opens bus new acls s =
          rw (hot_reload, is) refl in
        subst (IsCurrent (λ d. IsDir d ⊎ (d ≡ new.server.data_dir))) (sym applied) (record {
          dir = dir_after s.live_cfg new current.dir;
          dir_is = dir_after-cases IsDir s.live_cfg new current.dir current.dir_is;
          acls = acls;
          acls_are = is;
          runs =
              apply_config-seen s new current.dir current.acls acls current.acls_are is
                (can acls is) current.runs;
        })
  ]
