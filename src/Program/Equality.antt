-- ===== src/Program/Equality.antt =====
-- cmd/dodaemon/main.go: `==` and `reflect.DeepEqual` of two configurations.
use do_daemon.Prelude.{
  Bool, Bytes, List, [], ap, arith, equal, equal_iff, false, negsuc, not, pos, refl, true, ℤ, ◌&&◌,
  ◌==◌, ◌∷◌, ◌≡◌,
}
use do_daemon.Config.{FtpConfig, FtpUser, RotateConfig, SyslogConfig, TlsConfig, first}
use do_daemon.Tftp.Options.{TftpConfig}

abbrev pub same_bool : Bool → Bool → Bool
same_bool true b = b
same_bool false b = not b

abbrev pub same_int : ℤ → ℤ → Bool
same_int (pos m) (pos n) = m == n
same_int (negsuc m) (negsuc n) = m == n
same_int (pos m) (negsuc n) = false
same_int (negsuc m) (pos n) = false

abbrev pub same_list : {A : Type 0} → (A → A → Bool) → List A → List A → Bool
same_list same [] [] = true
same_list same [] (y ∷ ys) = false
same_list same (x ∷ xs) [] = false
same_list same (x ∷ xs) (y ∷ ys) = same x y && same_list same xs ys

abbrev pub same_range : ℤ × ℤ → ℤ × ℤ → Bool
same_range (a, b) (c, d) = same_int a c && same_int b d

abbrev pub same_tls : TlsConfig → TlsConfig → Bool
same_tls s t =
    same_bool s.enabled t.enabled && equal s.cert_file t.cert_file && equal s.key_file t.key_file

abbrev pub same_user : FtpUser → FtpUser → Bool
same_user u v =
    equal u.username v.username
    && equal u.password_hash v.password_hash
    && equal u.home_dir v.home_dir
    && equal u.permissions v.permissions

abbrev pub same_ftp : FtpConfig → FtpConfig → Bool
same_ftp f g =
    same_bool f.enabled g.enabled
    && equal f.listen g.listen
    && same_range f.passive_port_range g.passive_port_range
    && same_tls f.tls g.tls
    && same_bool f.allow_anonymous g.allow_anonymous
    && equal f.anonymous_home_dir g.anonymous_home_dir
    && same_list same_user f.users g.users
    && same_int f.max_connections g.max_connections
    && same_list equal f.ip_allowlist g.ip_allowlist
    && same_bool f.sftp_enabled g.sftp_enabled
    && equal f.sftp_listen g.sftp_listen

abbrev pub same_tftp : TftpConfig → TftpConfig → Bool
same_tftp f g =
    same_bool f.enabled g.enabled
    && equal f.listen g.listen
    && equal f.root_dir g.root_dir
    && same_bool f.allow_read g.allow_read
    && same_bool f.allow_write g.allow_write
    && same_int f.max_blksize g.max_blksize
    && same_int f.timeout_sec g.timeout_sec
    && same_int f.max_retries g.max_retries

abbrev pub same_rotate : RotateConfig → RotateConfig → Bool
same_rotate r q =
    same_int r.max_size_mb q.max_size_mb
    && same_int r.max_age_day q.max_age_day
    && same_bool r.compress q.compress

abbrev pub same_syslog : SyslogConfig → SyslogConfig → Bool
same_syslog s t =
    same_bool s.enabled t.enabled
    && equal s.udp_listen t.udp_listen
    && equal s.tcp_listen t.tcp_listen
    && same_tls s.tls t.tls
    && equal s.log_dir t.log_dir
    && same_rotate s.rotate t.rotate
    && same_list equal s.ip_allowlist t.ip_allowlist

and-true : (a b : Bool) → (a && b) ≡ true → (a ≡ true) × (b ≡ true)
and-true a b h = ground arith

pub same_bool-eq : (a b : Bool) → same_bool a b ≡ true → a ≡ b
same_bool-eq a b h = ground arith

same_int-eq : (i j : ℤ) → same_int i j ≡ true → i ≡ j
same_int-eq (pos m) (pos n) h = ap pos (ground arith)
same_int-eq (negsuc m) (negsuc n) h = ap negsuc (ground arith)
same_int-eq (pos m) (negsuc n) h = cc
same_int-eq (negsuc m) (pos n) h = cc

pub equal-eq : (xs ys : Bytes) → equal xs ys ≡ true → xs ≡ ys
equal-eq xs ys h = (equal_iff xs ys).0 h

pub same_list-eq :
    {A : Type 0} (same : A → A → Bool)
    → ((x y : A) → same x y ≡ true → x ≡ y)
    → (xs ys : List A) → same_list same xs ys ≡ true
    → xs ≡ ys
same_list-eq same eq [] [] h = refl
same_list-eq same eq [] (y ∷ ys) h = cc
same_list-eq same eq (x ∷ xs) [] h = cc
same_list-eq same eq (x ∷ xs) (y ∷ ys) h =
    let (first, rest) = and-true (same x y) (same_list same xs ys) h in
    let e = eq x y first in let f = same_list-eq same eq xs ys rest in cc

same_tls-eq : (s t : TlsConfig) → same_tls s t ≡ true → s ≡ t
same_tls-eq s t h = ground (arith, equal-eq s.cert_file t.cert_file, equal-eq s.key_file t.key_file)

same_user-eq : (u v : FtpUser) → same_user u v ≡ true → u ≡ v
same_user-eq u v h = ground (
  arith,
  equal-eq u.username v.username,
  equal-eq u.password_hash v.password_hash,
  equal-eq u.home_dir v.home_dir,
  equal-eq u.permissions v.permissions,
)

same_range-eq : (r s : ℤ × ℤ) → same_range r s ≡ true → r ≡ s
same_range-eq (a, b) (c, d) h =
    let (first, second) = and-true (same_int a c) (same_int b d) h in
    let e = same_int-eq a c first in let f = same_int-eq b d second in cc

pub same_ftp-eq : (f g : FtpConfig) → same_ftp f g ≡ true → f ≡ g
same_ftp-eq f g h = ground (
  arith,
  same_bool-eq f.enabled g.enabled,
  equal-eq f.listen g.listen,
  same_range-eq f.passive_port_range g.passive_port_range,
  same_tls-eq f.tls g.tls,
  same_bool-eq f.allow_anonymous g.allow_anonymous,
  equal-eq f.anonymous_home_dir g.anonymous_home_dir,
  same_list-eq same_user same_user-eq f.users g.users,
  same_int-eq f.max_connections g.max_connections,
  same_list-eq equal equal-eq f.ip_allowlist g.ip_allowlist,
  same_bool-eq f.sftp_enabled g.sftp_enabled,
  equal-eq f.sftp_listen g.sftp_listen,
)

pub same_tftp-eq : (f g : TftpConfig) → same_tftp f g ≡ true → f ≡ g
same_tftp-eq f g h = ground (
  arith,
  same_bool-eq f.enabled g.enabled,
  equal-eq f.listen g.listen,
  equal-eq f.root_dir g.root_dir,
  same_bool-eq f.allow_read g.allow_read,
  same_bool-eq f.allow_write g.allow_write,
  same_int-eq f.max_blksize g.max_blksize,
  same_int-eq f.timeout_sec g.timeout_sec,
  same_int-eq f.max_retries g.max_retries,
)

same_rotate-eq : (r q : RotateConfig) → same_rotate r q ≡ true → r ≡ q
same_rotate-eq r q h = ground (
  arith,
  same_int-eq r.max_size_mb q.max_size_mb,
  same_int-eq r.max_age_day q.max_age_day,
  same_bool-eq r.compress q.compress,
)

pub same_syslog-eq : (s t : SyslogConfig) → same_syslog s t ≡ true → s ≡ t
same_syslog-eq s t h = ground (
  arith,
  same_bool-eq s.enabled t.enabled,
  equal-eq s.udp_listen t.udp_listen,
  equal-eq s.tcp_listen t.tcp_listen,
  same_tls-eq s.tls t.tls,
  equal-eq s.log_dir t.log_dir,
  same_rotate-eq s.rotate t.rotate,
  same_list-eq equal equal-eq s.ip_allowlist t.ip_allowlist,
)

-- What is left as it is when the FTP server is not built anew.
pub same_listener-eq :
    (f g : FtpConfig)
    → (equal f.listen g.listen
        && same_range f.passive_port_range g.passive_port_range
        && same_tls f.tls g.tls
        && same_list equal f.ip_allowlist g.ip_allowlist)
      ≡ true
    → (f.listen ≡ g.listen) × (f.passive_port_range ≡ g.passive_port_range) × (f.tls ≡ g.tls)
same_listener-eq f g h = ground (
  arith,
  equal-eq f.listen g.listen,
  same_range-eq f.passive_port_range g.passive_port_range,
  same_tls-eq f.tls g.tls,
)
