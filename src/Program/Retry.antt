-- ===== src/Program/Retry.antt =====
-- cmd/dodaemon/main.go: what is left of a reload that fails to make a new FTP server.
use do_daemon.Prelude.{
  ==_refl, Bool, Bytes, List, Option, [], ap, arith, equal, equal_refl, false, negsuc, none, pos,
  refl, some, true, ℕ, ℤ, ◌∙◌, ◌∷◌, ◌≡◌,
}
use do_daemon.Config.{Config, FtpConfig, SyslogConfig}
use do_daemon.Acl.{NetPackage}
use do_daemon.Ftp.Connections.{new_driver}
use do_daemon.Program.Equality.{same_bool, same_list, same_range}
use do_daemon.Program.Services.{
  Acls, Cell, FtpServer, Program, acls_of, apply_config, hot_reload, is_rebound, reload_ftp,
  renew_ftp, update_ftp,
}

same_bool_refl : (b : Bool) → same_bool b b ≡ true
same_bool_refl b = ground arith

same_range_refl : (r : ℤ × ℤ) → same_range r r ≡ true
same_range_refl (pos a, pos b) = ground (arith, ==_refl a, ==_refl b)
same_range_refl (pos a, negsuc b) = ground (arith, ==_refl a, ==_refl b)
same_range_refl (negsuc a, pos b) = ground (arith, ==_refl a, ==_refl b)
same_range_refl (negsuc a, negsuc b) = ground (arith, ==_refl a, ==_refl b)

same_entries_refl : (es : List Bytes) → same_list equal es es ≡ true
same_entries_refl [] = refl
same_entries_refl (e ∷ es) = rw (equal_refl e) (same_entries_refl es)

is_rebound_refl : (cfg : FtpConfig) → is_rebound cfg cfg ≡ false
is_rebound_refl cfg =
    rw
      (
        equal_refl cfg.listen,
        same_range_refl cfg.passive_port_range,
        same_bool_refl cfg.tls.enabled,
        equal_refl cfg.tls.cert_file,
        equal_refl cfg.tls.key_file,
        same_entries_refl cfg.ip_allowlist,
      )
      refl

module _ {Ip IpNet : Type 0} (p : NetPackage Ip IpNet) (opens : SyslogConfig → Bool) (bus : Bool)
    (new : Config) (acls : Acls IpNet) (given : acls_of p new ≡ some acls) where
  hot_reload-ftp :
      (loads : Bytes → Bytes → Option ℕ) (s : Program IpNet)
      → ((hot_reload p loads opens bus new s).ftp
          ≡ reload_ftp loads bus s.live_cfg.ftp new.ftp acls.for_ftp s.next s.ftp)
        × ((hot_reload p loads opens bus new s).live_cfg ≡ new)
  unfolding hot_reload apply_config
  hot_reload-ftp loads s = rw (hot_reload, given) (refl, refl)

  reload_ftp_unchanged :
      (fails : Bytes → Bytes → Option ℕ) (s : Program IpNet) (f : FtpServer IpNet)
      → s.ftp.srv ≡ some f
      → new.ftp.enabled ≡ true
      → is_rebound s.live_cfg.ftp new.ftp ≡ true
      → new_driver fails new.ftp acls.for_ftp bus ≡ none
      → reload_ftp fails bus s.live_cfg.ftp new.ftp acls.for_ftp s.next s.ftp ≡ s.ftp
  unfolding reload_ftp renew_ftp
  reload_ftp_unchanged fails s f is enabled rebound failed = ground arith

  reload_ftp_updated :
      (loads : Bytes → Bytes → Option ℕ) (n : ℕ) (c : Cell (FtpServer IpNet)) (f : FtpServer IpNet)
      → c.srv ≡ some f
      → new.ftp.enabled ≡ true
      → reload_ftp loads bus new.ftp new.ftp acls.for_ftp n c
        ≡ record c { srv = some (update_ftp loads bus new.ftp acls.for_ftp f) }
  unfolding reload_ftp
  reload_ftp_updated loads n c f is enabled =
      rw (reload_ftp, is, enabled, is_rebound_refl new.ftp) refl

  -- When a reload should make the FTP server anew and this fails, the server that ran before stays in
  -- place, and a second reload of the same configuration does not make it anew either, even if it
  -- could now: the server keeps running on the addresses and the key pair it was made with, and takes
  -- over the rest.
  pub hot_reload-failed :
      (fails loads : Bytes → Bytes → Option ℕ) (s : Program IpNet) (f : FtpServer IpNet)
      → s.ftp.srv ≡ some f
      → new.ftp.enabled ≡ true
      → is_rebound s.live_cfg.ftp new.ftp ≡ true
      → new_driver fails new.ftp acls.for_ftp bus ≡ none
      → let t = hot_reload p fails opens bus new s in
        (t.ftp ≡ s.ftp)
        × ((hot_reload p loads opens bus new t).ftp
            ≡ record s.ftp { srv = some (update_ftp loads bus new.ftp acls.for_ftp f) })
  hot_reload-failed fails loads s f is enabled rebound failed =
      let t = hot_reload p fails opens bus new s in
      let (ftp_is, live_is) = hot_reload-ftp fails s in
      let same = ftp_is ∙ reload_ftp_unchanged fails s f is enabled rebound failed in
      (
        same,
        (hot_reload-ftp loads t).0
            ∙ ap (λ c. reload_ftp loads bus c.ftp new.ftp acls.for_ftp t.next t.ftp) live_is
            ∙ ap (λ c. reload_ftp loads bus new.ftp new.ftp acls.for_ftp t.next c) same
            ∙ reload_ftp_updated loads t.next s.ftp f is enabled,
      )
