-- ===== src/Ftp/Logins.antt =====
-- internal/ftp/driver.go and internal/auth/auth.go: who logs in to the FTP server, and what the anonymous
-- user can do there.
use do_daemon.Prelude.{
  Bool, Bool-cases, Bytes, List, arith, codes, equal, false, index_byte, inl, inr, map, not, refl,
  some, some_inj, sym, true, ◌||◌, ◌↔◌, ◌∙◌, ◌≡◌, ◌⊎◌,
}
use do_daemon.Auth.{User, allows}
use do_daemon.Acl.{Acl}
use do_daemon.Config.{FtpConfig}
use do_daemon.Ftp.{
  Call, PermissionFs, Refusal, St, call_chmod, call_chown, call_chtimes, call_create, call_mkdir,
  call_mkdir_all, call_open, call_open_file, call_read_dir, call_remove, call_remove_all,
  call_remove_dir, call_rename, call_stat, denied, perform,
}
use do_daemon.Ftp.Connections.{
  Driver, Kind, anonymous, anonymous_user, auth_user, auth_user_of, update_config,
}
use do_daemon.Ftp.Guarded.{IsGuarded, granted, perform-IsGuarded}
use do_daemon.Auth.Login.{authenticate-new_store, last_named}

abbrev pub is_reserved : Bytes → Bool
is_reserved name = equal name anonymous_user || equal name (codes "ftp")

-- The user that logs in with this name and password, as the configuration alone says: the names
-- "anonymous" and "ftp" are for the anonymous user, where there is one; another name is the account
-- listed last under it, if the password is that of its hash.
abbrev pub IsLogin : (Bytes → Bytes → Bool) → FtpConfig → Bytes → Bytes → User → Type 0
IsLogin compare cfg name pass u =
    ((is_reserved name ≡ true) × (cfg.allow_anonymous ≡ true) × (u ≡ anonymous cfg))
    ⊎ ((is_reserved name ≡ false)
        × (last_named name (map auth_user_of cfg.users) ≡ some u)
        × (compare u.password_hash pass ≡ true))

-- With a driver that has been given a configuration, a login succeeds as user `u` exactly when the
-- configuration says so, whatever configuration the driver had before.
pub auth_user-IsLogin :
    {IpNet : Type 0} (compare : Bytes → Bytes → Bool) (d : Driver IpNet) (cfg : FtpConfig)
    (acl : Acl IpNet) (name pass : Bytes) (published : List Kind) (u : User)
    → ((auth_user compare (update_config cfg acl d) name pass published).0 ≡ some u)
      ↔ IsLogin compare cfg name pass u
unfolding auth_user update_config
auth_user-IsLogin compare d cfg acl name pass published u = elim (Bool-cases (is_reserved name)) [
  | inl r ↦ rw r (elim (Bool-cases cfg.allow_anonymous) [
    | inl a ↦ rw a (λ e. inl (refl, refl, sym (some_inj e)), λ h. ground arith)
    | inr n ↦ rw n (λ e. ground arith, λ h. ground arith)
  ])
  | inr o ↦ rw o (
    λ e.
        let (last, same) =
          (authenticate-new_store compare (map auth_user_of cfg.users) name pass u).0.0 e in
        inr (refl, last, same),
    λ h. elim h [
      | inl (r, _, _) ↦ cc
      | inr (_, last, same) ↦
          (authenticate-new_store compare (map auth_user_of cfg.users) name pass u).0.1 (last, same)
    ],
  )
]

-- The calls that the driver takes for reading. An `OpenFile` with neither `O_WRONLY` nor `O_RDWR` is one
-- of them, even with `O_CREATE` or `O_TRUNC`.
abbrev pub is_read : Call → Bool
is_read (call_open name) = true
is_read (call_stat name) = true
is_read (call_read_dir name) = true
is_read (call_open_file name flag perm) = not (flag.wronly || flag.rdwr)
is_read _ = false

not_granted :
    {W : Type 0} (f : PermissionFs W) (cfg : FtpConfig) (w : W) (c : Call)
    → f.user ≡ anonymous cfg
    → is_read c ≡ false
    → granted f w c ≡ false
unfolding allows index_byte
not_granted f cfg w (call_create name) u h = rw u refl
not_granted f cfg w (call_open name) u h = cc
not_granted f cfg w (call_remove name) u h = rw u refl
not_granted f cfg w (call_remove_dir name) u h = rw u refl
not_granted f cfg w (call_remove_all path) u h = rw u refl
not_granted f cfg w (call_stat name) u h = cc
not_granted f cfg w (call_read_dir name) u h = cc
not_granted f cfg w (call_mkdir name perm) u h = rw u refl
not_granted f cfg w (call_mkdir_all path perm) u h = rw u refl
not_granted f cfg w (call_chmod name mode) u h = rw u refl
not_granted f cfg w (call_open_file name flag perm) u h =
    let writes : (flag.wronly || flag.rdwr) ≡ true = ground arith in
    elim (Bool-cases flag.append) [
      | inl a ↦ rw (u, writes, a) refl
      | inr n ↦ rw (u, writes, n) refl
    ]
not_granted f cfg w (call_rename old new) u h = rw u refl
not_granted f cfg w (call_chtimes name a m) u h = rw u refl
not_granted f cfg w (call_chown name uid gid) u h = refl

-- The anonymous user of any configuration is denied every call but `Open`, `Stat`, `ReadDir` and an
-- `OpenFile` with neither `O_WRONLY` nor `O_RDWR`, and where it is denied, neither the files nor what
-- is published change.
pub anonymous-denied :
    {W : Type 0} (f : PermissionFs W) (cfg : FtpConfig) (c : Call) (st : St W)
    → f.user ≡ anonymous cfg
    → is_read c ≡ false
    → (r : Refusal) × (perform f c st ≡ (denied r, st))
unfolding IsGuarded
anonymous-denied f cfg c st u w = elim (perform-IsGuarded f c st) [
  | inl (_, (g, _)) ↦ cc (sym g ∙ not_granted f cfg st.world c u w)
  | inr r ↦ r
]
