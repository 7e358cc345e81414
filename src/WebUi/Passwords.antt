-- ===== src/WebUi/Passwords.antt =====
-- internal/webui/settings.go: where the password hashes of the merged settings come from.
use do_daemon.Prelude.{
  Bool-cases, Bytes, List, Option, [], arith, equal, equal_iff, false, inl, inr, length, refl, some,
  some_inj, sym, ℕ, ◌+◌, ◌∷◌, ◌≡◌, ◌⊎◌,
}
use mathlib.Core.Path.{subst}
use do_daemon.Config.{Config, FtpUser, first, is_empty}
use do_daemon.WebUi.Settings.{
  FtpUserDto, SettingsDto, apply_dto, apply_user, apply_users, existing_hash, new_hash,
}

-- One of the accounts has this name and this hash.
abbrev pub HasHash : List FtpUser → Bytes → Bytes → Type 0
HasHash [] name h = ⊥
HasHash (u ∷ us) name h = ((u.username ≡ name) × (u.password_hash ≡ h)) ⊎ HasHash us name h

existing_hash-cases :
    (us : List FtpUser) (found name : Bytes)
    → (existing_hash us found name ≡ found) ⊎ HasHash us name (existing_hash us found name)
unfolding existing_hash
existing_hash-cases [] found name = inl refl
existing_hash-cases (u ∷ us) found name = elim (Bool-cases (equal u.username name)) [
  | inl e ↦ rw e (elim (existing_hash-cases us u.password_hash name) [
    | inl f ↦ inr (inl ((equal_iff u.username name).0 e, sym f))
    | inr h ↦ inr (inr h)
  ])
  | inr n ↦ rw n (elim (existing_hash-cases us found name) [ inl f ↦ inl f | inr h ↦ inr (inr h) ])
]

module _ (hash : ℕ → Bytes → Option Bytes) where
  -- The hash `h` is that of the new password where one is given, and an old one where none is.
  abbrev pub IsRenewed : (Bytes → Type 0) → ℕ → Bytes → Bytes → Type 0
  IsRenewed IsOld i password h =
      ((password ≡ []) × IsOld h) ⊎ ((is_empty password ≡ false) × (hash i password ≡ some h))

  -- Of the account `w` that is made from `u`.
  abbrev pub IsSecured : List FtpUser → ℕ → FtpUserDto → FtpUser → Type 0
  IsSecured old i u w =
      (w.username ≡ u.username)
      × (is_empty w.password_hash ≡ false)
      × IsRenewed (HasHash old u.username) i u.new_password w.password_hash

  abbrev pub AreSecured : List FtpUser → ℕ → List FtpUserDto → List FtpUser → Type 0
  AreSecured old i [] [] = Unit
  AreSecured old i [] (w ∷ ws) = ⊥
  AreSecured old i (u ∷ us) [] = ⊥
  AreSecured old i (u ∷ us) (w ∷ ws) = IsSecured old i u w × AreSecured old (i + 1) us ws

  new_hash-IsRenewed :
      (i : ℕ) (old password h : Bytes)
      → new_hash hash i old password ≡ some h
      → IsRenewed (λ k. k ≡ old) i password h
  new_hash-IsRenewed i old [] h e = inl (refl, sym (some_inj e))
  new_hash-IsRenewed i old (c ∷ p) h e = inr (refl, e)

  apply_user_lem :
      (existing : Bytes → Bytes) (i : ℕ) (u : FtpUserDto) (w : FtpUser)
      → apply_user hash existing i u ≡ inr w
      → (w.username ≡ u.username)
        × (is_empty w.password_hash ≡ false)
        × (new_hash hash i (existing u.username) u.new_password ≡ some w.password_hash)
  apply_user_lem existing i u w e = ground arith

  kept_hash :
      (old : List FtpUser) (name h : Bytes)
      → h ≡ existing_hash old [] name
      → is_empty h ≡ false
      → HasHash old name h
  kept_hash old name h e n = elim (existing_hash-cases old [] name) [
    | inl f ↦ ground arith
    | inr g ↦ subst (HasHash old name) (sym e) g
  ]

  apply_user-IsSecured :
      (old : List FtpUser) (i : ℕ) (u : FtpUserDto) (w : FtpUser)
      → apply_user hash (existing_hash old []) i u ≡ inr w
      → IsSecured old i u w
  apply_user-IsSecured old i u w e =
      let (name, full, new) = apply_user_lem (existing_hash old []) i u w e in
      (
        name,
        full,
        elim (new_hash-IsRenewed i _ u.new_password w.password_hash new) [
          | inl (p, h) ↦ inl (p, kept_hash old u.username w.password_hash h full)
          | inr h ↦ inr h
        ],
      )

  apply_users_lem :
      (existing : Bytes → Bytes) (i : ℕ) (u : FtpUserDto) (us : List FtpUserDto) (w : FtpUser)
      (ws : List FtpUser)
      → apply_users hash existing i (u ∷ us) ≡ inr (w ∷ ws)
      → (apply_user hash existing i u ≡ inr w) × (apply_users hash existing (i + 1) us ≡ inr ws)
  unfolding apply_users
  apply_users_lem existing i u us w ws e = ground arith

  apply_users-AreSecured :
      (old : List FtpUser) (i : ℕ) (us : List FtpUserDto) (ws : List FtpUser)
      → apply_users hash (existing_hash old []) i us ≡ inr ws
      → AreSecured old i us ws
  unfolding apply_users
  apply_users-AreSecured old i [] [] e = tt
  apply_users-AreSecured old i [] (w ∷ ws) e = ground arith
  apply_users-AreSecured old i (u ∷ us) [] e = ground arith
  apply_users-AreSecured old i (u ∷ us) (w ∷ ws) e =
      let (first, rest) = apply_users_lem (existing_hash old []) i u us w ws e in
      (apply_user-IsSecured old i u w first, apply_users-AreSecured old (i + 1) us ws rest)

  apply_dto_lem :
      (base cfg : Config) (dto : SettingsDto)
      → apply_dto hash base dto ≡ inr cfg
      → (apply_users hash (existing_hash base.ftp.users []) 0 dto.ftp_users ≡ inr cfg.ftp.users)
        × (new_hash hash (length dto.ftp_users) base.web_ui.auth.password_hash dto.web_new_password
            ≡ some cfg.web_ui.auth.password_hash)
  unfolding apply_dto
  apply_dto_lem base cfg dto e = ground arith

  -- When the settings are merged, every account gets the hash of its new password; without a new
  -- password it keeps the hash of an account that had its name before, so that an account that is new
  -- has a new password. No account gets an empty hash. The web interface's hash is that of its new
  -- password, or stays where there is none.
  pub apply_dto-AreSecured :
      (base cfg : Config) (dto : SettingsDto)
      → apply_dto hash base dto ≡ inr cfg
      → AreSecured base.ftp.users 0 dto.ftp_users cfg.ftp.users
        × IsRenewed
            (λ h. h ≡ base.web_ui.auth.password_hash)
            (length dto.ftp_users)
            dto.web_new_password
            cfg.web_ui.auth.password_hash
  apply_dto-AreSecured base cfg dto e =
      let (users, web) = apply_dto_lem base cfg dto e in
      (
        apply_users-AreSecured base.ftp.users 0 dto.ftp_users cfg.ftp.users users,
        new_hash-IsRenewed _ _ dto.web_new_password cfg.web_ui.auth.password_hash web,
      )
