-- ===== src/WebUi/RoundTrip.antt =====
-- internal/webui/settings.go: what saving the settings as they are shown leaves.
use do_daemon.Prelude.{
  All, All-map, Bytes, List, Option, [], ap, equal, equal_refl, equal_sym, false, inr, length,
  lt→ltb, map, refl, sym, ℕ, ◌+◌, ◌<◌, ◌∷◌, ◌≡◌,
}
use do_daemon.Config.{Config, FtpUser, fixed_hostname, is_empty}
use do_daemon.WebUi.Text.{concat, runes, trim_space}
use do_daemon.Config.Accounts.{Unique}
use do_daemon.WebUi.Settings.{
  apply_dto, apply_users, clean_list, existing_hash, perms_to_string, to_dto, user_dto,
}

-- Entries that `cleanList` keeps as they are.
abbrev pub AreClean : List Bytes → Type 0
AreClean = All (λ s. (trim_space s ≡ s) × (is_empty s ≡ false))

-- An account with a hash, and permissions in ASCII.
abbrev pub IsPlainUser : FtpUser → Type 0
IsPlainUser u = (is_empty u.password_hash ≡ false) × All (λ c. c < 128) u.permissions

clean_list-AreClean : (ss : List Bytes) → AreClean ss → clean_list ss ≡ ss
unfolding clean_list
clean_list-AreClean [] h = refl
clean_list-AreClean (s ∷ ss) ((t, n), h) = rw (t, n, clean_list-AreClean ss h) refl

concat-runes : (s : Bytes) → All (λ c. c < 128) s → concat (runes (length s) s) ≡ s
unfolding runes
concat-runes [] h = refl
concat-runes (c ∷ s) (l, h) = rw (lt→ltb c 128 l) (ap (λ t. c ∷ t) (concat-runes s h))

existing_hash-other :
    (us : List FtpUser) (found name : Bytes)
    → All (λ w. equal name w.username ≡ false) us
    → existing_hash us found name ≡ found
unfolding existing_hash
existing_hash-other [] found name h = refl
existing_hash-other (u ∷ us) found name (n, h) =
    rw (equal_sym u.username name, n) (existing_hash-other us found name h)

-- Every account finds its own hash, whatever was there before.
existing_hash-own :
    (us : List FtpUser)
    → Unique us
    → All (λ u. (found : Bytes) → existing_hash us found u.username ≡ u.password_hash) us
unfolding existing_hash
existing_hash-own [] h = tt
existing_hash-own (u ∷ us) (n, h) = (
  λ found. rw (equal_refl u.username) (existing_hash-other us u.password_hash u.username n),
  All-map (λ w own found. own _) us (existing_hash-own us h),
)

apply_users-same :
    (hash : ℕ → Bytes → Option Bytes) (existing : Bytes → Bytes) (i : ℕ) (us : List FtpUser)
    → All IsPlainUser us
    → All (λ u. existing u.username ≡ u.password_hash) us
    → apply_users hash existing i (map user_dto us) ≡ inr us
unfolding apply_users
apply_users-same hash existing i [] p h = refl
apply_users-same hash existing i (u ∷ us) ((n, a), p) (e, h) =
    let perms : perms_to_string (user_dto u).permissions ≡ u.permissions =
      concat-runes u.permissions a in
    rw (apply_users, e, n, apply_users-same hash existing (i + 1) us p h, perms) refl

-- The settings that are shown, saved unchanged, give back the configuration they were made from:
-- where the host name is the fixed one, no two accounts have the same name, every account has a hash
-- and permissions in ASCII, and the entries of the allow lists are neither blank nor within blanks.
pub apply_dto-to_dto :
    (hash : ℕ → Bytes → Option Bytes) (cfg : Config)
    → cfg.server.hostname ≡ fixed_hostname
    → Unique cfg.ftp.users
    → All IsPlainUser cfg.ftp.users
    → AreClean cfg.ftp.ip_allowlist
    → AreClean cfg.syslog.ip_allowlist
    → AreClean cfg.web_ui.ip_allowlist
    → apply_dto hash cfg (to_dto cfg) ≡ inr cfg
unfolding apply_dto to_dto
apply_dto-to_dto hash cfg name u p f s w =
    rw
      (
        apply_dto,
        to_dto,
        apply_users-same hash (existing_hash cfg.ftp.users []) 0 cfg.ftp.users p
            (All-map (λ w own. own []) cfg.ftp.users (existing_hash-own cfg.ftp.users u)),
        clean_list-AreClean cfg.ftp.ip_allowlist f,
        clean_list-AreClean cfg.syslog.ip_allowlist s,
        clean_list-AreClean cfg.web_ui.ip_allowlist w,
        sym name,
      )
      refl
