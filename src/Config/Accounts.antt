-- ===== src/Config/Accounts.antt =====
-- internal/config/config.go: lists of accounts.
use do_daemon.Prelude.{All, List, [], equal, false, ◌∷◌, ◌≡◌}
use do_daemon.Config.{FtpUser}

-- No two accounts have the same name.
abbrev pub Unique : List FtpUser → Type 0
Unique [] = Unit
Unique (u ∷ us) = All (λ w. equal u.username w.username ≡ false) us × Unique us
