-- ===== src/Program/Reloads.antt =====
-- cmd/dodaemon/main.go: what runs, from the start of the program through any reloads.
use do_daemon.Prelude.{Bool, Bytes, List, Option, [], ℕ, ◌∷◌, ◌≡◌, ◌⊎◌}
use do_daemon.Config.{Config, SyslogConfig}
use do_daemon.Acl.{NetPackage}
use do_daemon.Program.Services.{Program, hot_reload}

-- The data directory of one of these configurations.
abbrev pub IsDirOf : List Config → Bytes → Type 0
IsDirOf [] d = ⊥
IsDirOf (c ∷ cs) d = (d ≡ c.server.data_dir) ⊎ IsDirOf cs d

module _ {Ip IpNet : Type 0} (p : NetPackage Ip IpNet) (load_key_pair : Bytes → Bytes → Option ℕ)
    (opens : SyslogConfig → Bool) (bus : Bool) where
  abbrev pub hot_reloads : List Config → Program IpNet → Program IpNet
  hot_reloads [] s = s
  hot_reloads (new ∷ news) s = hot_reloads news (hot_reload p load_key_pair opens bus new s)
