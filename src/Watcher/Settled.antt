-- ===== src/Watcher/Settled.antt =====
-- internal/config/watch.go: an edit that leaves a valid file is picked up.
use do_daemon.Prelude.{Bytes, List, [], none, some, ℕ, ◌++◌, ◌∷◌, ◌≡◌, ◌⊎◌}
use do_daemon.Paths.{Elements}
use do_daemon.Config.{Config, Host}
use do_daemon.Watcher.{Watching}

module _ {W : Type 0} (host : Host W) (path : Bytes) (worlds : ℕ → W) (abs_path : Elements) where
  -- The configurations given to `onChange` end with `cfg`.
  abbrev pub EndsIn : Config → List Config → Type 0
  EndsIn cfg changes = (before : List Config) × (changes ≡ before ++ (cfg ∷ []))

  -- The timer is still set, or the file has been read.
  abbrev pub IsOnTheWay : ℕ → Config → Watching → Type 0
  IsOnTheWay d cfg s = (s.deadline ≡ some d) ⊎ ((s.deadline ≡ none) × EndsIn cfg s.changes)
