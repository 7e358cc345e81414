-- ===== src/Watcher.antt =====
-- internal/config/watch.go: `Watcher.Run` as a fold over the events of the file system, in the order in
-- which the loop receives them, with their times in milliseconds. A timer that is not stopped before
-- fires at its time. `worlds` is what is on the disk at a time, and `abs_path` the watched file.
pub mod Settled
use do_daemon.Prelude.{
  Bool, Bytes, List, Option, [], equal, false, if◌then◌else◌, inl, inr, leb, none, some, true, ℕ,
  ◌&&◌, ◌++◌, ◌+◌, ◌∷◌, ◌⊎◌,
}
use do_daemon.Paths.{Elements, clean, is_rooted}
use do_daemon.Config.{Config, Host, Problem, load}

-- `fsnotify.Event`; `is_change` says whether it is a write, a creation or a renaming.
pub record FileEvent : Type 0 where
  pub time : ℕ
  pub name : Bytes
  pub is_change : Bool

-- The time at which the timer fires, where one is set, and the configurations that `onChange` has been
-- called with.
pub record Watching : Type 0 where
  pub deadline : Option ℕ
  pub changes : List Config

abbrev pub debounce_delay : ℕ
debounce_delay = 300

abbrev pub same_path : Elements → Elements → Bool
same_path [] [] = true
same_path [] (q ∷ qs) = false
same_path (p ∷ ps) [] = false
same_path (p ∷ ps) (q ∷ qs) = equal p q && same_path ps qs

-- The events that are not passed over.
unfoldable pub is_ours : Elements → FileEvent → Bool
unfolding clean is_rooted
is_ours abs_path ev = is_rooted ev.name && same_path (clean ev.name) abs_path && ev.is_change

abbrev pub delivered : Problem ⊎ Config → List Config → List Config
delivered (inl problem) changes = changes
delivered (inr cfg) changes = changes ++ (cfg ∷ [])

module _ {W : Type 0} (host : Host W) (path : Bytes) (worlds : ℕ → W) where
  unfoldable pub reload : ℕ → List Config → List Config
  unfolding load
  reload now changes = delivered (load host path (worlds now)).0 changes

  -- The timer, where it fires by a time.
  unfoldable pub fire : ℕ → Watching → Watching
  unfolding reload
  fire now s = elim s.deadline [
    | none ↦ s
    | some d ↦ if leb d now then record { deadline = none; changes = reload d s.changes } else s
  ]

  module _ (abs_path : Elements) where
    -- A turn of the loop.
    unfoldable pub on_event : FileEvent → Watching → Watching
    unfolding fire is_ours
    on_event ev s =
        let t = fire ev.time s in
        if is_ours abs_path ev then record t { deadline = some (ev.time + debounce_delay) } else t

    unfoldable pub on_events : List FileEvent → Watching → Watching
    unfolding on_event
    on_events [] s = s
    on_events (ev ∷ evs) s = on_events evs (on_event ev s)

    -- `Run` until its context is done, at a time.
    unfoldable pub watch : List FileEvent → ℕ → List Config
    unfolding on_events fire
    watch evs stop = (fire stop (on_events evs (record { deadline = none; changes = [] }))).changes
