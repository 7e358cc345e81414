-- ===== src/SyslogStore.antt =====
-- internal/syslogsrv/store.go: the log file and its rotation. A call holds the lock from end to end. The
-- disk is a parameter; `compressFile` and the clean-up run beside and are not modelled.
pub mod Size
use do_daemon.Prelude.{
  Bool, Bytes, Option, [], false, if◌then◌else◌, leb, length, ltb, negsuc, none, not, pos, some,
  true, ℕ, ℤ, ◌%◌, ◌*◌, ◌++◌, ◌+◌, ◌-◌, ◌==◌, ◌||◌, ◌∷◌,
}
use do_daemon.Syslog.{Message}
use do_daemon.Config.{SyslogConfig}

-- `json_line` is `json.Marshal` of the message's fields. `open_current` is `os.OpenFile` for appending
-- and `Stat`: the file's size. `rename_current` is `os.Rename` to a name with the time, behind which
-- the compression of that file starts if it is asked for.
pub record LogDisk (W : Type 0) : Type 0 where
  pub json_line : Message → Option Bytes
  pub mkdir_all : Bytes → W → Bool × W
  pub open_append : Bytes → W → Option ℕ × W
  pub write_file : Bytes → W → (ℕ × Bool) × W
  pub close_file : W → Bool × W
  pub rename_current : Bytes → Bool → W → Bool × W

pub record Store (W : Type 0) : Type 0 where
  pub dir : Bytes
  pub max_size : ℕ
  pub compress : Bool
  pub size : ℕ
  pub world : W

-- 2 ^ 64
abbrev pub word : ℕ
word = 18446744073709551616

-- `int64(mb) * 1024 * 1024`, as it wraps around.
abbrev pub to_bytes : ℤ → ℕ
to_bytes (pos n) = (n * 1048576) % word
to_bytes (negsuc n) = (word - ((n + 1) * 1048576) % word) % word

-- 100 MB where the size is not positive.
unfoldable pub max_size_of : ℤ → ℕ
max_size_of mb = let n = to_bytes mb in if n == 0 || leb 9223372036854775808 n then 104857600 else n

module _ {W : Type 0} (disk : LogDisk W) where
  unfoldable pub open_current : Store W → Bool × Store W
  open_current s =
      let (found, w) = disk.open_append s.dir s.world in
      elim found [
        | none ↦ (false, record s { world = w })
        | some n ↦ (true, record s { size = n; world = w })
      ]

  -- `NewStore`
  unfoldable pub new_log : SyslogConfig → W → Option (Store W)
  unfolding open_current max_size_of
  new_log cfg w =
      let (made, w') = disk.mkdir_all cfg.log_dir w in
      if not made
      then none
      else let s : Store W = record {
        dir = cfg.log_dir;
        max_size = max_size_of cfg.rotate.max_size_mb;
        compress = cfg.rotate.compress;
        size = 0;
        world = w';
      } in
        let (ok, s') = open_current s in if ok then some s' else none

  unfoldable pub rename_then_open : Store W → Bool × Store W
  unfolding open_current
  rename_then_open s =
      let (ok, w) = disk.rename_current s.dir s.compress s.world in
      if not ok then (false, record s { world = w }) else open_current (record s { world = w })

  unfoldable pub rotate_locked : Store W → Bool × Store W
  unfolding rename_then_open
  rotate_locked s =
      let (ok, w) = disk.close_file s.world in
      if not ok then (false, record s { world = w }) else rename_then_open (record s { world = w })

  unfoldable pub append_line : Bytes → Store W → Bool × Store W
  append_line line s =
      let ((n, ok), w) = disk.write_file line s.world in
      (ok, record s { size = s.size + n; world = w })

  -- Behind a rotation.
  abbrev pub if_rotated : Bytes → Bool × Store W → Bool × Store W
  if_rotated line (true, s) = append_line line s
  if_rotated line (false, s) = (false, s)

  unfoldable pub write_line : Bytes → Store W → Bool × Store W
  unfolding rotate_locked append_line
  write_line line s =
      if ltb s.max_size (s.size + length line)
      then if_rotated line (rotate_locked s)
      else append_line line s

  -- `Write`
  unfoldable pub write_message : Message → Store W → Bool × Store W
  unfolding write_line
  write_message m s = elim (disk.json_line m) [
    | none ↦ (false, s)
    | some json ↦ write_line (json ++ (b'\n' ∷ [])) s
  ]
