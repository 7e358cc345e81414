-- ===== src/Ftp.antt =====
-- internal/ftp/permfs.go. `afero.NewBasePathFs` and the files it opens are the record `Inner`, over a
-- world that its calls read and change; `view` is what `os.Lstat` and `EvalSymlinks` see of the same
-- world, and `clock` its time in milliseconds.
pub mod Guarded
pub mod Files
pub mod Connections
pub mod Logins
use do_daemon.Prelude.{
  Bool, Bytes, List, Option, [], false, if◌then◌else◌, none, some, ℕ, ◌&&◌, ◌++◌, ◌||◌, ◌∷◌,
}
use do_daemon.Paths.{Elements, FileSystem, Joined, escapes, failed, joined, safe_join}
use do_daemon.Auth.{User, allows}

-- A result and a Go error, one of which there is.
pub data Fallible (A : Type 0) : Type 0 where
  value : A → Fallible A
  error : ℕ → Fallible A

pub record FileInfo : Type 0 where
  pub is_dir : Bool
  pub size : ℕ

-- The flags of `OpenFile`, which tests only `O_WRONLY`, `O_RDWR` and `O_APPEND` itself.
pub record Flags : Type 0 where
  pub wronly : Bool
  pub rdwr : Bool
  pub create : Bool
  pub trunc : Bool
  pub append : Bool

-- A file is known by a handle.
pub record Inner (W : Type 0) : Type 0 where
  pub create : Bytes → W → Fallible ℕ × W
  pub mkdir : Bytes → ℕ → W → Fallible Unit × W
  pub mkdir_all : Bytes → ℕ → W → Fallible Unit × W
  pub open_path : Bytes → W → Fallible ℕ × W
  pub open_file : Bytes → Flags → ℕ → W → Fallible ℕ × W
  pub remove : Bytes → W → Fallible Unit × W
  pub remove_all : Bytes → W → Fallible Unit × W
  pub rename : Bytes → Bytes → W → Fallible Unit × W
  pub stat : Bytes → W → Fallible FileInfo
  pub read_dir : Bytes → W → Fallible (List FileInfo)
  pub chmod : Bytes → ℕ → W → Fallible Unit × W
  pub chtimes : Bytes → ℕ → ℕ → W → Fallible Unit × W
  pub file_read : ℕ → ℕ → W → (Bytes × Option ℕ) × W
  pub file_write : ℕ → Bytes → W → (ℕ × Option ℕ) × W
  pub file_close : ℕ → W → Option ℕ × W
  pub view : W → FileSystem
  pub clock : W → ℕ

pub data Direction : Type 0 where
  get put : Direction

-- The events that are published: of a file, with the bytes done and in all where they are given.
pub data Transfer : Type 0 where
  began : Direction → Bytes → Transfer
  moved : Direction → Bytes → ℕ → ℕ → Transfer
  ended : Direction → Bytes → Transfer

-- `permissionFs`; `has_bus` is `f.bus != nil`, `cwd` the working directory.
pub record PermissionFs (W : Type 0) : Type 0 where
  pub inner : Inner W
  pub root : Bytes
  pub user : User
  pub has_bus : Bool
  pub cwd : Option Elements

pub record St (W : Type 0) : Type 0 where
  pub world : W
  pub published : List Transfer

-- `trackedFile`
pub record TrackedFile : Type 0 where
  pub handle : ℕ
  pub direction : Direction
  pub name : Bytes
  pub total : ℕ
  pub done : ℕ
  pub closed : Bool
  pub last_progress : ℕ

pub data Refusal : Type 0 where
  path_escapes path_failed permission : Refusal

-- What a call comes back with.
pub data Answer : Type 0 where
  denied : Refusal → Answer
  inner_error : ℕ → Answer
  finished : Answer
  tracked : TrackedFile → Answer
  directory : ℕ → Answer
  described : FileInfo → Answer
  listed : List FileInfo → Answer

abbrev pub perm_list : ℕ
perm_list = b'l'

abbrev pub perm_retrieve : ℕ
perm_retrieve = b'r'

abbrev pub perm_append : ℕ
perm_append = b'a'

abbrev pub perm_delete : ℕ
perm_delete = b'd'

abbrev pub perm_rename : ℕ
perm_rename = b'f'

abbrev pub perm_make_dir : ℕ
perm_make_dir = b'm'

abbrev pub perm_store : ℕ
perm_store = b'w'

abbrev pub perm_chmod : ℕ
perm_chmod = b'M'

abbrev pub perm_mod_time : ℕ
perm_mod_time = b'T'

abbrev pub progress_interval : ℕ
progress_interval = 200

unfoldable pub refusal_of : Joined → Option Refusal
refusal_of (joined c) = none
refusal_of escapes = some path_escapes
refusal_of failed = some path_failed

-- What `Open` takes of `Stat`: whether it is a directory, and its size.
unfoldable pub looked_up : Fallible FileInfo → Bool × ℕ
looked_up (value i) = (i.is_dir, i.size)
looked_up (error e) = (false, 0)

-- The permission and the direction that the flags ask for.
unfoldable pub by_flags : Flags → ℕ × Direction
by_flags flag =
    if (flag.wronly || flag.rdwr) && flag.append
    then (perm_append, put)
    else if flag.wronly || flag.rdwr
    then (perm_store, put)
    else (perm_retrieve, get)

-- The size that is announced: that of a file to be read.
unfoldable pub size_for : Direction → Fallible FileInfo → ℕ
unfolding looked_up
size_for get found = (looked_up found).1
size_for put found = 0

module _ {W : Type 0} where
  unfoldable pub publish : PermissionFs W → Transfer → St W → St W
  publish f ev st = if f.has_bus then record st { published = st.published ++ (ev ∷ []) } else st

  unfoldable pub check_path : PermissionFs W → Bytes → St W → Option Refusal
  unfolding refusal_of
  check_path f name st = refusal_of (safe_join (f.inner.view st.world) f.cwd f.root name)

  unfoldable pub require : PermissionFs W → ℕ → Option Refusal
  require f perm = if allows f.user perm then none else some permission

  -- `if err := ...; err != nil { return err }`
  unfoldable pub unless : Option Refusal → (St W → Answer × St W) → St W → Answer × St W
  unless none rest st = rest st
  unless (some r) rest st = (denied r, st)

  -- The answer to a call of `inner`, whose error is returned as it is.
  unfoldable pub answer : {A : Type 0} → (A → Answer) → Fallible A × W → St W → Answer × St W
  answer ok (value a, w) st = (ok a, record st { world = w })
  answer ok (error e, w) st = (inner_error e, record st { world = w })

  unfoldable pub track :
      PermissionFs W → Fallible ℕ × W → Direction → Bytes → ℕ → St W → Answer × St W
  unfolding publish
  track f (error e, w) direction name total st = (inner_error e, record st { world = w })
  track f (value h, w) direction name total st = (
    tracked (record {
      handle = h;
      direction = direction;
      name = name;
      total = total;
      done = 0;
      closed = false;
      last_progress = f.inner.clock w;
    }),
    publish f (began direction name) (record st { world = w }),
  )

  unfoldable pub create : PermissionFs W → Bytes → St W → Answer × St W
  unfolding check_path require unless track
  create f name st =
      unless (check_path f name st)
        (unless (require f perm_store) (λ s. track f (f.inner.create name s.world) put name 0 s)) st

  unfoldable pub mkdir : PermissionFs W → Bytes → ℕ → St W → Answer × St W
  unfolding check_path require unless answer
  mkdir f name perm st =
      unless (check_path f name st)
        (unless (require f perm_make_dir)
          (λ s. answer (λ _. finished) (f.inner.mkdir name perm s.world) s))
        st

  unfoldable pub mkdir_all : PermissionFs W → Bytes → ℕ → St W → Answer × St W
  unfolding check_path require unless answer
  mkdir_all f path perm st =
      unless (check_path f path st)
        (unless (require f perm_make_dir)
          (λ s. answer (λ _. finished) (f.inner.mkdir_all path perm s.world) s))
        st

  unfoldable pub open_path : PermissionFs W → Bytes → St W → Answer × St W
  unfolding check_path require unless answer track looked_up
  open_path f name st =
      unless (check_path f name st)
        (λ s.
          let (is_dir, size) = looked_up (f.inner.stat name s.world) in
          if is_dir
          then unless (require f perm_list)
              (λ t. answer directory (f.inner.open_path name t.world) t) s
          else unless (require f perm_retrieve)
              (λ t. track f (f.inner.open_path name t.world) get name size t) s)
        st

  unfoldable pub open_file : PermissionFs W → Bytes → Flags → ℕ → St W → Answer × St W
  unfolding check_path require unless track by_flags size_for
  open_file f name flag perm st =
      let (needed, direction) = by_flags flag in
      unless (check_path f name st)
        (unless (require f needed) (λ s.
          let size = size_for direction (f.inner.stat name s.world) in
          track f (f.inner.open_file name flag perm s.world) direction name size s))
        st

  unfoldable pub remove : PermissionFs W → Bytes → St W → Answer × St W
  unfolding check_path require unless answer
  remove f name st =
      unless (check_path f name st)
        (unless (require f perm_delete)
          (λ s. answer (λ _. finished) (f.inner.remove name s.world) s))
        st

  unfoldable pub remove_dir : PermissionFs W → Bytes → St W → Answer × St W
  unfolding remove
  remove_dir f name st = remove f name st

  unfoldable pub remove_all : PermissionFs W → Bytes → St W → Answer × St W
  unfolding check_path require unless answer
  remove_all f path st =
      unless (check_path f path st)
        (unless (require f perm_delete)
          (λ s. answer (λ _. finished) (f.inner.remove_all path s.world) s))
        st

  unfoldable pub rename : PermissionFs W → Bytes → Bytes → St W → Answer × St W
  unfolding check_path require unless answer
  rename f oldname newname st =
      unless (check_path f oldname st)
        (unless (check_path f newname st) (
          unless (require f perm_rename)
            (λ s. answer (λ _. finished) (f.inner.rename oldname newname s.world) s)))
        st

  -- A call that leaves the world as it is.
  unfoldable pub look : {A : Type 0} → (A → Answer) → Fallible A → St W → Answer × St W
  look ok (value a) st = (ok a, st)
  look ok (error e) st = (inner_error e, st)

  unfoldable pub stat : PermissionFs W → Bytes → St W → Answer × St W
  unfolding check_path unless look
  stat f name st =
      unless (check_path f name st) (λ s. look described (f.inner.stat name s.world) s) st

  unfoldable pub read_dir : PermissionFs W → Bytes → St W → Answer × St W
  unfolding check_path require unless look
  read_dir f name st =
      unless (check_path f name st)
        (unless (require f perm_list) (λ s. look listed (f.inner.read_dir name s.world) s)) st

  unfoldable pub chmod : PermissionFs W → Bytes → ℕ → St W → Answer × St W
  unfolding check_path require unless answer
  chmod f name mode st =
      unless (check_path f name st)
        (unless (require f perm_chmod)
          (λ s. answer (λ _. finished) (f.inner.chmod name mode s.world) s))
        st

  unfoldable pub chtimes : PermissionFs W → Bytes → ℕ → ℕ → St W → Answer × St W
  unfolding check_path require unless answer
  chtimes f name atime mtime st =
      unless (check_path f name st)
        (unless (require f perm_mod_time)
          (λ s. answer (λ _. finished) (f.inner.chtimes name atime mtime s.world) s))
        st

  unfoldable pub chown : PermissionFs W → Bytes → ℕ → ℕ → St W → Answer × St W
  chown f name uid gid st = (denied permission, st)

-- The calls of the file system.
pub data Call : Type 0 where
  call_create call_open call_remove call_remove_dir call_remove_all call_stat call_read_dir :
      Bytes → Call
  call_mkdir call_mkdir_all call_chmod : Bytes → ℕ → Call
  call_open_file : Bytes → Flags → ℕ → Call
  call_rename : Bytes → Bytes → Call
  call_chtimes call_chown : Bytes → ℕ → ℕ → Call

unfoldable pub perform : {W : Type 0} → PermissionFs W → Call → St W → Answer × St W
unfolding create open_path remove remove_dir remove_all stat read_dir mkdir mkdir_all chmod
    open_file rename chtimes chown
perform f (call_create name) st = create f name st
perform f (call_open name) st = open_path f name st
perform f (call_remove name) st = remove f name st
perform f (call_remove_dir name) st = remove_dir f name st
perform f (call_remove_all path) st = remove_all f path st
perform f (call_stat name) st = stat f name st
perform f (call_read_dir name) st = read_dir f name st
perform f (call_mkdir name perm) st = mkdir f name perm st
perform f (call_mkdir_all path perm) st = mkdir_all f path perm st
perform f (call_chmod name mode) st = chmod f name mode st
perform f (call_open_file name flag perm) st = open_file f name flag perm st
perform f (call_rename oldname newname) st = rename f oldname newname st
perform f (call_chtimes name atime mtime) st = chtimes f name atime mtime st
perform f (call_chown name uid gid) st = chown f name uid gid st
