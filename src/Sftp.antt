-- ===== src/Sftp.antt =====
-- internal/sftp/fs.go: the file system of one SFTP session. The calls of package `os` are the record
-- `Os`, over a world that they read and change; a file is known by a handle, and `clock` gives the time
-- in milliseconds. `View` is what `security.SafeJoin` sees of the same world.
pub mod Jailed
pub mod Listing
pub mod Transfers
pub mod Session
pub mod Logins
use do_daemon.Prelude.{
  Bool, Bytes, List, Option, [], false, if◌then◌else◌, inl, inr, none, some, ℕ, ◌++◌, ◌∷◌, ◌⊎◌,
}
use do_daemon.Paths.{Elements, FileSystem, Joined, escapes, failed, joined, safe_join}
use do_daemon.Auth.{User, allows}
use do_daemon.Config.{FtpUser}
use do_daemon.Ftp.{
  Direction, Fallible, FileInfo, Transfer, began, error, get, perm_append, perm_chmod, perm_delete,
  perm_list, perm_make_dir, perm_rename, perm_retrieve, perm_store, put, value,
}

-- The flags of `os.OpenFile` beside `O_WRONLY | O_CREATE`.
pub record OpenFlags : Type 0 where
  pub o_append : Bool
  pub o_trunc : Bool
  pub o_excl : Bool

pub record Os (W : Type 0) : Type 0 where
  pub open_to_read : Elements → W → Fallible ℕ × W
  pub open_file : Elements → OpenFlags → ℕ → W → Fallible ℕ × W
  pub stat_file : ℕ → W → Fallible FileInfo
  pub truncate : Elements → ℕ → W → Fallible Unit × W
  pub rename : Elements → Elements → W → Fallible Unit × W
  pub remove : Elements → W → Fallible Unit × W
  pub mkdir : Elements → ℕ → W → Fallible Unit × W
  pub read_dir : Elements → W → Fallible (List (Fallible FileInfo))
  pub stat : Elements → W → Fallible FileInfo
  pub read_at : ℕ → ℕ → ℕ → W → (Bytes × Option ℕ) × W
  pub write_at : ℕ → Bytes → ℕ → W → (ℕ × Option ℕ) × W
  pub close : ℕ → W → Option ℕ × W
  pub view : W → FileSystem
  pub clock : W → ℕ

-- The flags of a request to open, and `Method` of `sftp.Request`.
pub record Pflags : Type 0 where
  pub append : Bool
  pub trunc : Bool
  pub excl : Bool

pub data Method : Type 0 where
  method_setstat method_rename method_rmdir method_remove : Method
  method_mkdir method_list method_stat method_other : Method

-- `sftp.Request`: `size` is the size among its attributes, where their flags have one.
pub record Request : Type 0 where
  pub method : Method
  pub filepath : Bytes
  pub target : Bytes
  pub pflags : Pflags
  pub size : Option ℕ

-- `jailedFS`; `cwd` is the process's working directory.
pub record JailedFs (W : Type 0) : Type 0 where
  pub os : Os W
  pub user : User
  pub cwd : Option Elements

pub record St (W : Type 0) : Type 0 where
  pub world : W
  pub published : List Transfer

-- `trackedReaderAt`; `last_progress` is `none` before the first `Store`.
pub record TrackedReaderAt : Type 0 where
  pub handle : ℕ
  pub name : Bytes
  pub total : ℕ
  pub direction : Direction
  pub done : ℕ
  pub last_progress : Option ℕ
  pub closed : Bool

pub data Refusal : Type 0 where
  not_permitted outside unresolved unsupported : Refusal

-- What a call comes back with.
pub data Answer : Type 0 where
  refused : Refusal → Answer
  os_error : ℕ → Answer
  accomplished : Answer
  opened : TrackedReaderAt → Answer
  lister : List FileInfo → Answer

-- `newHandlers`
abbrev pub user_of : FtpUser → User
user_of u = record {
  username = u.username;
  password_hash = u.password_hash;
  home_dir = u.home_dir;
  permissions = u.permissions;
}

abbrev pub resolved : Joined → Refusal ⊎ Elements
resolved (joined real) = inr real
resolved escapes = inl outside
resolved failed = inl unresolved

-- The letter that a `Put` needs.
abbrev pub perm_to_write : Pflags → ℕ
perm_to_write flags = if flags.append then perm_append else perm_store

abbrev pub os_flags : Pflags → OpenFlags
os_flags flags = record {
  o_append = flags.append;
  o_trunc = if flags.append then false else flags.trunc;
  o_excl = flags.excl;
}

abbrev pub size_of : Fallible FileInfo → ℕ
size_of (value i) = i.size
size_of (error e) = 0

-- The entries of which `Info` gives no error.
unfoldable pub readable : List (Fallible FileInfo) → List FileInfo
readable [] = []
readable (value i ∷ es) = i ∷ readable es
readable (error e ∷ es) = readable es

abbrev pub describe : Fallible FileInfo → Answer
describe (value i) = lister (i ∷ [])
describe (error e) = os_error e

abbrev pub list_of : Fallible (List (Fallible FileInfo)) → Answer
list_of (value es) = lister (readable es)
list_of (error e) = os_error e

module _ {W : Type 0} (fs : JailedFs W) where
  unfoldable pub resolve : Bytes → St W → Refusal ⊎ Elements
  resolve p st = resolved (safe_join (fs.os.view st.world) fs.cwd fs.user.home_dir p)

  unfoldable pub require : ℕ → Option Refusal
  require perm = if allows fs.user perm then none else some not_permitted

  unfoldable pub publish_transfer : Transfer → St W → St W
  publish_transfer ev st = record st { published = st.published ++ (ev ∷ []) }

  -- `require`, whose error ends the call.
  unfoldable pub unless : Option Refusal → (St W → Answer × St W) → St W → Answer × St W
  unless none rest st = rest st
  unless (some r) rest st = (refused r, st)

  -- `resolve`, whose error ends the call.
  unfoldable pub within :
      Refusal ⊎ Elements → (Elements → St W → Answer × St W) → St W → Answer × St W
  within (inr real) rest st = rest real st
  within (inl r) rest st = (refused r, st)

  unfoldable pub answer : Fallible Unit × W → St W → Answer × St W
  answer (value a, w) st = (accomplished, record st { world = w })
  answer (error e, w) st = (os_error e, record st { world = w })

  unfoldable pub track : Fallible ℕ × W → Direction → Bytes → (ℕ → W → ℕ) → St W → Answer × St W
  unfolding publish_transfer
  track (error e, w) direction name total st = (os_error e, record st { world = w })
  track (value h, w) direction name total st = (
    opened (record {
      handle = h;
      name = name;
      total = total h w;
      direction = direction;
      done = 0;
      last_progress = none;
      closed = false;
    }),
    publish_transfer (began direction name) (record st { world = w }),
  )

  -- The rest of `Fileread`, and of `Filewrite`, where the path is resolved.
  unfoldable pub open_read : Request → Elements → St W → Answer × St W
  unfolding track
  open_read r real st =
      track (fs.os.open_to_read real st.world) get r.filepath (λ h w. size_of (fs.os.stat_file h w))
        st

  unfoldable pub open_write : Request → Elements → St W → Answer × St W
  unfolding track
  open_write r real st =
      track (fs.os.open_file real (os_flags r.pflags) 420 st.world) put r.filepath (λ h w. 0) st

  unfoldable pub file_read : Request → St W → Answer × St W
  unfolding require unless resolve within open_read
  file_read r st =
      unless (require perm_retrieve)
        (λ s. within (resolve r.filepath s) (λ real t. open_read r real t) s) st

  unfoldable pub file_write : Request → St W → Answer × St W
  unfolding require unless resolve within open_write
  file_write r st =
      unless (require (perm_to_write r.pflags))
        (λ s. within (resolve r.filepath s) (λ real t. open_write r real t) s) st

  -- `os.Truncate` where the attributes have a size.
  abbrev pub set_size : Option ℕ → Elements → St W → Answer × St W
  set_size none real st = (accomplished, st)
  set_size (some n) real st = answer (fs.os.truncate real n st.world) st

  unfoldable pub command : Method → Request → St W → Answer × St W
  unfolding require unless resolve within answer
  command method_setstat r st =
      unless (require perm_chmod)
        (λ s. within (resolve r.filepath s) (λ real t. set_size r.size real t) s) st
  command method_rename r st =
      unless (require perm_rename)
        (λ s.
          within (resolve r.filepath s)
            (λ old t.
              within (resolve r.target t) (λ new u. answer (fs.os.rename old new u.world) u) t)
            s)
        st
  command method_rmdir r st =
      unless (require perm_delete)
        (λ s. within (resolve r.filepath s) (λ real t. answer (fs.os.remove real t.world) t) s) st
  command method_remove r st =
      unless (require perm_delete)
        (λ s. within (resolve r.filepath s) (λ real t. answer (fs.os.remove real t.world) t) s) st
  command method_mkdir r st =
      unless (require perm_make_dir)
        (λ s. within (resolve r.filepath s) (λ real t. answer (fs.os.mkdir real 493 t.world) t) s)
        st
  command _ r st = (refused unsupported, st)

  unfoldable pub file_cmd : Request → St W → Answer × St W
  unfolding command
  file_cmd r st = command r.method r st

  -- The answer to `List` and `Stat`.
  abbrev pub listing : Method → Elements → St W → Answer
  listing method_list real st = list_of (fs.os.read_dir real st.world)
  listing method_stat real st = describe (fs.os.stat real st.world)
  listing _ real st = refused unsupported

  unfoldable pub file_list : Request → St W → Answer × St W
  unfolding require unless resolve within
  file_list r st =
      unless (require perm_list)
        (λ s. within (resolve r.filepath s) (λ real t. (listing r.method real t, t)) s) st
