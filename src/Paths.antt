-- ===== src/Paths.antt =====
-- internal/security/path.go, with what it takes of `path/filepath` on a system whose separator is a
-- slash. A cleaned path is whether it is rooted, and its elements.
pub mod Confined
use do_daemon.Prelude.{
  Bool, Bytes, List, Option, [], codes, equal, false, if◌then◌else◌, none, not, reverse, some, true,
  ◌++◌, ◌==◌, ◌>>=◌, ◌||◌, ◌∷◌,
}

abbrev pub Elements : Type 0
Elements = List Bytes

abbrev pub dot : Bytes
dot = codes "."

abbrev pub dot_dot : Bytes
dot_dot = codes ".."

-- The elements between slashes, the empty ones included.
unfoldable pub split_slash : Bytes → Elements
split_slash [] = [] ∷ []
split_slash (c ∷ s) = elim (split_slash s) [
  | [] ↦ []
  | p ∷ ps ↦ if c == b'/' then [] ∷ p ∷ ps else (c ∷ p) ∷ ps
]

unfoldable pub is_rooted : Bytes → Bool
is_rooted [] = false
is_rooted (c ∷ s) = c == b'/'

unfoldable pub push : Bool → Elements → Bytes → Elements
push rooted [] p =
    if equal p [] || equal p dot
    then []
    else if equal p dot_dot
    then (if rooted then [] else dot_dot ∷ [])
    else p ∷ []
push rooted (q ∷ st) p =
    if equal p [] || equal p dot
    then q ∷ st
    else if equal p dot_dot
    then (if equal q dot_dot then dot_dot ∷ q ∷ st else st)
    else p ∷ q ∷ st

-- The loop of `Clean`: `st` is what has been written, the last element first.
unfoldable pub clean_loop : Bool → Elements → Elements → Elements
unfolding push
clean_loop rooted st [] = st
clean_loop rooted st (p ∷ ps) = clean_loop rooted (push rooted st p) ps

unfoldable pub clean_elements : Bool → Elements → Elements
unfolding clean_loop
clean_elements rooted ps = reverse (clean_loop rooted [] ps)

-- `filepath.Clean`
unfoldable pub clean : Bytes → Elements
unfolding clean_elements split_slash is_rooted
clean s = clean_elements (is_rooted s) (split_slash s)

-- `filepath.Join` of a rooted path and more elements.
unfoldable pub join : Elements → Elements → Elements
unfolding clean_elements
join base more = clean_elements true (base ++ more)

-- `filepath.Abs`; `cwd` is the working directory, `none` where it cannot be read.
unfoldable pub abs : Option Elements → Bytes → Option Elements
unfolding clean join
abs cwd root =
    if is_rooted root then some (clean root) else (do w ← cwd; some (join w (split_slash root)))

unfoldable pub climb : Elements → Elements
climb [] = []
climb (b ∷ bs) = dot_dot ∷ climb bs

-- `filepath.Rel` of two rooted paths; no element is ".".
unfoldable pub rel : Elements → Elements → Elements
unfolding climb
rel [] ts = ts
rel (b ∷ bs) [] = climb (b ∷ bs)
rel (b ∷ bs) (t ∷ ts) =
    let rest = rel bs ts in if equal b t then rest else climb (b ∷ bs) ++ (t ∷ ts)

-- The tests on `rel`: "." has no element, and ".." and what begins with "../" begin with "..".
abbrev pub stays : Elements → Bool
stays [] = true
stays (p ∷ ps) = not (equal p dot_dot)

unfoldable pub is_within_root : Elements → Elements → Bool
unfolding rel
is_within_root root candidate = stays (rel root candidate)

-- What `os.Lstat` says of a path.
pub data Entry : Type 0 where
  present missing unreadable : Entry

-- The file system: `os.Lstat` and `filepath.EvalSymlinks`.
pub record FileSystem : Type 0 where
  pub lstat : Elements → Entry
  pub eval_symlinks : Elements → Option Elements

-- `resolveExisting`: `cur` is the path still looked at, the last element first. `none` is an error.
unfoldable pub resolve_loop : FileSystem → Elements → Elements → Elements → Option Elements
unfolding join
resolve_loop fs path [] segments = elim (fs.lstat []) [
  | present ↦ do real ← fs.eval_symlinks []; some (join real segments)
  | missing ↦ some path
  | unreadable ↦ none
]
resolve_loop fs path (p ∷ cur) segments = elim (fs.lstat (reverse (p ∷ cur))) [
  | present ↦ do real ← fs.eval_symlinks (reverse (p ∷ cur)); some (join real segments)
  | missing ↦ resolve_loop fs path cur (p ∷ segments)
  | unreadable ↦ none
]

unfoldable pub resolve_existing : FileSystem → Elements → Option Elements
unfolding resolve_loop
resolve_existing fs path = resolve_loop fs path (reverse path) []

pub data Joined : Type 0 where
  joined : Elements → Joined
  escapes : Joined
  failed : Joined

unfoldable pub check_resolved : FileSystem → Elements → Elements → Joined
unfolding resolve_existing is_within_root
check_resolved fs abs_root candidate = elim (resolve_existing fs candidate) [
  | none ↦ failed
  | some resolved ↦ if is_within_root abs_root resolved then joined candidate else escapes
]

unfoldable pub safe_join : FileSystem → Option Elements → Bytes → Bytes → Joined
unfolding abs clean check_resolved join
safe_join fs cwd root user_path = elim (abs cwd root) [
  | none ↦ failed
  | some abs_root ↦
      let candidate = join abs_root (clean user_path) in
      if is_within_root abs_root candidate then check_resolved fs abs_root candidate else escapes
]
