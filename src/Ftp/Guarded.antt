-- ===== src/Ftp/Guarded.antt =====
-- internal/ftp/permfs.go, every operation: what a user must be allowed for a call to reach the files below the home
-- directory.
use do_daemon.Prelude.{
  All, Bool, Bool-cases, Bytes, List, [], false, if◌then◌else◌, inl, inr, none, refl, some, sym,
  true, ℕ, ◌||◌, ◌∙◌, ◌∷◌, ◌≡◌, ◌⊎◌,
}
use do_daemon.Auth.{allows}
use do_daemon.Ftp.{
  Answer, Call, Direction, Fallible, FileInfo, Flags, PermissionFs, Refusal, St, answer, by_flags,
  call_chmod, call_chown, call_chtimes, call_create, call_mkdir, call_mkdir_all, call_open,
  call_open_file, call_read_dir, call_remove, call_remove_all, call_remove_dir, call_rename,
  call_stat, check_path, chmod, chown, chtimes, create, denied, described, directory, error,
  finished, get, inner_error, listed, look, looked_up, mkdir, mkdir_all, open_file, open_path,
  path_escapes, path_failed, perform, perm_chmod, perm_delete, perm_list, perm_make_dir,
  perm_mod_time, perm_rename, perm_retrieve, perm_store, permission, put, read_dir, refusal_of,
  remove, remove_all, remove_dir, rename, require, size_for, stat, track, tracked, unless, value,
}
use mathlib.Core.Path.{subst}
use do_daemon.Paths.{Elements, Joined, escapes, failed, joined, safe_join}

abbrev pub names : Call → List Bytes
names (call_create name) = name ∷ []
names (call_open name) = name ∷ []
names (call_remove name) = name ∷ []
names (call_remove_dir name) = name ∷ []
names (call_remove_all path) = path ∷ []
names (call_stat name) = name ∷ []
names (call_read_dir name) = name ∷ []
names (call_mkdir name perm) = name ∷ []
names (call_mkdir_all path perm) = path ∷ []
names (call_chmod name mode) = name ∷ []
names (call_open_file name flag perm) = name ∷ []
names (call_rename oldname newname) = oldname ∷ newname ∷ []
names (call_chtimes name atime mtime) = name ∷ []
names (call_chown name uid gid) = name ∷ []

-- The letter for a file of which `Stat` says this.
abbrev pub letter_to_open : Fallible FileInfo → ℕ
letter_to_open (value i) = if i.is_dir then b'l' else b'r'
letter_to_open (error e) = b'r'

abbrev pub letter_for : Flags → ℕ
letter_for flag = if flag.wronly || flag.rdwr then (if flag.append then b'a' else b'w') else b'r'

-- Whether the user's letters allow a call.
abbrev pub granted : {W : Type 0} → PermissionFs W → W → Call → Bool
granted f w (call_create name) = allows f.user b'w'
granted f w (call_open name) = allows f.user (letter_to_open (f.inner.stat name w))
granted f w (call_remove name) = allows f.user b'd'
granted f w (call_remove_dir name) = allows f.user b'd'
granted f w (call_remove_all path) = allows f.user b'd'
granted f w (call_stat name) = true
granted f w (call_read_dir name) = allows f.user b'l'
granted f w (call_mkdir name perm) = allows f.user b'm'
granted f w (call_mkdir_all path perm) = allows f.user b'm'
granted f w (call_chmod name mode) = allows f.user b'M'
granted f w (call_open_file name flag perm) = allows f.user (letter_for flag)
granted f w (call_rename oldname newname) = allows f.user b'f'
granted f w (call_chtimes name atime mtime) = allows f.user b'T'
granted f w (call_chown name uid gid) = false

-- The name is joined to the home directory.
abbrev pub IsConfined : {W : Type 0} → PermissionFs W → W → Bytes → Type 0
IsConfined f w name =
    (path : Elements) × (safe_join (f.inner.view w) f.cwd f.root name ≡ joined path)

abbrev pub is_denied : Answer → Bool
is_denied (denied r) = true
is_denied (inner_error e) = false
is_denied finished = false
is_denied (tracked t) = false
is_denied (directory h) = false
is_denied (described i) = false
is_denied (listed is) = false

module _ {W : Type 0} (f : PermissionFs W) where
  -- Each outcome of a call: it was carried out on confined names with the letter for it, or it was
  -- denied and nothing has changed.
  unfoldable pub IsGuarded : Call → St W → Type 0
  IsGuarded c st =
      (All (IsConfined f st.world) (names c)
        × ((granted f st.world c ≡ true) × (is_denied (perform f c st).0 ≡ false)))
      ⊎ ((r : Refusal) × (perform f c st ≡ (denied r, st)))

  check_path-cases :
      (name : Bytes) (st : St W)
      → ((r : Refusal) × (check_path f name st ≡ some r))
        ⊎ (IsConfined f st.world name × (check_path f name st ≡ none))
  unfolding check_path
  check_path-cases name st = by (safe_join (f.inner.view st.world) f.cwd f.root name) refl
    where
      by :
          (j : Joined)
          → safe_join (f.inner.view st.world) f.cwd f.root name ≡ j
          → ((r : Refusal) × (refusal_of j ≡ some r))
            ⊎ (IsConfined f st.world name × (refusal_of j ≡ none))
      by (joined path) e = inr ((path, e), refl)
      by escapes e = inl (path_escapes, refl)
      by failed e = inl (path_failed, refl)

  -- One path check and what comes after it.
  after_path-IsGuarded :
      (name : Bytes) (st : St W) (rest : St W → Answer × St W) (P : Type 0)
      → (out : Answer × St W) → out ≡ unless (check_path f name st) rest st
      → (P × (is_denied (rest st).0 ≡ false)) ⊎ ((r : Refusal) × (rest st ≡ (denied r, st)))
      → (IsConfined f st.world name × (P × (is_denied out.0 ≡ false)))
        ⊎ ((r : Refusal) × (out ≡ (denied r, st)))
  unfolding unless
  after_path-IsGuarded name st rest P out e h = elim (check_path-cases name st) [
    | inl (r, is) ↦ inr (r, rw is at e)
    | inr (at, is) ↦ elim h [
      | inl (g, d) ↦ inl (at, (g, rw (rw is at e) d))
      | inr (r, d) ↦ inr (r, rw is at e ∙ d)
    ]
  ]

  -- One letter and the call that needs it.
  after_letter-IsGuarded :
      (perm : ℕ) (st : St W) (rest : St W → Answer × St W)
      → is_denied (rest st).0 ≡ false
      → ((allows f.user perm ≡ true) × (is_denied (unless (require f perm) rest st).0 ≡ false))
        ⊎ ((r : Refusal) × (unless (require f perm) rest st ≡ (denied r, st)))
  unfolding unless require
  after_letter-IsGuarded perm st rest d = elim (Bool-cases (allows f.user perm)) [
    | inl a ↦ inl (a, rw a d)
    | inr a ↦ inr (permission, rw a refl)
  ]

  answer_granted :
      {A : Type 0} (ok : A → Answer) (r : Fallible A × W) (st : St W)
      → ((a : A) → is_denied (ok a) ≡ false)
      → is_denied (answer ok r st).0 ≡ false
  unfolding answer
  answer_granted ok (value a, w) st h = h a
  answer_granted ok (error e, w) st h = refl

  look_granted :
      {A : Type 0} (ok : A → Answer) (r : Fallible A) (st : St W)
      → ((a : A) → is_denied (ok a) ≡ false)
      → is_denied (look ok r st).0 ≡ false
  unfolding look
  look_granted ok (value a) st h = h a
  look_granted ok (error e) st h = refl

  track_granted :
      (r : Fallible ℕ × W) (direction : Direction) (name : Bytes) (total : ℕ) (st : St W)
      → is_denied (track f r direction name total st).0 ≡ false
  unfolding track
  track_granted (value a, w) direction name total st = refl
  track_granted (error e, w) direction name total st = refl

  -- A call on one name, with one letter.
  one_name-IsGuarded :
      (name : Bytes) (st : St W) (perm : ℕ) (rest : St W → Answer × St W)
      → is_denied (rest st).0 ≡ false
      → (out : Answer × St W)
      → out ≡ unless (check_path f name st) (unless (require f perm) rest) st
      → (All (IsConfined f st.world) (name ∷ [])
          × ((allows f.user perm ≡ true) × (is_denied out.0 ≡ false)))
        ⊎ ((r : Refusal) × (out ≡ (denied r, st)))
  one_name-IsGuarded name st perm rest d out e =
      elim (after_path-IsGuarded name st (unless (require f perm) rest) (allows f.user perm ≡ true)
        out e (after_letter-IsGuarded perm st rest d)) [
          | inl (c, g) ↦ inl ((c, tt), g)
          | inr r ↦ inr r
        ]

  letter_for-by_flags : (flag : Flags) → letter_for flag ≡ (by_flags flag).0
  unfolding by_flags
  letter_for-by_flags flag = elim (Bool-cases (flag.wronly || flag.rdwr)) [
    | inl w ↦ elim (Bool-cases flag.append) [ inl a ↦ rw (w, a) refl | inr a ↦ rw (w, a) refl ]
    | inr w ↦ rw w refl
  ]

  open_file-IsGuarded :
      (name : Bytes) (flag : Flags) (perm : ℕ) (st : St W)
      → IsGuarded (call_open_file name flag perm) st
  unfolding IsGuarded perform open_file
  open_file-IsGuarded name flag perm st =
      subst
        (λ l.
          (All (IsConfined f st.world) (name ∷ [])
            × ((allows f.user l ≡ true) × (is_denied (open_file f name flag perm st).0 ≡ false)))
          ⊎ ((r : Refusal) × (open_file f name flag perm st ≡ (denied r, st))))
        (sym (letter_for-by_flags flag))
        (one_name-IsGuarded name st (by_flags flag).0 _
          (track_granted (f.inner.open_file name flag perm st.world) (by_flags flag).1 name
            (size_for (by_flags flag).1 (f.inner.stat name st.world)) st)
          (open_file f name flag perm st) refl)

  -- `Open` after its path check.
  abbrev opened : Bytes → St W → Answer × St W
  opened name s =
      let (is_dir, size) = looked_up (f.inner.stat name s.world) in
      if is_dir
      then unless (require f perm_list) (λ t. answer directory (f.inner.open_path name t.world) t) s
      else unless (require f perm_retrieve)
          (λ t. track f (f.inner.open_path name t.world) get name size t) s

  opened_lem :
      (name : Bytes) (st : St W) (found : Fallible FileInfo)
      → f.inner.stat name st.world ≡ found
      → ((allows f.user (letter_to_open found) ≡ true) × (is_denied (opened name st).0 ≡ false))
        ⊎ ((r : Refusal) × (opened name st ≡ (denied r, st)))
  unfolding looked_up
  opened_lem name st (error e) at = rw at (
      after_letter-IsGuarded perm_retrieve st _
        (track_granted (f.inner.open_path name st.world) get name 0 st))
  opened_lem name st (value i) at = elim (Bool-cases i.is_dir) [
    | inl d ↦
        rw (at, d)
          (after_letter-IsGuarded perm_list st _
            (answer_granted directory (f.inner.open_path name st.world) st (λ _. refl)))
    | inr d ↦
        rw (at, d)
          (after_letter-IsGuarded perm_retrieve st _
            (track_granted (f.inner.open_path name st.world) get name i.size st))
  ]

  renamed_lem :
      (old new : Bytes) (st : St W)
      → let rest =
          unless
            (check_path f new st)
            (unless
              (require f perm_rename)
              (λ s. answer (λ _. finished) (f.inner.rename old new s.world) s))
            st in
        ((IsConfined f st.world new × (allows f.user b'f' ≡ true)) × (is_denied rest.0 ≡ false))
        ⊎ ((r : Refusal) × (rest ≡ (denied r, st)))
  renamed_lem old new st =
      elim (one_name-IsGuarded new st perm_rename
        (λ s. answer (λ _. finished) (f.inner.rename old new s.world) s)
        (answer_granted (λ _. finished) (f.inner.rename old new st.world) st (λ _. refl))
        (unless (check_path f new st)
          (unless (require f perm_rename)
            (λ s. answer (λ _. finished) (f.inner.rename old new s.world) s))
          st)
        refl) [ inl ((c, _), (g, d)) ↦ inl ((c, g), d) | inr r ↦ inr r ]

  -- A call that is carried out is on names confined to the home directory and has the letter it
  -- needs; any other call is denied, and neither the files nor what is published change.
  pub perform-IsGuarded : (c : Call) (st : St W) → IsGuarded c st
  unfolding IsGuarded perform create remove remove_dir remove_all mkdir mkdir_all chmod chtimes
      chown open_path open_file stat read_dir rename by_flags looked_up
  perform-IsGuarded (call_create name) st =
      one_name-IsGuarded name st perm_store _
        (track_granted (f.inner.create name st.world) put name 0 st) (create f name st) refl
  perform-IsGuarded (call_remove name) st =
      one_name-IsGuarded name st perm_delete _
        (answer_granted (λ _. finished) (f.inner.remove name st.world) st (λ _. refl))
        (remove f name st) refl
  perform-IsGuarded (call_remove_dir name) st =
      one_name-IsGuarded name st perm_delete _
        (answer_granted (λ _. finished) (f.inner.remove name st.world) st (λ _. refl))
        (remove f name st) refl
  perform-IsGuarded (call_remove_all name) st =
      one_name-IsGuarded name st perm_delete _
        (answer_granted (λ _. finished) (f.inner.remove_all name st.world) st (λ _. refl))
        (remove_all f name st) refl
  perform-IsGuarded (call_mkdir name perm) st =
      one_name-IsGuarded name st perm_make_dir _
        (answer_granted (λ _. finished) (f.inner.mkdir name perm st.world) st (λ _. refl))
        (mkdir f name perm st) refl
  perform-IsGuarded (call_mkdir_all name perm) st =
      one_name-IsGuarded name st perm_make_dir _
        (answer_granted (λ _. finished) (f.inner.mkdir_all name perm st.world) st (λ _. refl))
        (mkdir_all f name perm st) refl
  perform-IsGuarded (call_chmod name mode) st =
      one_name-IsGuarded name st perm_chmod _
        (answer_granted (λ _. finished) (f.inner.chmod name mode st.world) st (λ _. refl))
        (chmod f name mode st) refl
  perform-IsGuarded (call_chtimes name a m) st =
      one_name-IsGuarded name st perm_mod_time _
        (answer_granted (λ _. finished) (f.inner.chtimes name a m st.world) st (λ _. refl))
        (chtimes f name a m st) refl
  perform-IsGuarded (call_read_dir name) st =
      one_name-IsGuarded name st perm_list _
        (look_granted listed (f.inner.read_dir name st.world) st (λ _. refl)) (read_dir f name st)
        refl
  perform-IsGuarded (call_chown name uid gid) st = inr (permission, refl)
  perform-IsGuarded (call_stat name) st =
      elim (after_path-IsGuarded name st _ (true ≡ true) (stat f name st) refl
        (inl (refl, look_granted described (f.inner.stat name st.world) st (λ _. refl)))) [
          | inl (c, g) ↦ inl ((c, tt), g)
          | inr r ↦ inr r
        ]
  perform-IsGuarded (call_open name) st =
      elim (after_path-IsGuarded name st (opened name)
        (allows f.user (letter_to_open (f.inner.stat name st.world)) ≡ true) (open_path f name st)
        refl (opened_lem name st (f.inner.stat name st.world) refl)) [
          | inl (c, g) ↦ inl ((c, tt), g)
          | inr r ↦ inr r
        ]
  perform-IsGuarded (call_open_file name flag perm) st = open_file-IsGuarded name flag perm st
  perform-IsGuarded (call_rename old new) st =
      elim (after_path-IsGuarded old st _ (IsConfined f st.world new × (allows f.user b'f' ≡ true))
        (rename f old new st) refl (renamed_lem old new st)) [
          | inl (c, ((n, g), d)) ↦ inl ((c, (n, tt)), (g, d))
          | inr r ↦ inr r
        ]
