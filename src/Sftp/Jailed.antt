-- ===== src/Sftp/Jailed.antt =====
-- internal/sftp/fs.go: which files a call can reach, and what its user must be allowed.
use do_daemon.Prelude.{
  Bool-cases, Bytes, Option, [], ap, if◌then◌else◌, inl, inr, none, refl, some, sym, true, ℕ, ◌∙◌,
  ◌≡◌, ◌⊎◌,
}
use do_daemon.Paths.{Elements, Joined, abs, escapes, failed, joined, safe_join}
use do_daemon.Paths.Confined.{IsBelow, safe_join-IsBelow}
use do_daemon.Auth.{allows}
use do_daemon.Sftp.{
  Answer, JailedFs, Method, Refusal, Request, St, answer, command, file_cmd, file_list, file_read,
  file_write, listing, method_list, method_mkdir, method_other, method_remove, method_rename,
  method_rmdir, method_setstat, method_stat, not_permitted, open_read, open_write, outside, refused,
  require, resolve, resolved, set_size, unless, unresolved, unsupported, within,
}

-- The requests, by the handler that they go to.
pub data Call : Type 0 where
  call_get call_put call_cmd call_list : Request → Call

unfoldable pub perform : {W : Type 0} → JailedFs W → Call → St W → Answer × St W
unfolding file_read file_write file_cmd file_list
perform fs (call_get r) st = file_read fs r st
perform fs (call_put r) st = file_write fs r st
perform fs (call_cmd r) st = file_cmd fs r st
perform fs (call_list r) st = file_list fs r st

abbrev pub letter_for_cmd : Method → Option ℕ
letter_for_cmd method_setstat = some b'M'
letter_for_cmd method_rename = some b'f'
letter_for_cmd method_rmdir = some b'd'
letter_for_cmd method_remove = some b'd'
letter_for_cmd method_mkdir = some b'm'
letter_for_cmd _ = none

-- The letter that a call needs; `none` is a call that is not supported.
abbrev pub letter : Call → Option ℕ
letter (call_get r) = some b'r'
letter (call_put r) = some (if r.pflags.append then b'a' else b'w')
letter (call_cmd r) = letter_for_cmd r.method
letter (call_list r) = some b'l'

module _ {W : Type 0} (fs : JailedFs W) where
  -- What a supported command does to the file it names, and to that which its target names.
  abbrev pub act_cmd : Method → Request → Elements → Elements → St W → Answer × St W
  act_cmd method_setstat r real new st = set_size fs r.size real st
  act_cmd method_rename r real new st = answer fs (fs.os.rename real new st.world) st
  act_cmd method_rmdir r real new st = answer fs (fs.os.remove real st.world) st
  act_cmd method_remove r real new st = answer fs (fs.os.remove real st.world) st
  act_cmd method_mkdir r real new st = answer fs (fs.os.mkdir real 493 st.world) st
  act_cmd _ r real new st = (refused unsupported, st)

  abbrev pub act : Call → Elements → Elements → St W → Answer × St W
  act (call_get r) real new st = open_read fs r real st
  act (call_put r) real new st = open_write fs r real st
  act (call_cmd r) real new st = act_cmd r.method r real new st
  act (call_list r) real new st = (listing fs r.method real st, st)

  abbrev pub request_of : Call → Request
  request_of (call_get r) = r
  request_of (call_put r) = r
  request_of (call_cmd r) = r
  request_of (call_list r) = r

  -- A path of the user's home directory: its elements are the absolute home directory's with plain ones
  -- behind them, and so are those of what it resolves to.
  pub record IsHome (st : St W) (name : Bytes) (real : Elements) : Type 0 where
    pub resolves : resolve fs name st ≡ inr real
    pub home : Elements
    pub is_home : abs fs.cwd fs.user.home_dir ≡ some home
    pub below : IsBelow (fs.os.view st.world) home real

  abbrev pub IsRefused : St W → Answer × St W → Type 0
  IsRefused st r = (why : Refusal) × (r ≡ (refused why, st))

  -- The call acts, with the letter that it needs, on a path of the home directory, to which the file it
  -- names resolves; a call that renames has a target there too.
  pub record HasActed (c : Call) (st : St W) : Type 0 where
    pub needed : ℕ
    pub letter_is : letter c ≡ some needed
    pub granted : allows fs.user needed ≡ true
    pub real : Elements
    pub new : Elements
    pub at : IsHome st (request_of c).filepath real
    pub target :
        IsHome st (request_of c).target new ⊎ ((n : Elements) → act c real n st ≡ act c real new st)
    pub done : perform fs c st ≡ act c real new st

  resolve-cases :
      (name : Bytes) (st : St W)
      → ((why : Refusal) × (resolve fs name st ≡ inl why))
        ⊎ ((real : Elements) × IsHome st name real)
  unfolding resolve
  resolve-cases name st = by (safe_join (fs.os.view st.world) fs.cwd fs.user.home_dir name) refl
    where
      by :
          (j : Joined)
          → safe_join (fs.os.view st.world) fs.cwd fs.user.home_dir name ≡ j
          → ((why : Refusal) × (resolved j ≡ inl why)) ⊎ ((real : Elements) × IsHome st name real)
      by escapes e = inl (outside, refl)
      by failed e = inl (unresolved, refl)
      by (joined real) e =
          let (home, (is_home, below)) =
            safe_join-IsBelow (fs.os.view st.world) fs.cwd fs.user.home_dir name real e in
          inr (
            real,
            record { resolves = ap resolved e; home = home; is_home = is_home; below = below },
          )

  within-cases :
      (name : Bytes) (rest : Elements → St W → Answer × St W) (st : St W)
      → IsRefused st (within fs (resolve fs name st) rest st)
        ⊎ ((real : Elements) × IsHome st name real
            × (within fs (resolve fs name st) rest st ≡ rest real st))
  unfolding within
  within-cases name rest st = elim (resolve-cases name st) [
    | inl (why, e) ↦ inl (why, rw e refl)
    | inr (real, home) ↦ inr (real, home, rw home.resolves refl)
  ]

  -- A call that needs a letter and resolves one name.
  guarded-cases :
      (perm : ℕ) (name : Bytes) (rest : Elements → St W → Answer × St W) (st : St W)
      → let r = unless fs (require fs perm) (λ s. within fs (resolve fs name s) rest s) st in
        IsRefused st r
        ⊎ ((allows fs.user perm ≡ true)
            × ((real : Elements) × IsHome st name real × (r ≡ rest real st)))
  unfolding unless require
  guarded-cases perm name rest st = elim (Bool-cases (allows fs.user perm)) [
    | inr n ↦ rw n (inl (not_permitted, refl))
    | inl a ↦ rw a (elim (within-cases name rest st) [ inl n ↦ inl n | inr y ↦ inr (refl, y) ])
  ]

  -- From the cases of a call that names one file.
  one_file :
      (c : Call) (st : St W) (perm : ℕ)
      → letter c ≡ some perm
      → ((real new old : Elements) → act c real new st ≡ act c real old st)
      → IsRefused st (perform fs c st)
        ⊎ ((allows fs.user perm ≡ true)
            × ((real : Elements) × IsHome st (request_of c).filepath real
                × (perform fs c st ≡ act c real [] st)))
      → IsRefused st (perform fs c st) ⊎ HasActed c st
  one_file c st perm l same (inl n) = inl n
  one_file c st perm l same (inr (granted, (real, home, done))) = inr (record {
    needed = perm;
    letter_is = l;
    granted = granted;
    real = real;
    new = [];
    at = home;
    target = inr (λ n. same real n []);
    done = done;
  })

  rename-cases :
      (r : Request) (st : St W)
      → r.method ≡ method_rename
      → IsRefused st (perform fs (call_cmd r) st) ⊎ HasActed (call_cmd r) st
  unfolding command perform file_cmd
  rename-cases r st m =
      let same : command fs r.method r st ≡ command fs method_rename r st =
        ap (λ k. command fs k r st) m in
      let acts : act_cmd r.method r ≡ act_cmd method_rename r = ap (λ k. act_cmd k r) m in
      elim (guarded-cases b'f' r.filepath _ st) [
        | inl (why, e) ↦ inl (why, same ∙ e)
        | inr (granted, (real, home, done)) ↦ elim (within-cases r.target _ st) [
          | inl (why, e) ↦ inl (why, same ∙ done ∙ e)
          | inr (new, away, e) ↦ inr (record {
            needed = b'f';
            letter_is = rw m refl;
            granted = granted;
            real = real;
            new = new;
            at = home;
            target = inl away;
            done = same ∙ done ∙ e ∙ sym (ap (λ k. k real new st) acts);
          })
        ]
      ]

  command-IsJailed :
      (m : Method) (r : Request) (st : St W)
      → r.method ≡ m
      → IsRefused st (perform fs (call_cmd r) st) ⊎ HasActed (call_cmd r) st
  unfolding command perform file_cmd
  command-IsJailed method_rename r st m = rename-cases r st m
  command-IsJailed method_setstat r st m =
      one_file (call_cmd r) st b'M' (rw m refl) (λ _ _ _. rw m refl)
        (rw m (guarded-cases b'M' r.filepath _ st))
  command-IsJailed method_rmdir r st m =
      one_file (call_cmd r) st b'd' (rw m refl) (λ _ _ _. rw m refl)
        (rw m (guarded-cases b'd' r.filepath _ st))
  command-IsJailed method_remove r st m =
      one_file (call_cmd r) st b'd' (rw m refl) (λ _ _ _. rw m refl)
        (rw m (guarded-cases b'd' r.filepath _ st))
  command-IsJailed method_mkdir r st m =
      one_file (call_cmd r) st b'm' (rw m refl) (λ _ _ _. rw m refl)
        (rw m (guarded-cases b'm' r.filepath _ st))
  command-IsJailed method_list r st m = inl (unsupported, rw m refl)
  command-IsJailed method_stat r st m = inl (unsupported, rw m refl)
  command-IsJailed method_other r st m = inl (unsupported, rw m refl)

  -- A call is refused, and then neither the files nor what is published change; or it has the letter
  -- that it needs and acts on the file that its path resolves to, which lies in the user's home directory
  -- with all links followed, as does the file that the target of a renaming resolves to.
  pub perform-IsJailed : (c : Call) (st : St W) → IsRefused st (perform fs c st) ⊎ HasActed c st
  unfolding perform file_read file_write file_cmd file_list
  perform-IsJailed (call_get r) st =
      one_file (call_get r) st b'r' refl (λ _ _ _. refl) (guarded-cases b'r' r.filepath _ st)
  perform-IsJailed (call_put r) st =
      one_file (call_put r) st _ refl (λ _ _ _. refl) (guarded-cases _ r.filepath _ st)
  perform-IsJailed (call_list r) st =
      one_file (call_list r) st b'l' refl (λ _ _ _. refl) (guarded-cases b'l' r.filepath _ st)
  perform-IsJailed (call_cmd r) st = command-IsJailed r.method r st refl
