-- ===== src/Sftp/Logins.antt =====
-- internal/sftp/session.go and internal/sftp/server.go: whose files a login is given, and that the host
-- key stays.
use mathlib.Core.Path.{subst}
use do_daemon.Prelude.{
  >>=-eq-some, All, Bool, Bool-cases, Bytes, List, Option, Option-cases, [], ap, arith, equal,
  equal_iff, equal_sym, false, inl, inr, none, refl, some, some_inj, sym, true, ◌∙◌, ◌∷◌, ◌≡◌,
}
use do_daemon.Sftp.Session.{
  KeyHost, key_path, load_or_create_host_key, login, save_generated, save_key, stored_key,
  to_auth_users, user_by_name,
}
use do_daemon.Auth.Login.{authenticate-new_store, last_named}
use do_daemon.Config.{FtpUser}
use do_daemon.Config.Accounts.{Unique}
use do_daemon.Sftp.{user_of}

last_named-other :
    (name : Bytes) (us : List FtpUser)
    → All (λ w. equal name w.username ≡ false) us
    → last_named name (to_auth_users us) ≡ none
last_named-other name [] h = refl
last_named-other name (u ∷ us) (n, h) =
    rw (last_named-other name us h, equal_sym u.username name, n) refl

-- With no name twice, the first account of a name is also the last.
user_by_name-Unique :
    (name : Bytes) (us : List FtpUser) (u : FtpUser)
    → Unique us
    → user_by_name name us ≡ some u
    → last_named name (to_auth_users us) ≡ some (user_of u)
unfolding user_by_name
user_by_name-Unique name [] u h e = cc
user_by_name-Unique name (w ∷ us) u (fresh, h) e = elim (Bool-cases (equal w.username name)) [
  | inl same ↦
      let is_name = (equal_iff w.username name).0 same in
      let none_is =
        last_named-other name us
          (subst (λ k. All (λ v. equal k v.username ≡ false) us) is_name fresh) in
      rw (none_is, same) (ap (λ v. some (user_of v)) (some_inj (rw same at e)))
  | inr other ↦ rw (user_by_name-Unique name us u h (rw other at e)) refl
]

user_by_name-named :
    (name : Bytes) (us : List FtpUser) (u : FtpUser)
    → user_by_name name us ≡ some u
    → u.username ≡ name
unfolding user_by_name
user_by_name-named name [] u e = cc
user_by_name-named name (w ∷ us) u e = elim (Bool-cases (equal w.username name)) [
  | inl same ↦
      subst (λ v. v.username ≡ name) (some_inj (rw same at e)) ((equal_iff w.username name).0 same)
  | inr other ↦ user_by_name-named name us u (rw other at e)
]

-- Where no two accounts have the same name, a login is given the files of the very account whose
-- password it has shown.
pub login-Unique :
    (compare : Bytes → Bytes → Bool) (users : List FtpUser) (name password : Bytes) (u : FtpUser)
    → Unique users
    → login compare users name password ≡ some u
    → (u.username ≡ name) × (compare u.password_hash password ≡ true)
unfolding login
login-Unique compare users name password u h e =
    let (v, authentic, found) = >>=-eq-some _ (λ v. user_by_name name users) e in
    let (last, matches) =
      (authenticate-new_store compare (to_auth_users users) name password v).0.0 authentic in
    let same = some_inj (sym last ∙ user_by_name-Unique name users u h found) in
    (
      user_by_name-named name users u found,
      subst (λ k. compare k.password_hash password ≡ true) same matches,
    )

-- A file that has been written holds what was written to it, and an encoded key is read back.
pub record IsReliable {W Key : Type 0} (h : KeyHost W Key) : Type 0 where
  pub holds :
      (path bytes : Bytes) (w w' : W)
      → h.write_file path bytes w ≡ (true, w')
      → h.read_file path w' ≡ some bytes
  pub reads_back :
      (key : Key) (pem : Bytes) → h.encode key ≡ some pem → h.parse_private_key pem ≡ some key

save_key_lem :
    {W Key : Type 0} (h : KeyHost W Key) (data_dir : Bytes) (new key : Key) (w w' : W)
    → save_key h data_dir new w ≡ (some key, w')
    → (pem : Bytes) × (v : W) × (h.encode key ≡ some pem)
      × (h.write_file (key_path h data_dir) pem v ≡ (true, w'))
unfolding save_key
save_key_lem h data_dir new key w w' e = elim (Option-cases (h.encode new)) [
  | inl n ↦ ground arith
  | inr (pem, is) ↦ (pem, (h.mkdir_all data_dir w).1, ground arith, ground arith)
]

save_key-stored :
    {W Key : Type 0} (h : KeyHost W Key) (data_dir : Bytes) (new key : Key) (w w' : W)
    → IsReliable h
    → save_key h data_dir new w ≡ (some key, w')
    → stored_key h data_dir w' ≡ some key
unfolding save_key
save_key-stored h data_dir new key w w' reliable e =
    let (pem, v, encoded, written) = save_key_lem h data_dir new key w w' e in
    rw (reliable.holds _ pem v w' written) (reliable.reads_back key pem encoded)

created-stored :
    {W Key : Type 0} (h : KeyHost W Key) (data_dir : Bytes) (key : Key) (made : Option Key × W)
    (w' : W)
    → IsReliable h
    → save_generated h data_dir made ≡ (some key, w')
    → stored_key h data_dir w' ≡ some key
created-stored h data_dir key (none, w) w' reliable e = cc
created-stored h data_dir key (some new, w) w' reliable e =
    save_key-stored h data_dir new key w w' reliable e

-- A host key that has been found or made is the one that is found from then on: where the disk and the
-- encoding of keys are reliable.
pub host_key-stays :
    {W Key : Type 0} (h : KeyHost W Key) (data_dir : Bytes) (w w' : W) (key : Key)
    → IsReliable h
    → load_or_create_host_key h data_dir w ≡ (some key, w')
    → load_or_create_host_key h data_dir w' ≡ (some key, w')
unfolding load_or_create_host_key
host_key-stays h data_dir w w' key reliable e = elim (Option-cases (stored_key h data_dir w)) [
  | inr (k, is) ↦
      subst (λ x. load_or_create_host_key h data_dir x.1 ≡ x)
        (rw (load_or_create_host_key, is) at e) (rw (load_or_create_host_key, is) refl)
  | inl missing ↦
      rw
        (
          load_or_create_host_key,
          created-stored h data_dir key (h.generate_key w) w' reliable
              (rw (load_or_create_host_key, missing) at e),
        )
        refl
]
