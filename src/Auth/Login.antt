-- ===== src/Auth/Login.antt =====
-- Who logs in.
use do_daemon.Prelude.{
  Bool, Bytes, Lacks, Lacks-index_byte, List, Option, Option-cases, [], arith, equal, equal_iff,
  false, if◌then◌else◌, index_byte, index_byte-Lacks, inl, inr, none, refl, some, true, ℕ, ◌↔◌, ◌∙◌,
  ◌∷◌, ◌≡◌,
}
use do_daemon.Auth.{
  User, Users, allows, authenticate, get_user, hash_of, new_store, set_user, verdict,
}

-- The user registered last under a name.
abbrev pub last_named : Bytes → List User → Option User
last_named name [] = none
last_named name (u ∷ us) = elim (last_named name us) [
  | some v ↦ some v
  | none ↦ if equal u.username name then some u else none
]

get_user-set_user :
    (j k : Bytes) (u : User) (m : Users)
    → get_user j (set_user k u m) ≡ (if equal k j then some u else get_user j m)
unfolding get_user set_user
get_user-set_user j k u [] = refl
get_user-set_user j k u ((i, w) ∷ m) =
    ground (arith, equal_iff k j, equal_iff i k, equal_iff i j, get_user-set_user j k u m)

get_user-new_store :
    (name : Bytes) (us : List User) (m : Users)
    → get_user name (new_store us m)
      ≡ elim (last_named name us) [ some u ↦ some u | none ↦ get_user name m ]
unfolding new_store
get_user-new_store name [] m = refl
get_user-new_store name (u ∷ us) m = ground (
  arith,
  get_user-new_store name us (set_user u.username u m),
  get_user-set_user name u.username u m,
)

get_user-empty : (name : Bytes) → get_user name [] ≡ none
unfolding get_user
get_user-empty name = refl

get_user-is_last :
    (name : Bytes) (us : List User) → get_user name (new_store us []) ≡ last_named name us
get_user-is_last name us = get_user-new_store name us [] ∙ back (last_named name us)
  where
    back : (o : Option User) → elim o [ some u ↦ some u | none ↦ get_user name [] ] ≡ o
    back none = get_user-empty name
    back (some u) = refl

-- A login succeeds, as user `u`, exactly when `u` is the user listed last under the name and the
-- password is that of its hash. A hash is compared in every case: the user's, or the fixed one where
-- the name is unknown.
pub authenticate-new_store :
    (compare : Bytes → Bytes → Bool) (us : List User) (name password : Bytes) (u : User)
    → (((authenticate compare (new_store us []) name password).0 ≡ some u)
        ↔ ((last_named name us ≡ some u) × (compare u.password_hash password ≡ true)))
      × ((authenticate compare (new_store us []) name password).1 ≡ hash_of (last_named name us))
unfolding authenticate
authenticate-new_store compare us name password u =
    rw (get_user-is_last name us) (by_found (last_named name us))
  where
    by_found :
        (found : Option User)
        → ((verdict (compare (hash_of found) password) found ≡ some u)
            ↔ ((found ≡ some u) × (compare u.password_hash password ≡ true)))
          × (hash_of found ≡ hash_of found)
    by_found none = ((λ e. ground arith, λ e. ground arith), refl)
    by_found (some v) = ((λ e. ground arith, λ e. ground arith), refl)

-- A permission is granted exactly when its letter stands in the user's permission string.
pub allows-Lacks : (u : User) (perm : ℕ) → (allows u perm ≡ false) ↔ Lacks perm u.permissions
unfolding allows
allows-Lacks u perm = elim (Option-cases (index_byte perm u.permissions)) [
  | inl e ↦ (λ _. index_byte-Lacks perm u.permissions e, λ _. rw e refl)
  | inr (i, e) ↦ (λ h. cc (rw e at h), λ l. cc (Lacks-index_byte perm u.permissions l))
]
