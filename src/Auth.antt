-- ===== src/Auth.antt =====
-- internal/auth/auth.go. `bcrypt.CompareHashAndPassword` is the parameter `compare`: whether a hash is
-- that of a password.
pub mod Login
use do_daemon.Prelude.{
  Bool, Bytes, List, Option, [], codes, equal, false, if◌then◌else◌, index_byte, none, some, true,
  ℕ, ◌∷◌,
}

pub record User : Type 0 where
  pub username : Bytes
  pub password_hash : Bytes
  pub home_dir : Bytes
  pub permissions : Bytes

-- The map from names to users.
abbrev pub Users : Type 0
Users = List (Bytes × User)

unfoldable pub set_user : Bytes → User → Users → Users
set_user k u [] = (k, u) ∷ []
set_user k u ((j, w) ∷ m) = if equal j k then (k, u) ∷ m else (j, w) ∷ set_user k u m

unfoldable pub get_user : Bytes → Users → Option User
get_user k [] = none
get_user k ((j, w) ∷ m) = if equal j k then some w else get_user k m

unfoldable pub new_store : List User → Users → Users
unfolding set_user
new_store [] m = m
new_store (u ∷ us) m = new_store us (set_user u.username u m)

abbrev pub dummy_hash : Bytes
dummy_hash = codes "$2a$10$C6UzMDM.H6dfI/f/IKcEeO0uTaqLKJmiZq2K5ImUOKWc8oxIhwmXe"

-- The hash that is compared.
abbrev pub hash_of : Option User → Bytes
hash_of none = dummy_hash
hash_of (some u) = u.password_hash

-- `none` is `ErrInvalidCredentials`.
abbrev pub verdict : Bool → Option User → Option User
verdict true found = found
verdict false found = none

-- `Authenticate`, with the hash that it has compared.
unfoldable pub authenticate :
    (compare : Bytes → Bytes → Bool) → Users → Bytes → Bytes → Option User × Bytes
unfolding get_user
authenticate compare users username password =
    let found = get_user username users in
    let hash = hash_of found in (verdict (compare hash password) found, hash)

abbrev pub is_some {ℓ} : {A : Type ℓ} → Option A → Bool
is_some none = false
is_some (some a) = true

unfoldable pub allows : User → ℕ → Bool
unfolding index_byte
allows u perm = is_some (index_byte perm u.permissions)
