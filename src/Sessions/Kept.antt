-- ===== src/Sessions/Kept.antt =====
-- internal/webui/session.go: what holds of every session of a store.
use mathlib.Core.Path.{subst}
use do_daemon.Prelude.{
  All, Bool-cases, Bytes, Option, Option-cases, [], arith, equal, equal_iff, inl, inr, ltb, none,
  refl, some, some_inj, ℕ, ◌∷◌, ◌≡◌, ◌≤◌,
}
use do_daemon.Sessions.{SessionStore, delete_session, get_session, require_auth, served, valid}

pub delete_session-All :
    (P : Bytes × ℕ → Type 0) (token : Bytes) (s : SessionStore)
    → All P s
    → All P (delete_session token s)
unfolding delete_session
delete_session-All P token [] h = tt
delete_session-All P token ((t, exp) ∷ s) (x, h) = elim (Bool-cases (equal t token)) [
  | inl e ↦ rw e (delete_session-All P token s h)
  | inr n ↦ rw n (x, delete_session-All P token s h)
]

pub get_session-All :
    (P : Bytes × ℕ → Type 0) (token : Bytes) (exp : ℕ) (s : SessionStore)
    → All P s
    → get_session token s ≡ some exp
    → P (token, exp)
unfolding get_session
get_session-All P token exp [] h e = cc
get_session-All P token exp ((t, d) ∷ s) (x, h) e = elim (Bool-cases (equal t token)) [
  | inl same ↦
      let is_token = (equal_iff t token).0 same in
      let is_exp = some_inj (rw same at e) in
      subst (λ k. P (k, exp)) is_token (subst (λ k. P (t, k)) is_exp x)
  | inr n ↦ get_session-All P token exp s h (rw n at e)
]

valid-All :
    (P : Bytes × ℕ → Type 0) (token : Bytes) (now : ℕ) (store : SessionStore)
    → All P store
    → All P (valid token now store).0
unfolding valid
valid-All P token now store h = elim (Option-cases (get_session token store)) [
  | inl n ↦ rw (valid, n) h
  | inr (exp, is) ↦ elim (Bool-cases (ltb exp now)) [
    | inl late ↦ rw (valid, is, late) (delete_session-All P token store h)
    | inr alive ↦ rw (valid, is, alive) h
  ]
]

pub require_auth-All :
    (P : Bytes × ℕ → Type 0) (cookie : Option Bytes) (now : ℕ) (store : SessionStore)
    → All P store
    → All P (require_auth cookie now store).0
unfolding require_auth
require_auth-All P none now store h = h
require_auth-All P (some token) now store h = valid-All P token now store h

-- What is served has the token of a session that has not expired.
pub served_lem :
    (cookie : Option Bytes) (now : ℕ) (store : SessionStore)
    → (require_auth cookie now store).1 ≡ served
    → (token : Bytes) × (exp : ℕ) × (cookie ≡ some token)
      × (get_session token store ≡ some exp)
      × (now ≤ exp)
unfolding require_auth valid
served_lem none now store e = cc
served_lem (some token) now store e = elim (Option-cases (get_session token store)) [
  | inl n ↦ ground arith
  | inr (exp, is) ↦ (token, exp, refl, is, ground arith)
]
