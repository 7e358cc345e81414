-- ===== src/Sessions/Lifetime.antt =====
-- How long a session lasts.
use do_daemon.Prelude.{
  Bytes, List, Option, Option-cases, [], arith, equal, equal_iff, if◌then◌else◌, inl, inr, ltb,
  none, refl, some, ℕ, ◌+◌, ◌↔◌, ◌∙◌, ◌∷◌, ◌≡◌, ◌≤◌,
}
use do_daemon.Sessions.{
  SessionStore, create, delete_session, get_session, require_auth, revoke, served, session_ttl,
  set_session, valid,
}

get_session-delete_session :
    (j k : Bytes) (s : SessionStore)
    → get_session j (delete_session k s) ≡ (if equal k j then none else get_session j s)
unfolding get_session delete_session
get_session-delete_session j k [] = ground arith
get_session-delete_session j k ((t, exp) ∷ s) =
    ground (arith, equal_iff k j, equal_iff t k, equal_iff t j, get_session-delete_session j k s)

get_session-set_session :
    (j k : Bytes) (exp : ℕ) (s : SessionStore)
    → get_session j (set_session k exp s) ≡ (if equal k j then some exp else get_session j s)
unfolding set_session
get_session-set_session j k exp s =
    unfold get_session in ground (arith, get_session-delete_session j k s)

-- What the table of sessions is asked.
pub data Call : Type 0 where
  create_call : Option Bytes → ℕ → Call
  request_call : Option Bytes → ℕ → Call
  revoke_call : Bytes → Call

-- The table behind a call.
pub after : Call → SessionStore → SessionStore
after (create_call token now) s = (create token now s).0
after (request_call cookie now) s = (require_auth cookie now s).0
after (revoke_call token) s = revoke token s

-- The calls one after the other, the last one first.
pub after_all : List Call → SessionStore
after_all [] = []
after_all (c ∷ cs) = after c (after_all cs)

-- When the newest session of a token that has not been revoked since ends; `none` without one.
pub expiry : Bytes → List Call → Option ℕ
expiry token [] = none
expiry token (create_call none now ∷ cs) = expiry token cs
expiry token (create_call (some t) now ∷ cs) =
    if equal t token then some (now + session_ttl) else expiry token cs
expiry token (request_call none now ∷ cs) = expiry token cs
expiry token (request_call (some t) now ∷ cs) =
    if equal t token
    then elim (expiry token cs) [ none ↦ none | some exp ↦ if ltb exp now then none else some exp ]
    else expiry token cs
expiry token (revoke_call t ∷ cs) = if equal t token then none else expiry token cs

get_session-valid :
    (token t : Bytes) (now : ℕ) (s : SessionStore)
    → get_session token (valid t now s).0 ≡ (
        if equal t token
        then elim (get_session token s) [
          | none ↦ none
          | some exp ↦ if ltb exp now then none else some exp
        ]
        else get_session token s)
unfolding valid
get_session-valid token t now s = elim (Option-cases (get_session t s)) [
  | inl e ↦ ground (arith, equal_iff t token, e)
  | inr (exp, e) ↦ ground (arith, equal_iff t token, e, get_session-delete_session token t s)
]

-- The table holds the expiry of every token, through any calls.
get_session-after_all :
    (token : Bytes) (cs : List Call) → get_session token (after_all cs) ≡ expiry token cs
unfolding after_all after expiry create revoke require_auth
get_session-after_all token [] = unfold get_session in refl
get_session-after_all token (create_call none now ∷ cs) = get_session-after_all token cs
get_session-after_all token (create_call (some t) now ∷ cs) = ground (
  arith,
  get_session-after_all token cs,
  get_session-set_session token t (now + session_ttl) (after_all cs),
)
get_session-after_all token (request_call none now ∷ cs) = get_session-after_all token cs
get_session-after_all token (request_call (some t) now ∷ cs) =
    rw (← get_session-after_all token cs) (get_session-valid token t now (after_all cs))
get_session-after_all token (revoke_call t ∷ cs) =
    ground
      (arith, get_session-after_all token cs, get_session-delete_session token t (after_all cs))

-- Behind any calls a request with a token is served exactly when the token has a session that was
-- not revoked since, that no request has found expired, and that has not expired now.
pub require_auth-after_all :
    (token : Bytes) (now : ℕ) (cs : List Call)
    → ((require_auth (some token) now (after_all cs)).1 ≡ served)
      ↔ ((exp : ℕ) × (expiry token cs ≡ some exp) × (now ≤ exp))
unfolding require_auth valid
require_auth-after_all token now cs = elim (Option-cases (expiry token cs)) [
  | inl e ↦
      let none_held = get_session-after_all token cs ∙ e in
      (λ h. ground (arith, none_held), λ x. cc (x.1))
  | inr (exp, e) ↦
      let held = get_session-after_all token cs ∙ e in
      (λ h. (exp, e, ground (arith, held)), λ x. ground (arith, held, x.1, x.2))
]
