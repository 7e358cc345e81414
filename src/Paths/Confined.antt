-- ===== src/Paths/Confined.antt =====
-- What `SafeJoin` lets through lies below the root.
use mathlib.Core.Path.{subst}
use do_daemon.Prelude.{
  >>=-eq-some, All, Bool-cases, Bytes, List, Option, Option-cases, [], ap, append-nil, append_assoc,
  arith, equal, equal_iff, equal_refl, false, inl, inr, refl, reverse, reverse-append,
  reverse-reverse, some, some_inj, sym, true, ◌++◌, ◌>>=◌, ◌∙◌, ◌∷◌, ◌≡◌, ◌⊎◌,
}
use do_daemon.Paths.{
  Elements, Entry, FileSystem, abs, check_resolved, clean, clean_elements, clean_loop, climb, dot,
  dot_dot, is_rooted, is_within_root, join, joined, missing, present, push, rel, resolve_existing,
  resolve_loop, safe_join, split_slash, unreadable,
}

-- An element that `Clean` leaves as it is.
abbrev pub IsPlain : Bytes → Type 0
IsPlain p = (equal p [] ≡ false) × (equal p dot ≡ false) × (equal p dot_dot ≡ false)

push-IsPlain : (p : Bytes) (st : Elements) → All IsPlain st → All IsPlain (push true st p)
unfolding push
push-IsPlain p [] h = elim (Bool-cases (equal p [])) [
  | inl e ↦ rw e tt
  | inr e ↦ elim (Bool-cases (equal p dot)) [
    | inl d ↦ rw (e, d) tt
    | inr d ↦ elim (Bool-cases (equal p dot_dot)) [
      | inl dd ↦ rw (e, d, dd) tt
      | inr dd ↦ rw (e, d, dd) ((e, d, dd), tt)
    ]
  ]
]
push-IsPlain p (q ∷ st) h = elim (Bool-cases (equal p [])) [
  | inl e ↦ rw e h
  | inr e ↦ elim (Bool-cases (equal p dot)) [
    | inl d ↦ rw (e, d) h
    | inr d ↦ elim (Bool-cases (equal p dot_dot)) [
      | inl dd ↦ rw (e, d, dd, h.0.2) h.1
      | inr dd ↦ rw (e, d, dd) ((e, d, dd), h)
    ]
  ]
]

clean_loop-IsPlain : (ps st : Elements) → All IsPlain st → All IsPlain (clean_loop true st ps)
unfolding clean_loop
clean_loop-IsPlain [] st h = h
clean_loop-IsPlain (p ∷ ps) st h = clean_loop-IsPlain ps (push true st p) (push-IsPlain p st h)

-- Plain elements are kept.
push_plain : (p : Bytes) (st : Elements) → IsPlain p → push true st p ≡ p ∷ st
unfolding push
push_plain p [] h = rw (h.0, h.1, h.2) refl
push_plain p (q ∷ st) h = rw (h.0, h.1, h.2) refl

clean_loop_plain : (ps st : Elements) → All IsPlain ps → clean_loop true st ps ≡ reverse ps ++ st
unfolding clean_loop
clean_loop_plain [] st h = refl
clean_loop_plain (p ∷ ps) st h =
    ap (λ x. clean_loop true x ps) (push_plain p st h.0)
    ∙ clean_loop_plain ps (p ∷ st) h.1
    ∙ sym (append_assoc (reverse ps) (p ∷ []) st)
    ∙ ap (λ x. x ++ st) (sym (reverse-append (p ∷ []) ps))

All-append : {A : Type 0} (P : A → Type 0) (xs ys : List A) → All P xs → All P ys → All P (xs ++ ys)
All-append P [] ys a b = b
All-append P (x ∷ xs) ys a b = (a.0, All-append P xs ys a.1 b)

All-reverse : {A : Type 0} (P : A → Type 0) (xs : List A) → All P xs → All P (reverse xs)
All-reverse P [] h = tt
All-reverse P (x ∷ xs) h =
    subst (All P) (sym (reverse-append (x ∷ []) xs))
      (All-append P (reverse xs) (x ∷ []) (All-reverse P xs h.1) (h.0, tt))

-- A path of plain elements is within the root exactly when it is the root with more behind it.
is_within_root-prefix :
    (root candidate : Elements)
    → All IsPlain candidate
    → is_within_root root candidate ≡ true
    → (rest : Elements) × (candidate ≡ root ++ rest)
unfolding is_within_root rel climb
is_within_root-prefix [] candidate h w = (candidate, refl)
is_within_root-prefix (b ∷ bs) [] h w = cc
is_within_root-prefix (b ∷ bs) (t ∷ ts) h w = elim (Bool-cases (equal b t)) [
  | inl e ↦
      let (rest, is) = is_within_root-prefix bs ts h.1 (rw e at w) in
      (rest, ground (arith, equal_iff b t, e, is))
  | inr e ↦ cc (rw e at w)
]

clean_loop-append :
    (xs ys st : Elements)
    → clean_loop true st (xs ++ ys) ≡ clean_loop true (clean_loop true st xs) ys
unfolding clean_loop
clean_loop-append [] ys st = refl
clean_loop-append (x ∷ xs) ys st = clean_loop-append xs ys (push true st x)

clean_elements-IsPlain : (ps : Elements) → All IsPlain (clean_elements true ps)
unfolding clean_elements
clean_elements-IsPlain ps =
    All-reverse IsPlain (clean_loop true [] ps) (clean_loop-IsPlain ps [] tt)

join-IsPlain : (base more : Elements) → All IsPlain (join base more)
unfolding join
join-IsPlain base more = clean_elements-IsPlain (base ++ more)

-- Joining plain elements puts them behind the base.
join_plain :
    (base more : Elements) → All IsPlain base → All IsPlain more → join base more ≡ base ++ more
unfolding join clean_elements
join_plain base more hb hm =
    ap reverse (
      clean_loop_plain (base ++ more) [] (All-append IsPlain base more hb hm)
      ∙ append-nil (reverse (base ++ more)))
    ∙ reverse-reverse (base ++ more)

Entry-cases : (x : Entry) → (x ≡ present) ⊎ ((x ≡ missing) ⊎ (x ≡ unreadable))
Entry-cases present = inl refl
Entry-cases missing = inr (inl refl)
Entry-cases unreadable = inr (inr refl)

-- What is joined behind a resolved directory is plain.
real_join-IsPlain :
    (found : Option Elements) (segments resolved : Elements)
    → (found >>= (λ real. some (join real segments))) ≡ some resolved
    → All IsPlain resolved
real_join-IsPlain found segments resolved e =
    let (real, _, is) = >>=-eq-some found (λ real. some (join real segments)) e in
    subst (All IsPlain) (some_inj is) (join-IsPlain real segments)

resolve_loop-IsPlain :
    (fs : FileSystem) (path cur segments resolved : Elements)
    → All IsPlain path
    → resolve_loop fs path cur segments ≡ some resolved
    → All IsPlain resolved
unfolding resolve_loop
resolve_loop-IsPlain fs path [] segments resolved h e = elim (Entry-cases (fs.lstat [])) [
  | inl a ↦ real_join-IsPlain (fs.eval_symlinks []) segments resolved (rw (resolve_loop, a) at e)
  | inr (inl a) ↦ subst (All IsPlain) (some_inj (rw (resolve_loop, a) at e)) h
  | inr (inr a) ↦ cc (rw (resolve_loop, a) at e)
]
resolve_loop-IsPlain fs path (p ∷ cur) segments resolved h e =
    elim (Entry-cases (fs.lstat (reverse (p ∷ cur)))) [
      | inl a ↦
          real_join-IsPlain (fs.eval_symlinks (reverse (p ∷ cur))) segments resolved
            (rw (resolve_loop, a) at e)
      | inr (inl a) ↦
          resolve_loop-IsPlain fs path cur (p ∷ segments) resolved h (rw (resolve_loop, a) at e)
      | inr (inr a) ↦ cc (rw (resolve_loop, a) at e)
    ]

-- Where the root is `root` and the answer `c`: both `c` and what it resolves to lie below the root.
unfoldable pub IsBelow : FileSystem → Elements → Elements → Type 0
IsBelow fs root c =
    (rest : Elements) × (inside : Elements) × (All IsPlain rest
      × ((c ≡ root ++ rest) × (resolve_existing fs c ≡ some (root ++ inside))))

All-behind : {A : Type 0} (P : A → Type 0) (xs ys : List A) → All P (xs ++ ys) → All P ys
All-behind P [] ys h = h
All-behind P (x ∷ xs) ys h = All-behind P xs ys h.1

joined_inj : {a b : Elements} → joined a ≡ joined b → a ≡ b
joined_inj h = cc

check_resolved-IsBelow :
    (fs : FileSystem) (root candidate c : Elements)
    → All IsPlain candidate
    → is_within_root root candidate ≡ true
    → check_resolved fs root candidate ≡ joined c
    → IsBelow fs root c
unfolding check_resolved resolve_existing IsBelow
check_resolved-IsBelow fs root candidate c h w e =
    elim (Option-cases (resolve_existing fs candidate)) [
      | inl none_is ↦ cc (rw (check_resolved, none_is) at e)
      | inr (resolved, is) ↦ elim (Bool-cases (is_within_root root resolved)) [
        | inl inside ↦
            let same = joined_inj (rw (check_resolved, is, inside) at e) in
            let plain = resolve_loop-IsPlain fs candidate (reverse candidate) [] resolved h is in
            let (rest, at_rest) = is_within_root-prefix root candidate h w in
            let (deep, at_deep) = is_within_root-prefix root resolved plain inside in
            (
              rest,
              deep,
              (
                All-behind IsPlain root rest (subst (All IsPlain) at_rest h),
                (
                  sym same ∙ at_rest,
                  subst (λ x. resolve_existing fs x ≡ some (root ++ deep)) same
                      (is ∙ ap some at_deep),
                ),
              ),
            )
        | inr outside ↦ cc (rw (check_resolved, is, outside) at e)
      ]
    ]

-- If `SafeJoin` answers with a path, the absolute root is known, and the path is that root with plain
-- elements behind it; the path with its links resolved, as far as it exists, is that root with
-- elements behind it too.
pub safe_join-IsBelow :
    (fs : FileSystem) (cwd : Option Elements) (root user_path : Bytes) (c : Elements)
    → safe_join fs cwd root user_path ≡ joined c
    → (abs_root : Elements) × ((abs cwd root ≡ some abs_root) × IsBelow fs abs_root c)
unfolding safe_join
safe_join-IsBelow fs cwd root user_path c e = elim (Option-cases (abs cwd root)) [
  | inl none_is ↦ cc (rw (safe_join, none_is) at e)
  | inr (abs_root, is) ↦
      elim (Bool-cases (is_within_root abs_root (join abs_root (clean user_path)))) [
        | inl inside ↦ (
          abs_root,
          (
            is,
            check_resolved-IsBelow fs abs_root (join abs_root (clean user_path)) c
                (join-IsPlain abs_root (clean user_path)) inside (rw (safe_join, is, inside) at e),
          ),
        )
        | inr outside ↦ cc (rw (safe_join, is, outside) at e)
      ]
]

-- A rooted path is cleaned of what climbs above the root, so the lexical test lets it through.
is_within_root_behind :
    (root rest : Elements) → All IsPlain rest → is_within_root root (root ++ rest) ≡ true
unfolding is_within_root rel
is_within_root_behind [] [] h = refl
is_within_root_behind [] (p ∷ rest) h = rw h.0.2 refl
is_within_root_behind (b ∷ bs) rest h = rw (equal_refl b) (is_within_root_behind bs rest h)

abs-IsPlain :
    (cwd : Option Elements) (root : Bytes) (abs_root : Elements)
    → abs cwd root ≡ some abs_root
    → All IsPlain abs_root
unfolding abs clean
abs-IsPlain cwd root abs_root e = elim (Bool-cases (is_rooted root)) [
  | inl r ↦
      subst (All IsPlain) (some_inj (rw (abs, r) at e)) (clean_elements-IsPlain (split_slash root))
  | inr r ↦
      let (w, _, is) = >>=-eq-some cwd (λ w. some (join w (split_slash root))) (rw (abs, r) at e) in
      subst (All IsPlain) (some_inj is) (join-IsPlain w (split_slash root))
]

-- A rooted user path, with a root that has an absolute path, passes the lexical test, however often
-- it climbs: what is left of it by `Clean` is put behind the root, and only links can still refuse it.
pub safe_join_rooted :
    (fs : FileSystem) (cwd : Option Elements) (root user_path : Bytes) (abs_root : Elements)
    → abs cwd root ≡ some abs_root
    → is_rooted user_path ≡ true
    → safe_join fs cwd root user_path
      ≡ check_resolved fs abs_root (abs_root ++ clean_elements true (split_slash user_path))
unfolding safe_join clean
safe_join_rooted fs cwd root user_path abs_root e r =
    let inner = clean_elements-IsPlain (split_slash user_path) in
    rw
      (
        safe_join,
        e,
        r,
        join_plain abs_root (clean_elements true (split_slash user_path))
            (abs-IsPlain cwd root abs_root e) inner,
        is_within_root_behind abs_root (clean_elements true (split_slash user_path)) inner,
      )
      refl
