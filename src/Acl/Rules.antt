-- ===== src/Acl/Rules.antt =====
-- Which addresses an access list lets in.
use do_daemon.Prelude.{
  >>=-eq-some, All, Bool-cases, Bytes, List, [], ap, arith, false, if◌then◌else◌, inl, inr, length,
  refl, some, some_inj, suc, sym, true, ◌==◌, ◌↔◌, ◌∷◌, ◌≡◌, ◌⊎◌,
}
use do_daemon.Acl.{NetPackage, allowed, any_contains, made, new_acl, parse_net, parse_nets}

abbrev pub Any {ℓ} : {A : Type ℓ} → (A → Type 0) → List A → Type 0
Any P [] = ⊥
Any P (x ∷ xs) = P x ⊎ Any P xs

module _ {Ip : Type 0} {IpNet : Type 0} (p : NetPackage Ip IpNet) where
  -- The address lies in the network that the entry names.
  abbrev pub Matches : Ip → Bytes → Type 0
  Matches addr e = (n : IpNet) × (parse_net p e ≡ some n) × (p.contains n addr ≡ true)

  parse_nets-cons :
      (x : Bytes) (es : List Bytes) (ns : List IpNet)
      → parse_nets p (x ∷ es) ≡ some ns
      → (n : IpNet) × (ms : List IpNet) × (parse_net p x ≡ some n)
        × (parse_nets p es ≡ some ms)
        × (ns ≡ n ∷ ms)
  unfolding parse_nets
  parse_nets-cons x es ns h =
      let (n, e, h') = >>=-eq-some (parse_net p x) _ h in
      let (ms, e', h'') = >>=-eq-some (parse_nets p es) _ h' in (n, ms, e, e', sym (some_inj h''))

  parse_nets-nil : (ns : List IpNet) → parse_nets p [] ≡ some ns → ns ≡ []
  unfolding parse_nets
  parse_nets-nil ns h = ground arith

  any_contains-nil : (addr : Ip) → any_contains p [] addr ≡ false
  unfolding any_contains
  any_contains-nil addr = refl

  any_contains-cons :
      (addr : Ip) (n : IpNet) (ns : List IpNet)
      → any_contains p (n ∷ ns) addr ≡ (if p.contains n addr then true else any_contains p ns addr)
  unfolding any_contains
  any_contains-cons addr n ns = refl

  any_contains-true :
      (addr : Ip) (es : List Bytes) (ns : List IpNet)
      → parse_nets p es ≡ some ns
      → any_contains p ns addr ≡ true
      → Any (Matches addr) es
  any_contains-true addr [] ns e h = cc (any_contains-nil addr, parse_nets-nil ns e)
  any_contains-true addr (x ∷ es) ns e h =
      let (n, ms, en, em, is) = parse_nets-cons x es ns e in
      elim (Bool-cases (p.contains n addr)) [
        | inl c ↦ inl (n, en, c)
        | inr c ↦
            inr (any_contains-true addr es ms em (rw (is, any_contains-cons addr n ms, c) at h))
      ]

  any_contains-false :
      (addr : Ip) (es : List Bytes) (ns : List IpNet)
      → parse_nets p es ≡ some ns
      → any_contains p ns addr ≡ false
      → All (λ e. ¬ Matches addr e) es
  any_contains-false addr [] ns e h = tt
  any_contains-false addr (x ∷ es) ns e h =
      let (n, ms, en, em, is) = parse_nets-cons x es ns e in
      elim (Bool-cases (p.contains n addr)) [
        | inl c ↦ cc (rw (is, any_contains-cons addr n ms, c) at h)
        | inr c ↦ (
          λ m. cc (m.1, m.2),
          any_contains-false addr es ms em (rw (is, any_contains-cons addr n ms, c) at h),
        )
      ]

  not_both :
      (addr : Ip) (es : List Bytes) → Any (Matches addr) es → All (λ e. ¬ Matches addr e) es → ⊥
  not_both addr [] a n = a
  not_both addr (x ∷ es) (inl m) n = n.0 m
  not_both addr (x ∷ es) (inr a) n = not_both addr es a n.1

  length-parse_nets :
      (es : List Bytes) (ns : List IpNet) → parse_nets p es ≡ some ns → length ns ≡ length es
  length-parse_nets [] ns e = rw (parse_nets-nil ns e) refl
  length-parse_nets (x ∷ es) ns e =
      let (n, ms, en, em, is) = parse_nets-cons x es ns e in
      rw is (ap suc (length-parse_nets es ms em))

  new_acl-made :
      (allow_list deny_list : List Bytes) (allow deny : List IpNet)
      → new_acl p allow_list deny_list ≡ made allow deny
      → (parse_nets p allow_list ≡ some allow) × (parse_nets p deny_list ≡ some deny)
  unfolding new_acl
  new_acl-made allow_list deny_list allow deny h = ground arith

  allowed_lem :
      (allow deny : List IpNet) (addr : Ip)
      → allowed p (some (allow, deny)) addr ≡ (
          if any_contains p deny addr
          then false
          else if length allow == 0
          then true
          else any_contains p allow addr)
  unfolding allowed
  allowed_lem allow deny addr = refl

  -- The access list that is made of two lists of entries lets an address in exactly when no entry of
  -- the deny list matches it and the allow list is empty or has an entry that does.
  pub allowed-new_acl :
      (allow_list deny_list : List Bytes) (allow deny : List IpNet) (addr : Ip)
      → new_acl p allow_list deny_list ≡ made allow deny
      → (allowed p (some (allow, deny)) addr ≡ true) ↔ (
          All (λ e. ¬ Matches addr e) deny_list
          × ((allow_list ≡ []) ⊎ Any (Matches addr) allow_list))
  allowed-new_acl allow_list deny_list allow deny addr h =
      let (pa, pd) = new_acl-made allow_list deny_list allow deny h in
      let same_length = length-parse_nets allow_list allow pa in
      let lem = allowed_lem allow deny addr in
      elim (Bool-cases (any_contains p deny addr)) [
        | inl d ↦ (
          λ x. cc (rw (lem, d) at x),
          λ x. absurd (not_both addr deny_list (any_contains-true addr deny_list deny pd d) x.0),
        )
        | inr d ↦ elim (Bool-cases (any_contains p allow addr)) [
          | inl a ↦ (
            λ _. (
              any_contains-false addr deny_list deny pd d,
              inr (any_contains-true addr allow_list allow pa a),
            ),
            λ _. rw (lem, d, a) (ground arith),
          )
          | inr a ↦ (
            λ x. (
              any_contains-false addr deny_list deny pd d,
              inl (empty allow_list (rw (lem, d, a) at x) same_length),
            ),
            λ x. elim x.1 [
              | inl e ↦
                  rw (lem, d, a) (ground (arith, same_length, ap (λ (l : List Bytes). length l) e))
              | inr m ↦
                  absurd
                    (not_both addr allow_list m (any_contains-false addr allow_list allow pa a))
            ],
          )
        ]
      ]
    where
      empty :
          (es : List Bytes)
          → (if length allow == 0 then true else false) ≡ true
          → length allow ≡ length es
          → es ≡ []
      empty [] x s = refl
      empty (y ∷ es) x s = absurd (ground arith)
