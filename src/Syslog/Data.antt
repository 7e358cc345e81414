-- ===== src/Syslog/Data.antt =====
-- `splitStructuredData` of internal/syslogsrv/parse.go: what it makes of its text, and where it panics.
use do_daemon.Prelude.{
  Bool, Bool-cases, Bytes, Option, [], ap, append_assoc, arith, codes, drop, equal, equal_iff,
  false, if◌then◌else◌, inl, inr, length, none, not, refl, some, suc, sym, take, take-append-drop,
  true, zero, ℕ, ◌&&◌, ◌++◌, ◌==◌, ◌>>=◌, ◌∙◌, ◌∷◌, ◌≡◌, ◌⊎◌,
}
use do_daemon.Syslog.{
  consume, element_loop, elements_loop, has_prefix, split_structured_data, trim_prefix,
}

-- The text is split in two, or the index has passed the end of a text whose last byte is a backslash.
abbrev IsSplit : Bytes → Option (Bytes × Bytes) → Type 0
IsSplit s (some (front, rest)) = s ≡ front ++ rest
IsSplit s none = (front : Bytes) × (s ≡ front ++ (b'\\' ∷ []))

consume-IsSplit :
    (front s : Bytes) (o : Option (Bytes × Bytes))
    → IsSplit s o
    → IsSplit (front ++ s) (consume front o)
consume-IsSplit front s (some (sd, rest)) h =
    ap (λ x. front ++ x) h ∙ sym (append_assoc front sd rest)
consume-IsSplit front s none h =
    (front ++ h.0, ap (λ x. front ++ x) h.1 ∙ sym (append_assoc front h.0 (b'\\' ∷ [])))

element_loop-IsSplit : (q : Bool) (s : Bytes) → IsSplit s (element_loop q s)
unfolding element_loop
element_loop-IsSplit q [] = refl
element_loop-IsSplit q (c ∷ []) = elim (Bool-cases (c == b'\\')) [
  | inl e ↦ rw e ([], ground (arith, e))
  | inr e ↦ rw e refl
]
element_loop-IsSplit q (c ∷ d ∷ s) = elim (Bool-cases (c == b'\\')) [
  | inl e ↦ rw e (consume-IsSplit (c ∷ d ∷ []) s (element_loop q s) (element_loop-IsSplit q s))
  | inr e ↦ elim (Bool-cases (c == b']' && not q)) [
    | inl f ↦ rw (e, f) refl
    | inr f ↦
        rw (e, f)
          (consume-IsSplit (c ∷ []) (d ∷ s) _
            (element_loop-IsSplit (if c == b'"' then not q else q) (d ∷ s)))
  ]
]

-- The elements behind one.
more_elements-IsSplit :
    (front s rest : Bytes) (o : Option (Bytes × Bytes))
    → s ≡ front ++ rest
    → IsSplit rest o
    → IsSplit s (o >>= (λ x. some (front ++ x.0, x.1)))
more_elements-IsSplit front s rest (some (more, tail)) e h =
    e ∙ ap (λ x. front ++ x) h ∙ sym (append_assoc front more tail)
more_elements-IsSplit front s rest none e h =
    (front ++ h.0, e ∙ ap (λ x. front ++ x) h.1 ∙ sym (append_assoc front h.0 (b'\\' ∷ [])))

one_element-IsSplit :
    (c : ℕ) (s : Bytes) (o : Option (Bytes × Bytes)) (f : Bytes → Option (Bytes × Bytes))
    → IsSplit s o
    → ((rest : Bytes) → IsSplit rest (f rest))
    → IsSplit (c ∷ s) (o >>= (λ x. f x.1 >>= (λ y. some (c ∷ x.0 ++ y.0, y.1))))
one_element-IsSplit c s none f h ih = (c ∷ h.0, ap (λ x. c ∷ x) h.1)
one_element-IsSplit c s (some (element, rest)) f h ih =
    more_elements-IsSplit (c ∷ element) (c ∷ s) rest (f rest) (ap (λ x. c ∷ x) h) (ih rest)

elements_loop-IsSplit : (fuel : ℕ) (s : Bytes) → IsSplit s (elements_loop fuel s)
unfolding elements_loop
elements_loop-IsSplit zero s = refl
elements_loop-IsSplit (suc fuel) [] = refl
elements_loop-IsSplit (suc fuel) (c ∷ s) = elim (Bool-cases (c == b'[')) [
  | inl e ↦ rw e (
      one_element-IsSplit c s (element_loop false s) (elements_loop fuel)
        (element_loop-IsSplit false s) (elements_loop-IsSplit fuel))
  | inr e ↦ rw e refl
]

has_prefix_lem : (s p : Bytes) → has_prefix s p ≡ true → s ≡ p ++ drop (length p) s
has_prefix_lem s p h =
    sym (take-append-drop (length p) s)
    ∙ ap (λ x. x ++ drop (length p) s) ((equal_iff (take (length p) s) p).0 h)

-- What may stand between structured data and the text.
abbrev pub IsGap : Bytes → Type 0
IsGap gap = (gap ≡ []) ⊎ ((gap ≡ codes " ") ⊎ ((gap ≡ codes "-") ⊎ (gap ≡ codes "- ")))

-- The structured data, a gap and the text are what was given; a panic has a backslash as last byte.
abbrev pub IsDivided : Bytes → Option (Bytes × Bytes) → Type 0
IsDivided s (some (sd, msg)) = (gap : Bytes) × (IsGap gap × (s ≡ sd ++ (gap ++ msg)))
IsDivided s none = (front : Bytes) × (s ≡ front ++ (b'\\' ∷ []))

trimmed-IsDivided :
    (s : Bytes) (o : Option (Bytes × Bytes))
    → IsSplit s o
    → IsDivided s (o >>= (λ x. some (x.0, trim_prefix x.1 (codes " "))))
trimmed-IsDivided s none h = h
trimmed-IsDivided s (some (sd, rest)) h = elim (Bool-cases (has_prefix rest (codes " "))) [
  | inl e ↦
      rw e (codes " ", (inr (inl refl), h ∙ ap (λ x. sd ++ x) (has_prefix_lem rest (codes " ") e)))
  | inr e ↦ rw e ([], (inl refl, h))
]

-- `splitStructuredData` divides its text into the structured data, at most one separator and the
-- message, and loses nothing else; it panics only on a text whose last byte is a backslash.
pub split_structured_data-IsDivided : (s : Bytes) → IsDivided s (split_structured_data s)
unfolding split_structured_data
split_structured_data-IsDivided s = elim (Bool-cases (has_prefix s (codes "- "))) [
  | inl e ↦ rw e (codes "- ", (inr (inr (inr refl)), has_prefix_lem s (codes "- ") e))
  | inr e ↦ elim (Bool-cases (equal s (codes "-"))) [
    | inl f ↦ rw (e, f) (codes "-", (inr (inr (inl refl)), (equal_iff s (codes "-")).0 f))
    | inr f ↦ elim (Bool-cases (not (has_prefix s (codes "[")))) [
      | inl g ↦ rw (e, f, g) ([], (inl refl, refl))
      | inr g ↦ rw (e, f, g) (trimmed-IsDivided s _ (elements_loop-IsSplit (length s) s))
    ]
  ]
]
