-- ===== src/Tftp/Packet/Fields.antt =====
-- NUL-terminated fields, and the table of options.
use mathlib.Core.Path.{ap₂, subst}
use do_daemon.Prelude.{
  >>=-eq-some, All, Bytes, Lacks, List, Option-cases, [], ap, append_assoc, arith, drop,
  drop-append_cons, index_byte, index_byte-append, index_byte-split, inl, inr, length,
  length-append, none, refl, some, some_inj, suc, sym, take, take-append, zero, ℕ, ◌++◌, ◌>>=◌, ◌∙◌,
  ◌∷◌, ◌≡◌, ◌≤◌, ◌⊎◌,
}
use do_daemon.Tftp.Packet.{encode_strings, split_loop, split_nul_terminated}

abbrev pub NulFree : Bytes → Type 0
NulFree = Lacks 0

-- One turn of the loop.
split_loop_step :
    (fuel c idx : ℕ) (b : Bytes)
    → index_byte 0 (c ∷ b) ≡ some idx
    → split_loop (suc fuel) (c ∷ b)
      ≡ (split_loop fuel (drop idx b) >>= λ out. some (take idx (c ∷ b) ∷ out))
unfolding split_loop
split_loop_step fuel c idx b e = rw (e, split_loop)

-- A turn over any field.
split_loop-field :
    (fuel : ℕ) (f rest : Bytes)
    → NulFree f
    → split_loop (suc fuel) (f ++ (0 ∷ rest)) ≡ (split_loop fuel rest >>= λ out. some (f ∷ out))
split_loop-field fuel [] rest h = split_loop_step fuel 0 0 rest (index_byte-append 0 [] rest tt)
split_loop-field fuel (c ∷ f) rest h =
    split_loop_step fuel c (suc (length f)) (f ++ (0 ∷ rest)) (index_byte-append 0 (c ∷ f) rest h)
    ∙ ap₂ (λ d t. split_loop fuel d >>= λ out. some (t ∷ out)) (drop-append_cons f 0 rest)
        (take-append (c ∷ f) (0 ∷ rest))

pub split_loop-encode_strings :
    (fs : List Bytes) (fuel : ℕ)
    → All NulFree fs
    → length (encode_strings fs) ≤ fuel
    → split_loop fuel (encode_strings fs) ≡ some fs
unfolding encode_strings
split_loop-encode_strings [] fuel h n = unfold split_loop in refl
split_loop-encode_strings (f ∷ fs) zero h n =
    absurd (omega (arith, length-append f (0 ∷ encode_strings fs)))
split_loop-encode_strings (f ∷ fs) (suc fuel) h n =
    split_loop-field fuel f (encode_strings fs) h.0
    ∙ rw (
        split_loop-encode_strings fs fuel h.1
          (omega (arith, length-append f (0 ∷ encode_strings fs))))

-- Every field read is free of NUL, and the fields are the whole input.
split_loop_sound :
    (fuel : ℕ) (b : Bytes) (fs : List Bytes)
    → split_loop fuel b ≡ some fs
    → All NulFree fs × (encode_strings fs ≡ b)
unfolding split_loop encode_strings
split_loop_sound fuel [] [] h = (tt, refl)
split_loop_sound fuel [] (f ∷ fs) h = cc
split_loop_sound zero (c ∷ b) fs h = cc
split_loop_sound (suc fuel) (c ∷ b) fs h =
    let (idx, e, h') = >>=-eq-some (index_byte 0 (c ∷ b)) _ h in
    let (out, e', last) = >>=-eq-some (split_loop fuel (drop idx b)) _ h' in
    let ih = split_loop_sound fuel (drop idx b) out e' in
    let at = index_byte-split 0 (c ∷ b) idx e in
    subst (λ gs. All NulFree gs × (encode_strings gs ≡ c ∷ b)) (some_inj last)
      ((at.1, ih.0), rw ih.1 (sym at.2))

abbrev pub EndsInNul : Bytes → Type 0
EndsInNul b = (b ≡ []) ⊎ ((a : Bytes) × (b ≡ a ++ (0 ∷ [])))

-- Every text that ends in NUL is the encoding of some fields.
EndsInNul-fields :
    (a : Bytes) → (fs : List Bytes) × All NulFree fs × (encode_strings fs ≡ a ++ (0 ∷ []))
unfolding encode_strings
EndsInNul-fields [] = ([] ∷ [], (tt, tt), refl)
EndsInNul-fields (c ∷ a) = join_byte c a (EndsInNul-fields a)
  where
    join_byte :
        (c : ℕ) (a : Bytes)
        → (fs : List Bytes) × All NulFree fs × (encode_strings fs ≡ a ++ (0 ∷ []))
        → (fs : List Bytes) × All NulFree fs × (encode_strings fs ≡ c ∷ (a ++ (0 ∷ [])))
    join_byte zero a (fs, free, e) = ([] ∷ fs, (tt, free), ap (◌∷◌ 0) e)
    join_byte (suc c) [] ([], free, e) = cc
    join_byte (suc c) (x ∷ a) ([], free, e) = cc
    join_byte (suc c) a (f ∷ fs, free, e) =
        ((suc c ∷ f) ∷ fs, ((omega arith, free.0), free.1), ap (◌∷◌ (suc c)) e)

encode_strings-EndsInNul : (fs : List Bytes) → EndsInNul (encode_strings fs)
unfolding encode_strings
encode_strings-EndsInNul [] = inl refl
encode_strings-EndsInNul (f ∷ fs) = inr (elim (encode_strings-EndsInNul fs) [
  | inl e ↦ (f, rw e refl)
  | inr (a, e) ↦ (f ++ (0 ∷ a), rw e (sym (append_assoc f (0 ∷ a) (0 ∷ []))))
])

split_nul_terminated_total :
    (b : Bytes) → EndsInNul b → (fs : List Bytes) × (split_nul_terminated b ≡ some fs)
unfolding split_nul_terminated
split_nul_terminated_total b (inl e) = ([], rw e refl)
split_nul_terminated_total b (inr (a, e)) =
    let (fs, free, e') = EndsInNul-fields a in
    (fs, rw (e ∙ sym e') (split_loop-encode_strings fs _ free (omega arith)))

-- The loop over a packet's tail succeeds exactly when the tail is empty or its last byte is NUL;
-- then the fields are free of NUL and, each written with a NUL behind it, give the tail back.
pub split_nul_terminated-encode_strings :
    (b : Bytes)
    → ((fs : List Bytes) × (split_nul_terminated b ≡ some fs)
        × All NulFree fs
        × (encode_strings fs ≡ b)
        × EndsInNul b)
      ⊎ ((split_nul_terminated b ≡ none) × ¬ EndsInNul b)
split_nul_terminated-encode_strings b = elim (Option-cases (split_nul_terminated b)) [
  | inl e ↦ inr (e, λ x. absurd (some_not_none (sym (split_nul_terminated_total b x).1 ∙ e)))
  | inr (fs, e) ↦
      let (free, whole) = split_loop_sound (length b) b fs (unfold split_nul_terminated in e) in
      inl (fs, e, free, whole, subst EndsInNul whole (encode_strings-EndsInNul fs))
]
  where
    some_not_none : {fs : List Bytes} → some fs ≡ none → ⊥
    some_not_none e = cc
