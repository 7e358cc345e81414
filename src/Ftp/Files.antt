-- ===== src/Ftp/Files.antt =====
-- internal/ftp/permfs.go: `trackedFile`. A call gives the bytes that were moved or none, since the error goes
-- back to the client as it is; counts stay below the 2^63 of an `int64`.
use do_daemon.Prelude.{
  Bool, Bool-cases, Bytes, List, [], ap, arith, false, if◌then◌else◌, inl, inr, length, ltb, not,
  refl, suc, true, ℕ, ◌&&◌, ◌++◌, ◌+◌, ◌-◌, ◌==◌, ◌∙◌, ◌∷◌, ◌≡◌,
}
use do_daemon.Ftp.{
  PermissionFs, St, TrackedFile, Transfer, began, ended, moved, progress_interval, publish,
}

-- The calls of an open file: what is read or written, or its close.
pub data FileCall : Type 0 where
  call_read : ℕ → FileCall
  call_write : Bytes → FileCall
  call_close : FileCall

module _ {W : Type 0} (f : PermissionFs W) where
  unfoldable pub publish_progress : TrackedFile → St W → TrackedFile × St W
  unfolding publish
  publish_progress t st =
      if ltb (f.inner.clock st.world - t.last_progress) progress_interval then (t, st) else (
        record t { last_progress = f.inner.clock st.world },
        publish f (moved t.direction t.name t.done t.total) st,
      )

  -- `if n > 0 { ... }` of `Read` and `Write`.
  unfoldable pub moved_bytes : ℕ → TrackedFile → St W → TrackedFile × St W
  unfolding publish_progress
  moved_bytes n t st =
      if n == 0
      then (t, st)
      else let t' = record t { done = t.done + n } in
        if f.has_bus then publish_progress t' st else (t', st)

  unfoldable pub file_read : ℕ → TrackedFile → St W → TrackedFile × St W
  unfolding moved_bytes
  file_read size t st =
      let ((p, err), w) = f.inner.file_read t.handle size st.world in
      moved_bytes (length p) t (record st { world = w })

  unfoldable pub file_write : Bytes → TrackedFile → St W → TrackedFile × St W
  unfolding moved_bytes
  file_write p t st =
      let ((n, err), w) = f.inner.file_write t.handle p st.world in
      moved_bytes n t (record st { world = w })

  unfoldable pub file_close : TrackedFile → St W → TrackedFile × St W
  unfolding publish
  file_close t st =
      let (err, w) = f.inner.file_close t.handle st.world in
      let s = record st { world = w } in
      if t.closed
      then (t, s)
      else (record t { closed = true }, publish f (ended t.direction t.name) s)

  unfoldable pub file_call : FileCall → TrackedFile → St W → TrackedFile × St W
  unfolding file_read file_write file_close
  file_call (call_read size) t st = file_read size t st
  file_call (call_write p) t st = file_write p t st
  file_call call_close t st = file_close t st

  unfoldable pub file_calls : List FileCall → TrackedFile → St W → TrackedFile × St W
  unfolding file_call
  file_calls [] t st = (t, st)
  file_calls (c ∷ cs) t st = let (t', st') = file_call c t st in file_calls cs t' st'

-- How many of the events say that a transfer has ended.
unfoldable pub count_ended : List Transfer → ℕ
count_ended [] = 0
count_ended (began d n ∷ es) = count_ended es
count_ended (moved d n k m ∷ es) = count_ended es
count_ended (ended d n ∷ es) = suc (count_ended es)

abbrev pub has_close : List FileCall → Bool
has_close [] = false
has_close (call_read n ∷ cs) = has_close cs
has_close (call_write p ∷ cs) = has_close cs
has_close (call_close ∷ cs) = true

abbrev pub ends : Bool → ℕ
ends true = 1
ends false = 0

if_either {ℓ κ} :
    {A : Type ℓ} (P : A → Type κ) (b : Bool) {x y : A} → P x → P y → P (if b then x else y)
if_either P true p q = p
if_either P false p q = q

count_ended-append :
    (xs ys : List Transfer) → count_ended (xs ++ ys) ≡ count_ended xs + count_ended ys
unfolding count_ended
count_ended-append [] ys = omega arith
count_ended-append (began d n ∷ xs) ys = count_ended-append xs ys
count_ended-append (moved d n k m ∷ xs) ys = count_ended-append xs ys
count_ended-append (ended d n ∷ xs) ys = omega (arith, count_ended-append xs ys)

module _ {W : Type 0} (f : PermissionFs W) where
  -- How far a file has got: whether it is closed, and how many ends were published.
  abbrev standing : TrackedFile × St W → Bool × ℕ
  standing (t, st) = (t.closed, count_ended st.published)

  publish_progress_lem :
      (t : TrackedFile) (st : St W) → standing (publish_progress f t st) ≡ standing (t, st)
  unfolding publish_progress publish count_ended
  publish_progress_lem t st =
      elim (Bool-cases (ltb (f.inner.clock st.world - t.last_progress) progress_interval)) [
        | inl l ↦ rw l refl
        | inr l ↦ elim (Bool-cases f.has_bus) [
          | inl b ↦
              rw (l, b)
                (ap (λ k. (t.closed, k))
                  (count_ended-append st.published (moved t.direction t.name t.done t.total ∷ [])
                    ∙ omega arith))
          | inr b ↦ rw (l, b) refl
        ]
      ]

  moved_bytes_lem :
      (n : ℕ) (t : TrackedFile) (st : St W) → standing (moved_bytes f n t st) ≡ standing (t, st)
  unfolding moved_bytes
  moved_bytes_lem n t st = elim (Bool-cases (n == 0)) [
    | inl z ↦ rw z refl
    | inr z ↦ rw z (
        if_either (λ x. standing x ≡ standing (t, st)) f.has_bus
          (publish_progress_lem (record t { done = t.done + n }) st) refl)
  ]

  -- What a closed file adds.
  abbrev owed : List FileCall → Bool × ℕ → ℕ
  owed cs (closed, k) = k + ends (f.has_bus && (not closed && has_close cs))

  file_close_lem :
      (cs : List FileCall) (t : TrackedFile) (st : St W)
      → owed cs (standing (file_close f t st)) ≡ owed (call_close ∷ cs) (standing (t, st))
  unfolding file_close publish count_ended
  file_close_lem cs t st = elim (Bool-cases t.closed) [
    | inl c ↦ rw c refl
    | inr c ↦ elim (Bool-cases f.has_bus) [
      | inl b ↦
          rw (c, b) (omega (arith, count_ended-append st.published (ended t.direction t.name ∷ [])))
      | inr b ↦ rw (c, b) refl
    ]
  ]

  -- Over any reads, writes and closes of an open file, one end is published if there is a bus and a
  -- close among the calls, and none otherwise.
  pub file_calls-ended :
      (cs : List FileCall) (t : TrackedFile) (st : St W)
      → count_ended (file_calls f cs t st).1.published
        ≡ count_ended st.published + ends (f.has_bus && (not t.closed && has_close cs))
  unfolding file_calls file_call file_read file_write
  file_calls-ended [] t st = elim (Bool-cases f.has_bus) [
    | inl b ↦ elim (Bool-cases t.closed) [
      | inl c ↦ rw (b, c) (omega arith)
      | inr c ↦ rw (b, c) (omega arith)
    ]
    | inr b ↦ rw b (omega arith)
  ]
  file_calls-ended (call_read n ∷ cs) t st =
      let ((p, err), w) = f.inner.file_read t.handle n st.world in
      let s = record st { world = w } in
      let (t', st') = moved_bytes f (length p) t s in
      file_calls-ended cs t' st' ∙ ap (owed cs) (moved_bytes_lem (length p) t s)
  file_calls-ended (call_write p ∷ cs) t st =
      let ((n, err), w) = f.inner.file_write t.handle p st.world in
      let s = record st { world = w } in
      let (t', st') = moved_bytes f n t s in
      file_calls-ended cs t' st' ∙ ap (owed cs) (moved_bytes_lem n t s)
  file_calls-ended (call_close ∷ cs) t st =
      let (t', st') = file_close f t st in file_calls-ended cs t' st' ∙ file_close_lem cs t st
