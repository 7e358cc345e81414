-- ===== src/Sftp/Listing.antt =====
-- internal/sftp/fs.go: `listerAt`, as a reader of its pages meets it. `capacity` is the length of the
-- slice to be filled.
use do_daemon.Prelude.{
  Bool, Bool-cases, List, Option, [], ap, arith, drop, drop-drop, drop-length, false, if◌then◌else◌,
  inl, inr, leb, length, length-drop, length-take, ltb, none, refl, some, suc, take,
  take-append-drop, take-length, true, zero, ℕ, ◌++◌, ◌+◌, ◌<◌, ◌>>=◌, ◌≡◌, ◌≤◌,
}

module _ {A : Type 0} where
  -- `ListAt`: the entries that are copied, and whether the error is `io.EOF`.
  unfoldable pub list_at : List A → ℕ → ℕ → List A × Bool
  list_at l capacity offset =
      if leb (length l) offset
      then ([], true)
      else let copied = take capacity (drop offset l) in (copied, ltb (length copied) capacity)

  -- A reader that asks for `capacity` entries at a time, each time behind what it has read, until it
  -- meets `io.EOF`; `none` where the fuel is used up before.
  abbrev pub read_pages : ℕ → List A → ℕ → ℕ → Option (List A)
  read_pages zero l capacity offset = none
  read_pages (suc fuel) l capacity offset =
      let (page, eof) = list_at l capacity offset in
      let rest = read_pages fuel l capacity (offset + length page) in
      if eof then some page else (do r ← rest; some (page ++ r))

  -- A page that is not the last is full.
  full_page-append :
      (l : List A) (capacity offset : ℕ)
      → ltb (length (take capacity (drop offset l))) capacity ≡ false
      → take capacity (drop offset l) ++ drop (offset + length (take capacity (drop offset l))) l
        ≡ drop offset l
  full_page-append l capacity offset n =
      let full : length (take capacity (drop offset l)) ≡ capacity =
        ground (arith, length-take capacity (drop offset l)) in
      rw (full, ← drop-drop offset capacity l) (take-append-drop capacity (drop offset l))

  pages_lem :
      (fuel : ℕ) (l : List A) (capacity offset : ℕ)
      → 0 < capacity
      → offset ≤ length l
      → length l < offset + fuel
      → read_pages fuel l capacity offset ≡ some (drop offset l)
  unfolding list_at
  pages_lem zero l capacity offset c h f = ground arith
  pages_lem (suc fuel) l capacity offset c h f = elim (Bool-cases (leb (length l) offset)) [
    | inl e ↦ rw (e, drop-length offset l (ground arith)) refl
    | inr n ↦ elim (Bool-cases (ltb (length (take capacity (drop offset l))) capacity)) [
      | inl last ↦
          rw
            (
              n,
              last,
              take-length capacity (drop offset l)
                  (ground (arith, length-take capacity (drop offset l))),
            )
            refl
      | inr more ↦
          rw
            (
              n,
              more,
              pages_lem fuel l capacity (offset + length (take capacity (drop offset l))) c
                  (ground (arith, length-take capacity (drop offset l), length-drop offset l))
                  (ground (arith, length-take capacity (drop offset l), length-drop offset l)),
            )
            (ap some (full_page-append l capacity offset more))
    ]
  ]

  -- A reader of a listing that asks for one entry or more at a time and stops at `io.EOF` reads every
  -- entry once, in their order, with no more requests than there are entries and one more.
  pub read_pages-all :
      (l : List A) (capacity : ℕ) → 0 < capacity → read_pages (suc (length l)) l capacity 0 ≡ some l
  read_pages-all l capacity c =
      pages_lem (suc (length l)) l capacity 0 c (omega arith) (omega arith)
