-- ===== src/SyslogStore/Size.antt =====
-- How long internal/syslogsrv/store.go lets the log file get.
use do_daemon.Prelude.{
  Bool, Bool-cases, Bytes, Option-cases, arith, false, inl, inr, length, ltb, refl, some, true, ℕ,
  ◌+◌, ◌<◌, ◌≡◌, ◌≤◌, ◌⊎◌,
}
use do_daemon.SyslogStore.{
  LogDisk, Store, append_line, if_rotated, open_current, rename_then_open, rotate_locked,
  write_line,
}

-- The file is within its limit, or it holds one line only, which is over the limit by itself.
abbrev pub IsLimited : ℕ → ℕ → ℕ → Type 0
IsLimited max_size line size = (size ≤ max_size) ⊎ ((max_size < line) × (size ≤ line))

module _ {W : Type 0} (disk : LogDisk W)
    (writes_at_most : (line : Bytes) (w : W) → (disk.write_file line w).0.0 ≤ length line)
    (renamed_is_fresh : (dir : Bytes) (compress : Bool) (w : W) (n : ℕ)
      → (disk.rename_current dir compress w).0 ≡ true
      → (disk.open_append dir (disk.rename_current dir compress w).1).0 ≡ some n
      → n ≡ 0) where
  -- A rotation that fails leaves the size, one that succeeds makes it zero.
  abbrev Rotated : Store W → Bool × Store W → Type 0
  Rotated s (ok, s') = ((ok ≡ false) × (s'.size ≡ s.size)) ⊎ ((ok ≡ true) × (s'.size ≡ 0))

  rename_then_open-Rotated : (s : Store W) → Rotated s (rename_then_open disk s)
  unfolding rename_then_open open_current
  rename_then_open-Rotated s = elim (Bool-cases (disk.rename_current s.dir s.compress s.world).0) [
    | inl r ↦
        elim (Option-cases
          (disk.open_append s.dir (disk.rename_current s.dir s.compress s.world).1).0) [
            | inl o ↦ rw (r, open_current, o) (inl (refl, refl))
            | inr (n, o) ↦
                rw (r, open_current, o)
                  (inr (refl, renamed_is_fresh s.dir s.compress s.world n r o))
          ]
    | inr r ↦ rw r (inl (refl, refl))
  ]

  rotate_locked-Rotated : (s : Store W) → Rotated s (rotate_locked disk s)
  unfolding rotate_locked
  rotate_locked-Rotated s = elim (Bool-cases (disk.close_file s.world).0) [
    | inl c ↦ rw c (rename_then_open-Rotated (record s { world = (disk.close_file s.world).1 }))
    | inr c ↦ rw c (inl (refl, refl))
  ]

  if_rotated-IsLimited :
      (line : Bytes) (s : Store W) (r : Bool × Store W)
      → s.size ≤ s.max_size
      → s.max_size < s.size + length line
      → Rotated s r
      → IsLimited s.max_size (length line) (if_rotated disk line r).1.size
  unfolding append_line
  if_rotated-IsLimited line s (true, s') h over (inl p) = cc (p.0)
  if_rotated-IsLimited line s (true, s') h over (inr p) =
      elim (Bool-cases (ltb s.max_size (length line))) [
        | inl l ↦ inr (ground arith, omega (arith, p.1, writes_at_most line s'.world))
        | inr l ↦ inl (ground (arith, p.1, writes_at_most line s'.world))
      ]
  if_rotated-IsLimited line s (false, s') h over (inl p) = inl (omega (arith, p.1))
  if_rotated-IsLimited line s (false, s') h over (inr p) = cc (p.0)

  -- On a disk that writes no more than it is given, and on which the log opened behind a rename is
  -- new and empty: a line written to a file within the limit leaves it within the limit, or leaves
  -- a file that holds that line only, a line longer than the limit; failures included.
  pub write_line-IsLimited :
      (line : Bytes) (s : Store W)
      → s.size ≤ s.max_size
      → IsLimited s.max_size (length line) (write_line disk line s).1.size
  unfolding write_line append_line
  write_line-IsLimited line s h = elim (Bool-cases (ltb s.max_size (s.size + length line))) [
    | inl o ↦ rw o (
        if_rotated-IsLimited line s (rotate_locked disk s) h (ground arith)
          (rotate_locked-Rotated s))
    | inr o ↦ rw o (inl (ground (arith, writes_at_most line s.world)))
  ]
