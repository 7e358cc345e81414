-- ===== src/Syslog/Bounds.antt =====
-- What is known of every message that internal/syslogsrv/parse.go makes.
use do_daemon.Prelude.{
  Bool-cases, Bytes, Option, Option-cases, arith, atoi, codes, drop, false, index_byte, inl, inr,
  ltb, negsuc, none, not, pos, refl, some, take, true, ℕ, ℤ, ◌%◌, ◌/◌, ◌||◌, ◌≡◌, ◌≤◌, ◌⊎◌,
}
use do_daemon.Syslog.{
  Message, Parsed, Times, bom, has_prefix, malformed, panicked, parse, parse_pri, parse_tagged,
  parsed, trim_prefix, unstructured, valid_pri, with_pri,
}

-- The number between the "<" of a line and its first ">".
abbrev pub HasPri : Bytes → ℕ → Type 0
HasPri raw pri =
    (end : ℕ) × (index_byte b'>' raw ≡ some end) × (atoi (drop 1 (take end raw)) ≡ some (pos pri))

-- A facility and a severity: both from the PRI of a line that begins with "<", or both -1 for a line
-- that does not.
abbrev pub IsTagged : Bytes → Message → Type 0
IsTagged raw m =
    ((has_prefix raw (codes "<") ≡ false)
      × (m.format ≡ unstructured)
      × (m.facility ≡ negsuc 0)
      × (m.severity ≡ negsuc 0))
    ⊎ ((has_prefix raw (codes "<") ≡ true)
        × ((pri : ℕ) × HasPri raw pri
            × (pri ≤ 191)
            × (m.facility ≡ pos (pri / 8))
            × (m.severity ≡ pos (pri % 8))
            × (pri / 8 ≤ 23)
            × (pri % 8 ≤ 7)))

abbrev pub IsKept : Bytes → Parsed Message → Type 0
IsKept raw (parsed m) = (m.raw ≡ raw) × IsTagged raw m
IsKept raw malformed = Unit
IsKept raw panicked = Unit

module _ (times : Times) where
  with_pri-IsKept :
      (pri : ℕ) (raw : Bytes) (r : Parsed Message)
      → has_prefix raw (codes "<") ≡ true
      → HasPri raw pri
      → pri ≤ 191
      → IsKept raw (with_pri times pri raw r)
  with_pri-IsKept pri raw (parsed m) p has h =
      (refl, inr (p, (pri, has, h, refl, refl, omega arith, omega arith)))
  with_pri-IsKept pri raw malformed p has h = tt
  with_pri-IsKept pri raw panicked p has h = tt

  valid_pri-le :
      (o : Option ℤ) (n : ℕ) → valid_pri times o ≡ some n → (o ≡ some (pos n)) × (n ≤ 191)
  valid_pri-le none n h = cc
  valid_pri-le (some (pos m)) n h = ground arith
  valid_pri-le (some (negsuc m)) n h = cc

  parse_tagged-IsKept :
      (raw remote_addr : Bytes)
      → has_prefix raw (codes "<") ≡ true
      → IsKept raw (parse_tagged times raw remote_addr)
  unfolding parse_tagged parse_pri
  parse_tagged-IsKept raw remote_addr p = elim (Option-cases (index_byte b'>' raw)) [
    | inl e ↦ rw (parse_tagged, e) tt
    | inr (end, e) ↦ elim (Bool-cases (ltb end 1 || ltb 4 end)) [
      | inl f ↦ rw (parse_tagged, e, f) tt
      | inr f ↦ elim (Option-cases (valid_pri times (atoi (drop 1 (take end raw))))) [
        | inl g ↦ rw (parse_tagged, e, f, g) tt
        | inr (pri, g) ↦
            let (number, le) = valid_pri-le (atoi (drop 1 (take end raw))) pri g in
            rw (parse_tagged, e, f, g) (with_pri-IsKept pri raw _ p (end, e, number) le)
      ]
    ]
  ]

  -- A message keeps the line it came from, less a leading byte order mark. If that line begins with "<",
  -- the number up to its first ">" is at most 191, and the message's facility and severity are its
  -- quotient and remainder by 8, at most 23 and 7; if not, the message is unstructured and both are -1.
  pub parse-IsKept :
      (given remote_addr : Bytes) → IsKept (trim_prefix given bom) (parse times given remote_addr)
  unfolding parse
  parse-IsKept given remote_addr =
      elim (Bool-cases (not (has_prefix (trim_prefix given bom) (codes "<")))) [
        | inl e ↦ rw e (refl, inl (ground arith, refl, refl, refl))
        | inr e ↦ rw e (parse_tagged-IsKept (trim_prefix given bom) remote_addr (ground arith))
      ]
