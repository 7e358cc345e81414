-- ===== src/Prelude/Decimal.antt =====
-- Integers in decimal, as `strconv` writes and reads them, and Go's `int` where it can be negative.
use Prim.Native.Nat.{ℕ, zero, suc, ◌+◌, ◌*◌, ◌-◌, ◌/◌, ◌%◌, ◌<◌, ◌≤◌}
use mathlib.Core.Bool.{Bool, true, false, ◌&&◌}
use mathlib.Core.List.{concat-ne-nil, [], ◌∷◌, ◌++◌}
use mathlib.Core.Option.{Option, none, some}
use mathlib.Core.Path.{◌≡◌, refl, ◌∙◌, ap}
use mathlib.Core.Logic.{inl, inr, ◌≢◌}
use native.Mathlib.Omega.{arith}
use do_daemon.Prelude.Tests.{◌==◌, leb, ltb, if◌then◌else◌, ◌>>=◌, Bool-cases, lt→ltb}
use do_daemon.Prelude.Text.{Bytes}

-- `negsuc n` is -(n + 1).
pub data ℤ : Type 0 where
  pos : ℕ → ℤ
  negsuc : ℕ → ℤ

-- `i < n`, against a number of the source that is not negative.
abbrev pub int_lt : ℤ → ℕ → Bool
int_lt (pos m) n = ltb m n
int_lt (negsuc m) n = true

-- `n < i`.
abbrev pub lt_int : ℕ → ℤ → Bool
lt_int n (pos m) = ltb n m
lt_int n (negsuc m) = false

-- 2 ^ 63
unfoldable pub int_limit : ℕ
int_limit = 9223372036854775808

abbrev pub is_digit : ℕ → Bool
is_digit c = leb b'0' c && leb c b'9'

unfoldable pub read_digits : ℕ → Bytes → Option ℕ
read_digits acc [] = some acc
read_digits acc (c ∷ s) =
    let rest = read_digits (acc * 10 + (c - b'0')) s in if is_digit c then rest else none

-- The digits behind the sign: there is one at least.
unfoldable pub read_number : Bytes → Option ℕ
unfolding read_digits
read_number [] = none
read_number (c ∷ s) = read_digits 0 (c ∷ s)

abbrev pub in_range : ℕ → Option ℤ
in_range n = if ltb n int_limit then some (pos n) else none

abbrev pub negated : ℕ → Option ℤ
negated zero = some (pos 0)
negated (suc n) = if ltb n int_limit then some (negsuc n) else none

-- `Atoi`, and `ParseInt(s, 10, 64)`, on a 64-bit machine. `none` is the error.
unfoldable pub atoi : Bytes → Option ℤ
unfolding read_number
atoi [] = none
atoi (c ∷ s) =
    if c == b'-'
    then (do n ← read_number s; negated n)
    else if c == b'+'
    then (do n ← read_number s; in_range n)
    else (do n ← read_number (c ∷ s); in_range n)

-- `Itoa` of a number that is not negative; a turn divides by ten, so `n` turns are enough.
unfoldable pub itoa_loop : ℕ → ℕ → Bytes
itoa_loop zero n = (n % 10 + b'0') ∷ []
itoa_loop (suc fuel) n =
    let more = itoa_loop fuel (n / 10) ++ ((n % 10 + b'0') ∷ []) in
    if ltb n 10 then (n + b'0') ∷ [] else more

unfoldable pub itoa : ℕ → Bytes
unfolding itoa_loop
itoa n = itoa_loop n n

read_digits-append :
    (acc : ℕ) (s : Bytes) (d n : ℕ)
    → read_digits acc s ≡ some n
    → d < 10
    → read_digits acc (s ++ ((d + b'0') ∷ [])) ≡ some (n * 10 + d)
unfolding read_digits
read_digits-append acc [] d n h l = ground arith
read_digits-append acc (c ∷ s) d n h l =
    ground (arith, read_digits-append (acc * 10 + (c - b'0')) s d n)

read_digits-itoa_loop : (fuel n : ℕ) → n ≤ fuel → read_digits 0 (itoa_loop fuel n) ≡ some n
unfolding itoa_loop
read_digits-itoa_loop zero n h = unfold read_digits in ground arith
read_digits-itoa_loop (suc fuel) n h = elim (Bool-cases (ltb n 10)) [
  | inl e ↦ rw e (unfold read_digits in ground arith)
  | inr e ↦ rw e (
      read_digits-append 0 (itoa_loop fuel (n / 10)) (n % 10) (n / 10)
        (read_digits-itoa_loop fuel (n / 10) (ground arith)) (omega arith)
      ∙ ap some (omega arith))
]

itoa_loop-ne-nil : (fuel n : ℕ) → itoa_loop fuel n ≢ []
unfolding itoa_loop
itoa_loop-ne-nil zero n h = cc
itoa_loop-ne-nil (suc fuel) n h = elim (Bool-cases (ltb n 10)) [
  | inl e ↦ absurd (ground arith)
  | inr e ↦ concat-ne-nil (n % 10 + b'0') (itoa_loop fuel (n / 10)) (ground arith)
]

atoi-digits : (s : Bytes) (n : ℕ) → s ≢ [] → read_digits 0 s ≡ some n → atoi s ≡ in_range n
unfolding atoi
atoi-digits [] n ne h = absurd (ne refl)
atoi-digits (c ∷ s) n ne h = ground arith

-- What `Itoa` writes, `Atoi` reads.
pub atoi-itoa : (n : ℕ) → n < int_limit → atoi (itoa n) ≡ some (pos n)
unfolding itoa
atoi-itoa n h =
    atoi-digits (itoa_loop n n) n (itoa_loop-ne-nil n n) (read_digits-itoa_loop n n (omega arith))
    ∙ rw (lt→ltb n int_limit h)

pub atoi-lt : (s : Bytes) (n : ℕ) → atoi s ≡ some (pos n) → n < int_limit
unfolding atoi
atoi-lt [] n h = absurd (ground arith)
atoi-lt (c ∷ s) n h = elim (Bool-cases (c == b'-')) [
  | inl e ↦ negative (read_number s) (rw e at h)
  | inr e ↦ elim (Bool-cases (c == b'+')) [
    | inl p ↦ in_range-lt (read_number s) (rw (e, p) at h)
    | inr p ↦ in_range-lt (read_digits 0 (c ∷ s)) (rw (e, p) at h)
  ]
]
  where
    in_range-lt : (o : Option ℕ) → (o >>= in_range) ≡ some (pos n) → n < int_limit
    in_range-lt none h = cc
    in_range-lt (some m) h = ground arith

    negative : (o : Option ℕ) → (o >>= negated) ≡ some (pos n) → n < int_limit
    negative none h = cc
    negative (some zero) h = let e : n ≡ 0 = cc in unfold int_limit in omega arith
    negative (some (suc m)) h = ground arith
