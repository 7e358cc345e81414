-- ===== src/Prelude/Text.antt =====
-- Byte strings: Go's `string` and `[]byte` as lists of byte values, and what the code takes of the
-- packages `strings`, `bytes` and `encoding/binary`.
use Prim.Native.Char.{code}
use Prim.Native.Nat.{ℕ, zero, suc, ◌+◌, ◌*◌, ◌/◌, ◌%◌, ◌<◌}
use Prim.Native.String.{String}
use mathlib.Core.Bool.{Bool, true, false, ◌&&◌}
use mathlib.Core.List.{List, [], ◌∷◌, ◌++◌}
use mathlib.Core.Logic.{◌≢◌, ◌↔◌}
use mathlib.Core.Option.{Option, none, some}
use mathlib.Core.Path.{◌≡◌, refl, ap}
use native.Mathlib.Omega.{arith}
use do_daemon.Prelude.Lists.{length, take, drop}
use do_daemon.Prelude.Tests.{◌==◌, if◌then◌else◌}

abbrev pub Bytes : Type 0
Bytes = List ℕ

-- The bytes of an ASCII literal.
abbrev pub codes : String → Bytes
codes String.[] = []
codes (String.◌∷◌ c s) = code c ∷ codes s

abbrev pub IsByte : ℕ → Type 0
IsByte c = c < 256

-- `==` of two Go strings.
abbrev pub equal : Bytes → Bytes → Bool
equal [] [] = true
equal [] (y ∷ ys) = false
equal (x ∷ xs) [] = false
equal (x ∷ xs) (y ∷ ys) = (x == y) && equal xs ys

pub equal_iff : (xs ys : Bytes) → (equal xs ys ≡ true) ↔ (xs ≡ ys)
equal_iff [] [] = ground arith
equal_iff [] (y ∷ ys) = ground arith
equal_iff (x ∷ xs) [] = ground arith
equal_iff (x ∷ xs) (y ∷ ys) = ground (arith, equal_iff xs ys)

pub equal_refl : (xs : Bytes) → equal xs xs ≡ true
equal_refl xs = (equal_iff xs xs).1 refl

pub equal_sym : (xs ys : Bytes) → equal xs ys ≡ equal ys xs
equal_sym [] [] = refl
equal_sym [] (y ∷ ys) = refl
equal_sym (x ∷ xs) [] = refl
equal_sym (x ∷ xs) (y ∷ ys) = ground (arith, equal_sym xs ys)

-- `IndexByte`; `none` is -1.
unfoldable pub index_byte : ℕ → Bytes → Option ℕ
index_byte c [] = none
index_byte c (x ∷ xs) =
    if x == c then some 0 else elim (index_byte c xs) [ none ↦ none | some i ↦ some (suc i) ]

-- No byte of the string is `c`.
abbrev pub Lacks : ℕ → Bytes → Type 0
Lacks c [] = Unit
Lacks c (x ∷ xs) = (x ≢ c) × Lacks c xs

pub index_byte-append :
    (c : ℕ) (xs ys : Bytes) → Lacks c xs → index_byte c (xs ++ (c ∷ ys)) ≡ some (length xs)
unfolding index_byte
index_byte-append c [] ys h = ground arith
index_byte-append c (x ∷ xs) ys h = ground (arith, index_byte-append c xs ys h.1)

pub index_byte-Lacks : (c : ℕ) (xs : Bytes) → index_byte c xs ≡ none → Lacks c xs
unfolding index_byte
index_byte-Lacks c [] h = tt
index_byte-Lacks c (x ∷ xs) h = (ground arith, index_byte-Lacks c xs (ground arith))

pub Lacks-index_byte : (c : ℕ) (xs : Bytes) → Lacks c xs → index_byte c xs ≡ none
unfolding index_byte
Lacks-index_byte c [] h = refl
Lacks-index_byte c (x ∷ xs) h = ground (arith, Lacks-index_byte c xs h.1)

-- Where the first `c` stands.
pub index_byte-split :
    (c : ℕ) (xs : Bytes) (i : ℕ)
    → index_byte c xs ≡ some i
    → (i < length xs) × Lacks c (take i xs) × (xs ≡ take i xs ++ (c ∷ drop (suc i) xs))
unfolding index_byte
index_byte-split c [] i h = absurd (ground arith)
index_byte-split c (x ∷ xs) zero h = (omega arith, tt, ground arith)
index_byte-split c (x ∷ xs) (suc i) h =
    let ih = index_byte-split c xs i (ground arith) in
    (omega (arith, ih.0), (ground arith, ih.1), ap (◌∷◌ x) ih.2)

-- `binary.BigEndian.PutUint16`, of a uint16 value.
abbrev pub put_uint16 : ℕ → Bytes
put_uint16 v = v / 256 % 256 ∷ v % 256 ∷ []

-- `binary.BigEndian.Uint16`, at the first two bytes.
abbrev pub uint16 : Bytes → ℕ
uint16 (hi ∷ lo ∷ _) = hi * 256 + lo
uint16 _ = 0
