-- ===== src/WebUi/Text.antt =====
-- What internal/webui/settings.go takes of Go's strings: `range` over a string, `strings.Join` with no
-- separator and `strings.TrimSpace`.
use do_daemon.Prelude.{
  Bool, Bytes, List, Option, [], drop, false, if◌then◌else◌, leb, length, ltb, map, none, reverse,
  some, suc, take, true, zero, ℕ, ◌&&◌, ◌++◌, ◌-◌, ◌==◌, ◌∷◌,
}

-- `n` bytes that carry on a rune, the first of them from `lo` to `hi`.
abbrev pub is_tail : ℕ → ℕ → ℕ → Bytes → Bool
is_tail zero lo hi s = true
is_tail (suc n) lo hi [] = false
is_tail (suc n) lo hi (c ∷ s) = leb lo c && leb c hi && is_tail n 128 191 s

-- The bytes of the rune that begins with `c`, and 0 where that is no valid UTF-8.
abbrev pub rune_size : ℕ → Bytes → ℕ
rune_size c s =
    if ltb c 128
    then 1
    else if ltb c 194
    then 0
    else if ltb c 224
    then (if is_tail 1 128 191 s then 2 else 0)
    else if ltb c 240
    then (if is_tail 2 (if c == 224 then 160 else 128) (if c == 237 then 159 else 191) s
        then 3
        else 0)
    else if ltb c 245
    then (if is_tail 3 (if c == 240 then 144 else 128) (if c == 244 then 143 else 191) s
        then 4
        else 0)
    else 0

-- U+FFFD, that `range` gives for a byte that is no part of a rune.
abbrev pub replacement : Bytes
replacement = 239 ∷ 191 ∷ 189 ∷ []

-- The runes of a string, each as a string; the fuel is the string's length.
unfoldable pub runes : ℕ → Bytes → List Bytes
runes zero s = []
runes (suc n) [] = []
runes (suc n) (c ∷ s) =
    let k = rune_size c s in
    (if k == 0 then replacement else c ∷ take (k - 1) s) ∷ runes n (drop (k - 1) s)

abbrev pub concat : List Bytes → Bytes
concat [] = []
concat (p ∷ ps) = p ++ concat ps

-- The white space of Unicode in UTF-8.
abbrev pub white_space : List Bytes
white_space =
    (9 ∷ [])
    ∷ (10 ∷ [])
    ∷ (11 ∷ [])
    ∷ (12 ∷ [])
    ∷ (13 ∷ [])
    ∷ (32 ∷ [])
    ∷ (194 ∷ 133 ∷ [])
    ∷ (194 ∷ 160 ∷ [])
    ∷ (225 ∷ 154 ∷ 128 ∷ [])
    ∷ (226 ∷ 128 ∷ 128 ∷ [])
    ∷ (226 ∷ 128 ∷ 129 ∷ [])
    ∷ (226 ∷ 128 ∷ 130 ∷ [])
    ∷ (226 ∷ 128 ∷ 131 ∷ [])
    ∷ (226 ∷ 128 ∷ 132 ∷ [])
    ∷ (226 ∷ 128 ∷ 133 ∷ [])
    ∷ (226 ∷ 128 ∷ 134 ∷ [])
    ∷ (226 ∷ 128 ∷ 135 ∷ [])
    ∷ (226 ∷ 128 ∷ 136 ∷ [])
    ∷ (226 ∷ 128 ∷ 137 ∷ [])
    ∷ (226 ∷ 128 ∷ 138 ∷ [])
    ∷ (226 ∷ 128 ∷ 168 ∷ [])
    ∷ (226 ∷ 128 ∷ 169 ∷ [])
    ∷ (226 ∷ 128 ∷ 175 ∷ [])
    ∷ (226 ∷ 129 ∷ 159 ∷ [])
    ∷ (227 ∷ 128 ∷ 128 ∷ [])
    ∷ []

abbrev pub without_prefix : Bytes → Bytes → Option Bytes
without_prefix [] s = some s
without_prefix (p ∷ ps) [] = none
without_prefix (p ∷ ps) (c ∷ s) = if p == c then without_prefix ps s else none

-- The string behind the first of these prefixes that it has.
abbrev pub behind : List Bytes → Bytes → Option Bytes
behind [] s = none
behind (p ∷ ps) s = elim (without_prefix p s) [ some t ↦ some t | none ↦ behind ps s ]

unfoldable pub trim_loop : ℕ → List Bytes → Bytes → Bytes
trim_loop zero spaces s = s
trim_loop (suc n) spaces s = elim (behind spaces s) [ none ↦ s | some t ↦ trim_loop n spaces t ]

-- `strings.TrimSpace`: white space is dropped from the front, and from the back of what that leaves.
unfoldable pub trim_space : Bytes → Bytes
unfolding trim_loop
trim_space s =
    let t = trim_loop (length s) white_space s in
    reverse (trim_loop (length t) (map reverse white_space) (reverse t))
