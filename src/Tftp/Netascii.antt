-- ===== src/Tftp/Netascii.antt =====
-- internal/tftp/netascii.go
pub mod Stream
use do_daemon.Prelude.{Bool, Bytes, [], false, if◌then◌else◌, not, true, ◌++◌, ◌==◌, ◌||◌, ◌∷◌}

-- `bytes.ContainsRune(b, '\n')`
unfoldable pub contains_lf : Bytes → Bool
contains_lf [] = false
contains_lf (c ∷ b) = c == b'\n' || contains_lf b

unfoldable pub expand : Bytes → Bytes
expand [] = []
expand (c ∷ b) = let rest = expand b in if c == b'\n' then b'\r' ∷ b'\n' ∷ rest else c ∷ rest

unfoldable pub to_netascii : Bytes → Bytes
unfolding contains_lf expand
to_netascii b = if not (contains_lf b) then b else expand b

-- What a step of the loop appends, and what it then carries.
abbrev pub emit : Bytes → Bytes × Bool → Bytes × Bool
emit out r = (out ++ r.0, r.1)

-- The loop from `i` on, over `b[i:]`; in the second case it has read a CR at `i` and looks at `i+1`.
unfoldable pub from_loop : Bytes → Bytes × Bool
from_loop [] = ([], false)
from_loop (c ∷ []) = if c == b'\r' then ([], true) else (c ∷ [], false)
from_loop (c ∷ d ∷ b) =
    let skip = from_loop b in
    let go_on = from_loop (d ∷ b) in
    if c == b'\r'
    then (if d == b'\n' then emit (b'\n' ∷ []) skip else emit (b'\r' ∷ []) go_on)
    else emit (c ∷ []) go_on

unfoldable pub from_netascii : Bytes → Bool → Bytes × Bool
unfolding from_loop
from_netascii [] pending_cr = from_loop []
from_netascii (c ∷ b) true =
    if c == b'\n' then emit (b'\n' ∷ []) (from_loop b) else emit (b'\r' ∷ []) (from_loop (c ∷ b))
from_netascii (c ∷ b) false = from_loop (c ∷ b)
