-- ===== src/Tftp/Netascii/Stream.antt =====
-- Decoding in pieces, and decoding what was encoded.
use do_daemon.Prelude.{
  All, Bool, Bytes, List, [], append_assoc, arith, false, if◌then◌else◌, refl, sym, true, ℕ, ◌++◌,
  ◌==◌, ◌∷◌, ◌≡◌, ◌≢◌,
}
use do_daemon.Tftp.Netascii.{contains_lf, emit, expand, from_loop, from_netascii, to_netascii}

-- A file as it came: the bytes written, and a CR that is still held back.
abbrev pub held : Bool → Bytes
held true = b'\r' ∷ []
held false = []

expand-contains_lf : (b : Bytes) → contains_lf b ≡ false → expand b ≡ b
unfolding contains_lf expand
expand-contains_lf [] h = refl
expand-contains_lf (c ∷ b) h = ground (arith, expand-contains_lf b)

to_netascii-expand : (b : Bytes) → to_netascii b ≡ expand b
unfolding to_netascii
to_netascii-expand b = ground (arith, expand-contains_lf b)

-- The specification: one machine that reads a byte at a time, and whose state is a CR held back.
unfoldable pub decode : Bool → Bytes → Bytes × Bool
decode cr [] = ([], cr)
decode true (c ∷ b) =
    let hold = decode true b in
    let next = decode false b in
    if c == b'\n'
    then emit (b'\n' ∷ []) next
    else if c == b'\r'
    then emit (b'\r' ∷ []) hold
    else emit (b'\r' ∷ c ∷ []) next
decode false (c ∷ b) =
    let hold = decode true b in
    let next = decode false b in if c == b'\r' then hold else emit (c ∷ []) next

from_loop-decode : (b : Bytes) → from_loop b ≡ decode false b
unfolding from_loop decode
from_loop-decode [] = refl
from_loop-decode (c ∷ []) = ground arith
from_loop-decode (c ∷ d ∷ b) = ground (arith, from_loop-decode b, from_loop-decode (d ∷ b))

-- A packet that is not empty is decoded as the machine does it, from the CR that was held back.
pub from_netascii-decode :
    (c : ℕ) (b : Bytes) (cr : Bool) → from_netascii (c ∷ b) cr ≡ decode cr (c ∷ b)
unfolding from_netascii decode
from_netascii-decode c b false = from_loop-decode (c ∷ b)
from_netascii-decode c b true = ground (arith, from_loop-decode b, from_loop-decode (c ∷ b))

emit_assoc : (xs ys : Bytes) (r : Bytes × Bool) → emit xs (emit ys r) ≡ emit (xs ++ ys) r
emit_assoc xs ys r = rw append_assoc

pub decode-append :
    (cr : Bool) (xs ys : Bytes)
    → decode cr (xs ++ ys) ≡ emit (decode cr xs).0 (decode (decode cr xs).1 ys)
unfolding decode
decode-append cr [] ys = refl
decode-append true (c ∷ xs) ys = ground (arith, decode-append true xs ys, decode-append false xs ys)
decode-append false (c ∷ xs) ys =
    ground (arith, decode-append true xs ys, decode-append false xs ys)

-- The carry threaded through the packets of an upload, as `handleWRQ` threads it.
unfoldable pub from_packets : List Bytes → Bool → Bytes × Bool
from_packets [] cr = ([], cr)
from_packets (p ∷ ps) cr = let r = from_netascii p cr in emit r.0 (from_packets ps r.1)

abbrev pub concat : List Bytes → Bytes
concat [] = []
concat (p ∷ ps) = p ++ concat ps

-- Where the packets end makes no difference: packets that are not empty are decoded to what one
-- machine makes of their bytes in a row.
pub from_packets-decode :
    (ps : List Bytes) (cr : Bool)
    → All (λ p. p ≢ []) ps
    → from_packets ps cr ≡ decode cr (concat ps)
unfolding from_packets
from_packets-decode [] cr h = unfold decode in refl
from_packets-decode ([] ∷ ps) cr h = absurd (h.0 refl)
from_packets-decode ((c ∷ p) ∷ ps) cr h =
    rw (from_netascii-decode c p cr, from_packets-decode ps (decode cr (c ∷ p)).1 h.1)
      (sym (decode-append cr (c ∷ p) (concat ps)))

-- An encoded file: a CR held back is given out before anything but a LF, and `expand` puts a CR
-- before every LF.
decode-expand :
    (cr : Bool) (b : Bytes)
    → (decode cr (expand b)).0 ++ held (decode cr (expand b)).1 ≡ held cr ++ b
unfolding decode expand
decode-expand true [] = refl
decode-expand false [] = refl
decode-expand true (c ∷ b) = ground (arith, decode-expand true b, decode-expand false b)
decode-expand false (c ∷ b) = ground (arith, decode-expand true b, decode-expand false b)

-- A file sent in netascii and split into packets anyhow, none of them empty, is read back: the bytes
-- written, and the CR that is still held back if the file ends in one, are the file.
pub from_packets-to_netascii :
    (b : Bytes) (ps : List Bytes)
    → All (λ p. p ≢ []) ps
    → concat ps ≡ to_netascii b
    → (from_packets ps false).0 ++ held (from_packets ps false).1 ≡ b
from_packets-to_netascii b ps h e =
    rw (from_packets-decode ps false h, e, to_netascii-expand b) (decode-expand false b)

expand-append : (xs ys : Bytes) → expand (xs ++ ys) ≡ expand xs ++ expand ys
unfolding expand
expand-append [] ys = refl
expand-append (x ∷ xs) ys = ground (arith, expand-append xs ys)

pub to_netascii-append : (xs ys : Bytes) → to_netascii (xs ++ ys) ≡ to_netascii xs ++ to_netascii ys
to_netascii-append xs ys =
    rw (to_netascii-expand (xs ++ ys), to_netascii-expand xs, to_netascii-expand ys)
      (expand-append xs ys)
