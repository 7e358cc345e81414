-- ===== src/Tftp/Download/Blocks.antt =====
-- The packets of a download: the file's blocks in order, each one sent once or more.
use do_daemon.Prelude.{
  ==_refl, Bool, Bool-cases, Bytes, List, [], ap, append-nil, arith, false, inl, inr, leb, length,
  length-take, ne→==, none, refl, some, suc, take-append-drop, true, zero, ℕ, ◌++◌, ◌<◌, ◌==◌, ◌∙◌,
  ◌∷◌, ◌≡◌, ◌≢◌, ◌≤◌,
}
use do_daemon.Tftp.Packet.{encode_data, encode_error, parse_data}
use do_daemon.Tftp.Packet.RoundTrip.{parse_data-encode_data}
use do_daemon.Tftp.Link.Copies.{copies}
use do_daemon.Tftp.Netascii.Stream.{to_netascii-append}
use do_daemon.Tftp.Download.{Reader, next_block, on_wire, read_full}

-- A client (RFC 1350): it takes the DATA packet that it expects next and ignores all others.
unfoldable pub receive : ℕ → List Bytes → Bytes
receive expected [] = []
receive expected (p ∷ ps) = elim (parse_data p) [
  | none ↦ receive expected ps
  | some (block, payload) ↦ elim (block == expected) [
    | true ↦ payload ++ receive (next_block expected) ps
    | false ↦ receive expected ps
  ]
]

receive-other :
    (expected block : ℕ) (payload : Bytes) (ps : List Bytes)
    → block < 65536
    → block ≢ expected
    → receive expected (encode_data block payload ∷ ps) ≡ receive expected ps
unfolding receive
receive-other expected block payload ps h ne =
    rw (parse_data-encode_data block payload h, receive) (rw (ne→== block expected ne) refl)

receive-expected :
    (block : ℕ) (payload : Bytes) (ps : List Bytes)
    → block < 65536
    → receive block (encode_data block payload ∷ ps) ≡ payload ++ receive (next_block block) ps
unfolding receive
receive-expected block payload ps h =
    rw (parse_data-encode_data block payload h, receive) (rw (==_refl block) refl)

pub receive-skip :
    (expected block : ℕ) (payload : Bytes) (m : ℕ) (ps : List Bytes)
    → block < 65536
    → block ≢ expected
    → receive expected (copies m (encode_data block payload) ++ ps) ≡ receive expected ps
receive-skip expected block payload zero ps h ne = refl
receive-skip expected block payload (suc m) ps h ne =
    receive-other expected block payload _ h ne ∙ receive-skip expected block payload m ps h ne

next_block-ne : (block : ℕ) → block < 65536 → block ≢ next_block block
unfolding next_block
next_block-ne block h e = omega arith

pub next_block-lt : (block : ℕ) → next_block block < 65536
unfolding next_block
next_block-lt block = omega arith

pub receive-block :
    (block : ℕ) (payload : Bytes) (m : ℕ) (ps : List Bytes)
    → block < 65536
    → receive block (copies (suc m) (encode_data block payload) ++ ps)
      ≡ payload ++ receive (next_block block) ps
receive-block block payload m ps h =
    receive-expected block payload _ h
    ∙ ap (λ r. payload ++ r)
        (receive-skip (next_block block) block payload m ps h (next_block-ne block h))

parse_data-encode_error : (code : ℕ) (msg : Bytes) → parse_data (encode_error code msg) ≡ none
unfolding parse_data encode_error
parse_data-encode_error code msg = ground arith

pub receive-encode_error :
    (expected code : ℕ) (msg : Bytes) → receive expected (encode_error code msg ∷ []) ≡ []
unfolding receive
receive-encode_error expected code msg = rw (parse_data-encode_error code msg, receive) refl

pub on_wire-append :
    (netascii : Bool) (xs ys : Bytes)
    → on_wire netascii (xs ++ ys) ≡ on_wire netascii xs ++ on_wire netascii ys
unfolding on_wire
on_wire-append true xs ys = to_netascii-append xs ys
on_wire-append false xs ys = refl

-- What `io.ReadFull` gives is the front of the file; less than a whole buffer is all of it.
pub read_full-some :
    (n : ℕ) (r r' : Reader) (chunk : Bytes)
    → read_full n r ≡ some (chunk, r')
    → (r.ahead ≡ chunk ++ r'.ahead)
      × (length chunk ≤ n)
      × (length chunk < n → r'.ahead ≡ [])
      × (r'.is_broken ≡ r.is_broken)
unfolding read_full
read_full-some n r r' chunk e = elim (Bool-cases (leb n (length r.ahead))) [
  | inl full ↦
      let e' = rw full at e in
      (
        ground (arith, take-append-drop n r.ahead),
        ground (arith, length-take n r.ahead),
        ground (arith, length-take n r.ahead),
        ground arith,
      )
  | inr short ↦ elim (Bool-cases r.is_broken) [
    | inl b ↦ cc (rw (short, b) at e)
    | inr b ↦
        let e' = rw (short, b) at e in
        (
          (let whole : chunk ≡ r.ahead = ground arith in
              let rest : r'.ahead ≡ [] = ground arith in rw (rest, append-nil, whole) refl),
          ground arith,
          ground arith,
          ground arith,
        )
  ]
]
