-- ===== src/Tftp/Packet/Sound.antt =====
-- What a datagram that the server takes for a request must be.
use mathlib.Core.Path.{subst}
use do_daemon.Prelude.{
  >>=-eq-some, All, Bytes, List, [], arith, drop, inl, inr, length, some, some_inj, sym, uint16, ℕ,
  ◌>>=◌, ◌∙◌, ◌∷◌, ◌≡◌, ◌≤◌, ◌⊎◌,
}
use do_daemon.Tftp.Packet.{
  Request, encode_strings, op_rrq, op_wrq, parse_request, read_options, request_of,
  split_nul_terminated,
}
use do_daemon.Tftp.Packet.Fields.{NulFree, split_nul_terminated-encode_strings}

abbrev pub IsRequestOp : ℕ → Type 0
IsRequestOp op = (op ≡ op_rrq) ⊎ (op ≡ op_wrq)

request_of_sound :
    (op : ℕ) (fs : List Bytes) (req : Request)
    → request_of op fs ≡ some req
    → (rest : List Bytes) × (fs ≡ req.filename ∷ req.mode ∷ rest)
      × (req.op ≡ op)
      × (req.options ≡ read_options rest [])
unfolding request_of
request_of_sound op [] req h = cc
request_of_sound op (f ∷ []) req h = cc
request_of_sound op (f ∷ g ∷ rest) req h = (rest, ground arith, ground arith, ground arith)

parse_request_inv :
    (b : Bytes) (req : Request)
    → parse_request b ≡ some req
    → (4 ≤ length b)
      × IsRequestOp (uint16 b)
      × ((split_nul_terminated (drop 2 b) >>= request_of (uint16 b)) ≡ some req)
unfolding parse_request
parse_request_inv b req h = (ground arith, ground arith, ground arith)

-- Only a datagram of at least four bytes is taken for a request, whose first two are the opcode of
-- RRQ or WRQ and whose rest is NUL-terminated fields: the file name, the mode and the options, which
-- hold no NUL.
pub parse_request_sound :
    (b : Bytes) (req : Request)
    → parse_request b ≡ some req
    → (4 ≤ length b)
      × (req.op ≡ uint16 b)
      × IsRequestOp req.op
      × ((rest : List Bytes) × (drop 2 b ≡ encode_strings (req.filename ∷ req.mode ∷ rest))
          × All NulFree (req.filename ∷ req.mode ∷ rest)
          × (req.options ≡ read_options rest []))
parse_request_sound b req h =
    let (long, op, e) = parse_request_inv b req h in
    let (fs, split, of) = >>=-eq-some (split_nul_terminated (drop 2 b)) _ e in
    let (rest, fields, same, opts) = request_of_sound (uint16 b) fs req of in
    elim (split_nul_terminated-encode_strings (drop 2 b)) [
      | inl (gs, split', free, whole, _) ↦
          let g : gs ≡ req.filename ∷ req.mode ∷ rest = some_inj (sym split' ∙ split) ∙ fields in
          (long, same, rw same op, (rest, rw (← g) (sym whole), subst (All NulFree) g free, opts))
      | inr (none_, _) ↦ cc
    ]
