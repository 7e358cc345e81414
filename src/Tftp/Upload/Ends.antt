-- ===== src/Tftp/Upload/Ends.antt =====
-- An upload to which finitely many replies come.
use do_daemon.Prelude.{
  Bool, Bool-cases, Bytes, List, Option, Option-cases, [], ap, arith, false, if◌then◌else◌, inl,
  inr, length, not, refl, some, suc, true, zero, ℕ, ◌<◌, ◌==◌, ◌∷◌, ◌≡◌, ◌≤◌,
}
use do_daemon.Tftp.Link.{
  Env, Net, Reply, arrived, failed, later_replies, next_reply, publish, timed_out, upload_started,
  write,
}
use do_daemon.Tftp.Upload.{
  Outcome, Receiving, continued, finished, greeting, handle_wrq, on_data, on_packet, on_reply,
  on_retry, on_silence, start_receiving, store, upload_loop, upload_turn,
}
use do_daemon.Tftp.Packet.{Options, parse_data, parse_error}
use do_daemon.Tftp.Options.{TftpConfig, negotiate_options}
use do_daemon.Tftp.Download.{or_zero}

-- A turn that does not end the loop has left no more replies than there were.
abbrev Takes : Net → Outcome → Type 0
Takes net (finished net' file') = Unit
Takes net (continued s' net' file') = length net'.replies ≤ length net.replies

abbrev TakesBelow : ℕ → Outcome → Type 0
TakesBelow fuel (finished net' file') = Unit
TakesBelow fuel (continued s' net' file') = length net'.replies < fuel

Takes-below :
    (net : Net) (t : Outcome) (fuel : ℕ)
    → length net.replies < fuel
    → Takes net t
    → TakesBelow fuel t
Takes-below net (finished net' file') fuel h t = tt
Takes-below net (continued s' net' file') fuel h t = omega (arith, t)

Takes-le :
    (net net1 : Net) (t : Outcome)
    → length net.replies ≤ length net1.replies
    → Takes net t
    → Takes net1 t
Takes-le net net1 (finished net' file') h t = tt
Takes-le net net1 (continued s' net' file') h t = omega (arith, t)

module _ (env : Env) (blksize total : ℕ) (netascii : Bool) (kvs : List Bytes) where
  store-Takes :
      (s : Receiving) (payload : Bytes) (d : Bytes × Bool) (net : Net) (file : Bytes)
      → Takes net (store env blksize total s payload d net file)
  unfolding store
  store-Takes s payload d net file = ground arith

  on_data-Takes :
      (s : Receiving) (d : ℕ × Bytes) (net : Net) (file : Bytes)
      → Takes net (on_data env blksize total netascii s d net file)
  unfolding on_data
  on_data-Takes s (block, payload) net file = elim (Bool-cases (block == s.expected)) [
    | inl e ↦ rw e (store-Takes s payload _ net file)
    | inr e ↦ rw e (ground arith)
  ]

  on_packet-Takes :
      (s : Receiving) (b : Bytes) (net : Net) (file : Bytes)
      → Takes net (on_packet env blksize total netascii s b net file)
  unfolding on_packet
  on_packet-Takes s b net file = elim (Option-cases (parse_data b)) [
    | inr (d, e) ↦ rw (e, on_packet) (on_data-Takes s d net file)
    | inl e ↦ elim (Option-cases (parse_error b)) [
      | inl e' ↦ rw (e, e', on_packet) tt
      | inr (x, e') ↦ rw (e, e', on_packet) tt
    ]
  ]

  on_retry-Takes :
      (s : Receiving) (r : Reply) (net : Net) (file : Bytes)
      → Takes net (on_retry env blksize total netascii s r net file)
  unfolding on_retry
  on_retry-Takes s (arrived b) net file = on_packet-Takes s b net file
  on_retry-Takes s timed_out net file = tt
  on_retry-Takes s failed net file = tt

  length-later_replies : (rs : List Reply) → length (later_replies rs) ≤ length rs
  length-later_replies [] = omega arith
  length-later_replies (r ∷ rs) = omega arith

  write_replies : (p : Bytes) (net : Net) → (write env p net).replies ≡ net.replies
  write_replies p net = ground arith

  on_silence-Takes :
      (s : Receiving) (net : Net) (file : Bytes)
      → Takes net (on_silence env blksize total netascii kvs s net file)
  unfolding on_silence
  on_silence-Takes s net file = elim (Bool-cases s.first) [
    | inl e ↦ rw e (
        let net1 : Net = write env (greeting kvs) net in
        let net2 : Net = record net1 { replies = later_replies net1.replies } in
        Takes-le net2 net _
          (omega (
            arith,
            length-later_replies net1.replies,
            ap (λ rs. length rs) (write_replies (greeting kvs) net),
          ))
          (on_retry-Takes s (next_reply net1.replies) net2 file))
    | inr e ↦ rw e tt
  ]

  -- Where no reply is left the session is over.
  on_silence_over :
      (s : Receiving) (net : Net) (file : Bytes)
      → net.replies ≡ []
      → TakesBelow 0 (on_silence env blksize total netascii kvs s net file)
  unfolding on_silence on_retry
  on_silence_over s net file none_left = elim (Bool-cases s.first) [
    | inl e ↦ rw (e, write_replies (greeting kvs) net, none_left, on_retry) tt
    | inr e ↦ rw e tt
  ]

  on_reply-Takes :
      (s : Receiving) (r : Reply) (net : Net) (file : Bytes)
      → Takes net (on_reply env blksize total netascii kvs s r net file)
  unfolding on_reply
  on_reply-Takes s (arrived b) net file = on_packet-Takes s b net file
  on_reply-Takes s timed_out net file = on_silence-Takes s net file
  on_reply-Takes s failed net file = on_silence-Takes s net file

  -- With a reply taken off there are fewer.
  upload_turn-Takes :
      (s : Receiving) (net : Net) (file : Bytes) (fuel : ℕ)
      → length net.replies < suc fuel
      → TakesBelow fuel (upload_turn env blksize total netascii kvs s net file)
  unfolding upload_turn
  upload_turn-Takes s net file fuel h = elim (Bool-cases (env.cancelled net.replies)) [
    | inl e ↦ rw e tt
    | inr e ↦ rw e (by_replies net.replies refl h)
  ]
    where
      none_below : (t : Outcome) → TakesBelow 0 t → TakesBelow fuel t
      none_below (finished net' file') x = tt
      none_below (continued s' net' file') x = absurd (omega (arith, x))

      by_replies :
          (rs : List Reply)
          → net.replies ≡ rs
          → length rs < suc fuel
          → TakesBelow fuel (
              on_reply env blksize total netascii kvs s
                (next_reply rs)
                (record net { replies = later_replies rs })
                file)
      by_replies [] e l =
          none_below _
            (unfold on_reply in on_silence_over s (record net { replies = [] }) file refl)
      by_replies (r ∷ rs) e l =
          Takes-below (record net { replies = rs }) _ fuel (omega arith)
            (on_reply-Takes s r (record net { replies = rs }) file)

  -- Whatever the replies to come are, of which there are finitely many, the loop ends.
  pub upload_loop_total :
      (fuel : ℕ) (s : Receiving) (net : Net) (file : Bytes)
      → length net.replies < fuel
      → (r : Net × Bytes) × (upload_loop env blksize total netascii kvs fuel s net file ≡ some r)
  unfolding upload_loop
  upload_loop_total zero s net file h = absurd (omega arith)
  upload_loop_total (suc fuel) s net file h =
      go (upload_turn env blksize total netascii kvs s net file)
        (upload_turn-Takes s net file fuel h) (upload_loop_total fuel)
    where
      go :
          (t : Outcome)
          → TakesBelow fuel t
          → ((s : Receiving) (net : Net) (file : Bytes)
              → length net.replies < fuel
              → (r : Net × Bytes) × (upload_loop env blksize total netascii kvs fuel s net file
                  ≡ some r))
          → (r : Net × Bytes) × (elim t [
            | finished net' file' ↦ some (net', file')
            | continued s' net' file' ↦
                upload_loop env blksize total netascii kvs fuel s' net' file'
          ]
              ≡ some r)
      go (finished net' file') t ih = ((net', file'), refl)
      go (continued s' net' file') t ih = ih s' net' file' t

if_total :
    {A : Type 0} (b : Bool) (x : A) (o : Option A)
    → (r : A) × (o ≡ some r)
    → (r : A) × ((if b then some x else o) ≡ some r)
if_total true x o r = (x, refl)
if_total false x o r = r

-- `handleWRQ` returns, whatever the disk and the request, once the replies that are given have come; a
-- client that sends blocks for ever that are not expected is not one of these networks.
pub handle_wrq_total :
    (env : Env) (cfg : TftpConfig) (options : Options) (netascii created : Bool) (net : Net)
    → (r : Net × Option Bytes) × (handle_wrq env cfg options netascii created net ≡ some r)
unfolding handle_wrq
handle_wrq_total env cfg options netascii created net =
    let n = negotiate_options cfg options 0 in
    let net1 : Net = publish (upload_started n.blksize) net in
    let (r, e) =
      upload_loop_total env n.blksize (or_zero n.tsize) netascii n.oack_kv
        (suc (length net.replies)) (start_receiving env net1) (write env (greeting n.oack_kv) net1)
        []
        (omega (
          arith,
          ap (λ rs. length rs)
              (write_replies env n.blksize 0 netascii [] (greeting n.oack_kv) net1),
        )) in
    if_total (not cfg.allow_write) _ _ (if_total (not created) _ _ ((r.0, some r.1), rw e refl))
