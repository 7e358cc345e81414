-- ===== src/Tftp/Download/Whole.antt =====
-- A download from the request on.
use do_daemon.Prelude.{
  Bool, Bytes, List, [], ap, append-nil, append_assoc, arith, false, inl, inr, length,
  length-append, none, pos, refl, some, suc, sym, true, zero, ℕ, ℤ, ◌++◌, ◌<◌, ◌∙◌, ◌∷◌, ◌≡◌, ◌⊎◌,
}
use do_daemon.Tftp.Packet.{Options, encode_data, encode_oack, parse_data}
use do_daemon.Tftp.Link.{
  Env, Net, Notice, download_started, negotiation_timed_out, publish, rounds, send_and_wait_ack,
}
use do_daemon.Tftp.Link.Copies.{Waited, copies, send_and_wait_ack-Waited}
use do_daemon.Tftp.Download.{
  Reader, Sending, Turn, answer_options, download_loop, download_turn, go_on, handle_rrq, on_oack,
  on_wire, or_zero, over, send_file, serve_file,
}
use do_daemon.Tftp.Download.Blocks.{next_block-lt, on_wire-append, receive, receive-block}
use do_daemon.Tftp.Download.Delivery.{
  Delivered, Passed, TurnDelivered, any_complete, download_turn-TurnDelivered, none-Delivered,
}
use do_daemon.Tftp.Options.{TftpConfig, negotiate_options}
use do_daemon.Tftp.Options.Agreement.{negotiate_options-blksize}

any_complete-append :
    (xs ys : List Notice) → any_complete xs ≡ false → any_complete (xs ++ ys) ≡ any_complete ys
any_complete-append [] ys h = refl
any_complete-append (x ∷ xs) ys h = ground (arith, any_complete-append xs ys)

-- Earlier notices of no completion make no difference.
after_none :
    (xs ys : List Notice) {P : Type 0}
    → any_complete xs ≡ false
    → (any_complete ys ≡ false) ⊎ P
    → (any_complete (xs ++ ys) ≡ false) ⊎ P
after_none xs ys h (inl n) = inl (any_complete-append xs ys h ∙ n)
after_none xs ys h (inr p) = inr p

module _ {netascii : Bool} {blksize : ℕ} {s : Sending} {net : Net} {s' : Sending} {net' : Net} where
  Passed-Delivered :
      {net'' : Net}
      → s.block < 65536
      → Passed netascii blksize s net s' net'
      → Delivered netascii s'.block s'.reader.ahead net' net''
      → Delivered netascii s.block s.reader.ahead net net''
  Passed-Delivered lt p d = record {
    packets = copies (suc p.repeats) (encode_data s.block (on_wire netascii p.chunk)) ++ d.packets;
    fresh = p.fresh ++ d.fresh;
    unread = d.unread;
    sent_is = d.sent_is ∙ rw p.sent_is (append_assoc net.sent _ d.packets);
    notices_is = d.notices_is ∙ rw p.notices_is (append_assoc net.notices p.fresh d.fresh);
    prefix =
        ap (λ b. b ++ d.unread)
          (receive-block s.block (on_wire netascii p.chunk) p.repeats d.packets lt)
        ∙ append_assoc (on_wire netascii p.chunk) _ d.unread
        ∙ ap (λ b. on_wire netascii p.chunk ++ b) (rw (← p.block_is) d.prefix)
        ∙ sym (on_wire-append netascii p.chunk s'.reader.ahead)
        ∙ ap (on_wire netascii) (sym p.ahead_is);
    complete = after_none p.fresh d.fresh p.no_complete d.complete;
  }

module _ (env : Env) (max_retries : ℤ) (blksize : ℕ) (netascii : Bool) (file_size : ℕ)
    (pos_blksize : 0 < blksize) where
  download_loop-Delivered :
      (fuel : ℕ) (s : Sending) (net : Net)
      → s.block < 65536
      → length s.reader.ahead < fuel
      → (net' : Net) × (download_loop env max_retries blksize netascii file_size fuel s net
          ≡ some net')
        × Delivered netascii s.block s.reader.ahead net net'
  unfolding download_loop
  download_loop-Delivered zero s net lt enough = absurd (omega arith)
  download_loop-Delivered (suc fuel) s net lt enough =
      go (download_turn env max_retries blksize netascii file_size s net)
        (download_turn-TurnDelivered env max_retries blksize netascii file_size s net lt)
        (download_loop-Delivered fuel)
    where
      go :
          (t : Turn)
          → TurnDelivered netascii blksize s net t
          → ((s' : Sending) (net' : Net)
              → s'.block < 65536
              → length s'.reader.ahead < fuel
              → (net'' : Net) × (download_loop env max_retries blksize netascii file_size fuel s'
                    net'
                  ≡ some net'')
                × Delivered netascii s'.block s'.reader.ahead net' net'')
          → (net' : Net) × (elim t [
            | over net' ↦ some net'
            | go_on s' net' ↦ download_loop env max_retries blksize netascii file_size fuel s' net'
          ]
              ≡ some net')
            × Delivered netascii s.block s.reader.ahead net net'
      go (over net') d ih = (net', refl, d)
      go (go_on s' net') p ih =
          let lt' : s'.block < 65536 = rw p.block_is (next_block-lt s.block) in
          let shorter : length s'.reader.ahead < fuel =
            omega (
              arith,
              p.full,
              ap (λ b. length b) p.ahead_is,
              length-append p.chunk s'.reader.ahead,
            ) in
          let (net'', e, d) = ih s' net' lt' shorter in (net'', e, Passed-Delivered lt p d)

-- Packets and notices that come first and that the client does not read as blocks.
Delivered-after :
    (netascii : Bool) (block : ℕ) (ahead : Bytes) (net net1 net' : Net) (packets : List Bytes)
    (fresh : List Notice)
    → net1.sent ≡ net.sent ++ packets
    → net1.notices ≡ net.notices ++ fresh
    → ((ps : List Bytes) → receive block (packets ++ ps) ≡ receive block ps)
    → any_complete fresh ≡ false
    → Delivered netascii block ahead net1 net'
    → Delivered netascii block ahead net net'
Delivered-after netascii block ahead net net1 net' packets fresh s n r c d = record {
  packets = packets ++ d.packets;
  fresh = fresh ++ d.fresh;
  unread = d.unread;
  sent_is = d.sent_is ∙ rw s (append_assoc net.sent packets d.packets);
  notices_is = d.notices_is ∙ rw n (append_assoc net.notices fresh d.fresh);
  prefix = ap (λ b. b ++ d.unread) (r d.packets) ∙ d.prefix;
  complete = after_none fresh d.fresh c d.complete;
}

parse_data-encode_oack : (kvs : List Bytes) → parse_data (encode_oack kvs) ≡ none
unfolding parse_data encode_oack
parse_data-encode_oack kvs = ground arith

receive-no_data :
    (block : ℕ) (p : Bytes) (ps : List Bytes)
    → parse_data p ≡ none
    → receive block (p ∷ ps) ≡ receive block ps
unfolding receive
receive-no_data block p ps e = rw (e, receive) refl

receive-encode_oack :
    (block m : ℕ) (kvs ps : List Bytes)
    → receive block (copies m (encode_oack kvs) ++ ps) ≡ receive block ps
receive-encode_oack block zero kvs ps = refl
receive-encode_oack block (suc m) kvs ps =
    receive-no_data block (encode_oack kvs) _ (parse_data-encode_oack kvs)
    ∙ receive-encode_oack block m kvs ps

pub blksize_pos :
    (cfg : TftpConfig) (options : Options) (file_size m : ℕ)
    → cfg.max_blksize ≡ pos m
    → 0 < m
    → 0 < (negotiate_options cfg options file_size).blksize
blksize_pos cfg options file_size m e h =
    elim (negotiate_options-blksize cfg options file_size m e h) [
      | inl (i, asks, is) ↦ omega (arith, is, asks.3)
      | inr (_, is) ↦ omega (arith, is)
    ]

module _ (env : Env) (cfg : TftpConfig) (options : Options) (netascii : Bool) (f : Reader) (m : ℕ)
    (max : cfg.max_blksize ≡ pos m) (pos_max : 0 < m) where
  send_file-Delivered :
      (net : Net)
      → (net' : Net) × (send_file env cfg options netascii f net ≡ some net')
        × Delivered netascii 1 f.ahead net net'
  unfolding send_file
  send_file-Delivered net =
      download_loop-Delivered env cfg.max_retries _ netascii (or_zero f.stat_size)
        (blksize_pos cfg options (or_zero f.stat_size) m max pos_max) (suc (length f.ahead))
        (record { block = 1; bytes_sent = 0; last_progress = env.now net.replies; reader = f }) net
        (omega arith) (omega arith)

  on_oack-Delivered :
      (kvs : List Bytes) (net : Net) (r : Bool × Net)
      → Waited (rounds cfg.max_retries) (encode_oack kvs) net r
      → (net' : Net) × (on_oack env cfg options netascii f r ≡ some net')
        × Delivered netascii 1 f.ahead net net'
  unfolding on_oack
  on_oack-Delivered kvs net (true, net1) w =
      let (net', e, d) = send_file-Delivered net1 in
      (
        net',
        e,
        Delivered-after netascii 1 f.ahead net net1 net' _ [] w.sent_copies
            (w.notices_same ∙ sym (append-nil net.notices))
            (λ ps. receive-encode_oack 1 w.count kvs ps) refl d,
      )
  on_oack-Delivered kvs net (false, net1) w = (
    _,
    refl,
    none-Delivered netascii 1 f.ahead net _ _ (negotiation_timed_out ∷ []) w.sent_copies
        (ap (λ n. n ++ (negotiation_timed_out ∷ [])) w.notices_same)
        (ap (receive 1) (sym (append-nil _))
          ∙ receive-encode_oack 1 w.count kvs []
          ∙ unfold receive in refl)
        refl,
  )

  answer_options-Delivered :
      (kvs : List Bytes) (net : Net)
      → (net' : Net) × (answer_options env cfg options netascii f kvs net ≡ some net')
        × Delivered netascii 1 f.ahead net net'
  unfolding answer_options
  answer_options-Delivered [] net = send_file-Delivered net
  answer_options-Delivered (kv ∷ kvs) net =
      on_oack-Delivered (kv ∷ kvs) net
        (send_and_wait_ack env cfg.max_retries (encode_oack (kv ∷ kvs)) 0 net)
        (send_and_wait_ack-Waited env cfg.max_retries (encode_oack (kv ∷ kvs)) 0 net)

  handle_rrq_allowed :
      (net : Net)
      → cfg.allow_read ≡ true
      → handle_rrq env cfg options netascii (some f) net ≡ serve_file env cfg options netascii f net
  unfolding handle_rrq
  handle_rrq_allowed net read = simp read

  -- A download that the server allows ends, over every network. A client that takes the blocks in
  -- order has then received a prefix of the file (expanded for netascii), and all of it if the server
  -- reports the download as complete.
  pub handle_rrq-Delivered :
      (net : Net)
      → cfg.allow_read ≡ true
      → (net' : Net) × (handle_rrq env cfg options netascii (some f) net ≡ some net')
        × Delivered netascii 1 f.ahead net net'
  handle_rrq-Delivered net read =
      let n = negotiate_options cfg options (or_zero f.stat_size) in
      let started = publish (download_started n.blksize) net in
      let (net', e, d) = answer_options-Delivered n.oack_kv started in
      (
        net',
        handle_rrq_allowed net read ∙ (unfold serve_file in e),
        Delivered-after netascii 1 f.ahead net started net' [] (download_started n.blksize ∷ [])
            (sym (append-nil net.sent)) refl (λ ps. refl) refl d,
      )
