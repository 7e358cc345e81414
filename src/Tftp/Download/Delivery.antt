-- ===== src/Tftp/Download/Delivery.antt =====
-- What the client has of the file, over any network.
use do_daemon.Prelude.{
  Bool, Bool-cases, Bytes, List, Option, [], ap, append-nil, append_assoc, arith, codes, false, inl,
  inr, length, ltb, ltb→lt, none, refl, some, suc, sym, true, zero, ℕ, ℤ, ◌++◌, ◌+◌, ◌-◌, ◌<◌, ◌||◌,
  ◌∙◌, ◌∷◌, ◌≡◌, ◌≤◌, ◌⊎◌,
}
use do_daemon.Tftp.Packet.{encode_data, encode_error, err_not_defined}
use do_daemon.Tftp.Link.{
  Env, Net, Notice, download_aborted, download_complete, progress, progress_interval, publish,
  publish_progress, rounds, send_and_wait_ack, send_error,
}
use do_daemon.Tftp.Link.Copies.{Waited, copies, send_and_wait_ack-Waited}
use do_daemon.Tftp.Download.{
  Reader, Sending, Turn, after_ack, download_turn, go_on, next_block, on_answer, on_read, on_wire,
  over, read_full,
}
use do_daemon.Tftp.Download.Blocks.{
  on_wire-append, read_full-some, receive, receive-block, receive-encode_error,
}

abbrev pub is_complete : Notice → Bool
is_complete download_complete = true
is_complete _ = false

abbrev pub any_complete : List Notice → Bool
any_complete [] = false
any_complete (x ∷ xs) = is_complete x || any_complete xs

-- A run from `net` to `net'`: the packets sent, the notices published, and the part of the file that
-- the client, which expected `block`, has not got.
pub record Delivered (netascii : Bool) (block : ℕ) (ahead : Bytes) (net net' : Net) : Type 0 where
  pub packets : List Bytes
  pub fresh : List Notice
  pub unread : Bytes
  pub sent_is : net'.sent ≡ net.sent ++ packets
  pub notices_is : net'.notices ≡ net.notices ++ fresh
  pub prefix : receive block packets ++ unread ≡ on_wire netascii ahead
  pub complete : (any_complete fresh ≡ false) ⊎ (unread ≡ [])

-- One block that was acknowledged.
pub record Passed (netascii : Bool) (blksize : ℕ) (s : Sending) (net : Net) (s' : Sending)
    (net' : Net) : Type 0 where
  pub chunk : Bytes
  pub repeats : ℕ
  pub fresh : List Notice
  pub ahead_is : s.reader.ahead ≡ chunk ++ s'.reader.ahead
  pub full : length chunk ≡ blksize
  pub block_is : s'.block ≡ next_block s.block
  pub sent_is :
      net'.sent ≡ net.sent ++ copies (suc repeats) (encode_data s.block (on_wire netascii chunk))
  pub notices_is : net'.notices ≡ net.notices ++ fresh
  pub no_complete : any_complete fresh ≡ false

abbrev pub TurnDelivered : Bool → ℕ → Sending → Net → Turn → Type 0
TurnDelivered netascii blksize s net (over net') =
    Delivered netascii s.block s.reader.ahead net net'
TurnDelivered netascii blksize s net (go_on s' net') = Passed netascii blksize s net s' net'

record Quiet (net : Net) (net' : Net) : Type 0 where
  fresh : List Notice
  sent_is : net'.sent ≡ net.sent
  notices_is : net'.notices ≡ net.notices ++ fresh
  no_complete : any_complete fresh ≡ false

publish_progress-Quiet :
    (env : Env) (count total last : ℕ) (net : Net)
    → Quiet net (publish_progress env count total last net).0
unfolding publish_progress
publish_progress-Quiet env count total last net =
    elim (Bool-cases (ltb (env.now net.replies - last) progress_interval)) [
      | inl e ↦ rw e (record {
        fresh = [];
        sent_is = refl;
        notices_is = sym (append-nil net.notices);
        no_complete = refl;
      })
      | inr e ↦ rw e (record {
        fresh = progress count total ∷ [];
        sent_is = refl;
        notices_is = refl;
        no_complete = refl;
      })
    ]

-- Nothing that counts was sent.
pub none-Delivered :
    (netascii : Bool) (block : ℕ) (ahead : Bytes) (net net' : Net) (packets : List Bytes)
    (fresh : List Notice)
    → net'.sent ≡ net.sent ++ packets
    → net'.notices ≡ net.notices ++ fresh
    → receive block packets ≡ []
    → any_complete fresh ≡ false
    → Delivered netascii block ahead net net'
none-Delivered netascii block ahead net net' packets fresh s n r c = record {
  packets = packets;
  fresh = fresh;
  unread = on_wire netascii ahead;
  sent_is = s;
  notices_is = n;
  prefix = ap (λ b. b ++ on_wire netascii ahead) r;
  complete = inl c;
}

module _ (env : Env) (max_retries : ℤ) (blksize : ℕ) (netascii : Bool) (file_size : ℕ) (s : Sending)
    (net : Net) (uint16_block : s.block < 65536) where
  last_block :
      (payload : Bytes) (m : ℕ)
      → receive s.block (copies (suc m) (encode_data s.block payload)) ≡ payload
  unfolding receive
  last_block payload m =
      ap (receive s.block) (sym (append-nil (copies (suc m) (encode_data s.block payload))))
      ∙ receive-block s.block payload m [] uint16_block
      ∙ append-nil payload

  after_ack-TurnDelivered :
      (chunk : Bytes) (rest : Reader) (net' : Net) (m : ℕ)
      → s.reader.ahead ≡ chunk ++ rest.ahead
      → length chunk ≤ blksize
      → (length chunk < blksize → rest.ahead ≡ [])
      → net'.sent ≡ net.sent ++ copies (suc m) (encode_data s.block (on_wire netascii chunk))
      → net'.notices ≡ net.notices
      → TurnDelivered netascii blksize s net (after_ack env blksize file_size s chunk rest net')
  unfolding after_ack
  after_ack-TurnDelivered chunk rest net' m ahead short all sent notices =
      let q =
        publish_progress-Quiet env (s.bytes_sent + length chunk) file_size s.last_progress net' in
      elim (Bool-cases (ltb (length chunk) blksize)) [
        | inl e ↦ rw e (record {
          packets = copies (suc m) (encode_data s.block (on_wire netascii chunk));
          fresh = q.fresh ++ (download_complete ∷ []);
          unread = [];
          sent_is = q.sent_is ∙ sent;
          notices_is =
              ap (λ n. n ++ (download_complete ∷ [])) (q.notices_is ∙ rw notices refl)
              ∙ append_assoc net.notices q.fresh (download_complete ∷ []);
          prefix =
              append-nil _
              ∙ last_block (on_wire netascii chunk) m
              ∙ ap (on_wire netascii) (sym (rw (ahead, all (ltb→lt _ _ e)) (append-nil chunk)));
          complete = inr refl;
        })
        | inr e ↦ rw e (record {
          chunk = chunk;
          repeats = m;
          fresh = q.fresh;
          ahead_is = ahead;
          full = ground arith;
          block_is = refl;
          sent_is = q.sent_is ∙ sent;
          notices_is = q.notices_is ∙ rw notices refl;
          no_complete = q.no_complete;
        })
      ]

  on_answer-TurnDelivered :
      (chunk : Bytes) (rest : Reader)
      → s.reader.ahead ≡ chunk ++ rest.ahead
      → length chunk ≤ blksize
      → (length chunk < blksize → rest.ahead ≡ [])
      → (r : Bool × Net)
      → Waited (rounds max_retries) (encode_data s.block (on_wire netascii chunk)) net r
      → TurnDelivered netascii blksize s net (on_answer env blksize file_size s chunk rest r)
  on_answer-TurnDelivered chunk rest ahead short all (true, net') w =
      let resent : w.count ≡ suc (w.count - 1) = omega (arith, w.sent_once refl) in
      unfold on_answer in
      after_ack-TurnDelivered chunk rest net' (w.count - 1) ahead short all
        (w.sent_copies
          ∙ ap (λ n. net.sent ++ copies n (encode_data s.block (on_wire netascii chunk))) resent)
        w.notices_same
  on_answer-TurnDelivered chunk rest ahead short all (false, net') w =
      unfold on_answer in given_up w.count w.sent_copies
    where
      fresh_is :
          net'.notices ++ (download_aborted s.block ∷ [])
          ≡ net.notices ++ (download_aborted s.block ∷ [])
      fresh_is = ap (λ n. n ++ (download_aborted s.block ∷ [])) w.notices_same

      given_up :
          (n : ℕ)
          → net'.sent ≡ net.sent ++ copies n (encode_data s.block (on_wire netascii chunk))
          → Delivered netascii s.block s.reader.ahead net (publish (download_aborted s.block) net')
      given_up zero sent =
          none-Delivered netascii s.block s.reader.ahead net _ [] (download_aborted s.block ∷ [])
            sent fresh_is (unfold receive in refl) refl
      given_up (suc m) sent = record {
        packets = copies (suc m) (encode_data s.block (on_wire netascii chunk));
        fresh = download_aborted s.block ∷ [];
        unread = on_wire netascii rest.ahead;
        sent_is = sent;
        notices_is = fresh_is;
        prefix =
            ap (λ b. b ++ on_wire netascii rest.ahead) (last_block (on_wire netascii chunk) m)
            ∙ sym (on_wire-append netascii chunk rest.ahead)
            ∙ ap (on_wire netascii) (sym ahead);
        complete = inl refl;
      }

  pub refused-Delivered :
      (code : ℕ) (msg : Bytes) (fresh : List Notice) (net' : Net)
      → net'.sent ≡ (send_error env code msg net).sent
      → net'.notices ≡ net.notices ++ fresh
      → any_complete fresh ≡ false
      → Delivered netascii s.block s.reader.ahead net net'
  unfolding send_error
  refused-Delivered code msg fresh net' sent notices none_complete =
      elim (Bool-cases (env.writable net.replies)) [
        | inl e ↦
            none-Delivered netascii s.block s.reader.ahead net net' (encode_error code msg ∷ [])
              fresh (sent ∙ rw e refl) notices (receive-encode_error s.block code msg) none_complete
        | inr e ↦
            none-Delivered netascii s.block s.reader.ahead net net' [] fresh
              (sent ∙ rw e (sym (append-nil net.sent))) notices (unfold receive in refl)
              none_complete
      ]

  pub send_error_notices :
      (code : ℕ) (msg : Bytes) → (send_error env code msg net).notices ≡ net.notices
  unfolding send_error
  send_error_notices code msg = ground arith

  on_read-TurnDelivered :
      (o : Option (Bytes × Reader))
      → read_full blksize s.reader ≡ o
      → TurnDelivered netascii blksize s net
          (on_read env max_retries blksize netascii file_size s net o)
  on_read-TurnDelivered none r =
      unfold on_read in
      refused-Delivered err_not_defined (codes "read error") [] _ refl
        (send_error_notices _ _ ∙ sym (append-nil net.notices)) refl
  on_read-TurnDelivered (some (chunk, rest)) r =
      let (ahead, short, all, _) = read_full-some blksize s.reader rest chunk r in
      unfold on_read in
      on_answer-TurnDelivered chunk rest ahead short all
        (send_and_wait_ack env max_retries _ s.block net)
        (send_and_wait_ack-Waited env max_retries _ s.block net)

  pub download_turn-TurnDelivered :
      TurnDelivered netascii blksize s net
        (download_turn env max_retries blksize netascii file_size s net)
  unfolding download_turn
  download_turn-TurnDelivered = elim (Bool-cases (env.cancelled net.replies)) [
    | inl e ↦ rw e (
        none-Delivered netascii s.block s.reader.ahead net net [] [] (sym (append-nil net.sent))
          (sym (append-nil net.notices)) (unfold receive in refl) refl)
    | inr e ↦ rw e (on_read-TurnDelivered (read_full blksize s.reader) refl)
  ]
