-- ===== src/Tftp/Download.antt =====
-- internal/tftp/session.go: `handleRRQ`, a download.
pub mod Blocks
pub mod Delivery
pub mod Whole
use do_daemon.Prelude.{
  Bool, Bytes, List, Option, [], codes, drop, false, if◌then◌else◌, leb, length, ltb, none, not,
  some, suc, take, true, zero, ℕ, ℤ, ◌%◌, ◌+◌, ◌∷◌,
}
use do_daemon.Tftp.Packet.{
  Options, encode_data, encode_oack, err_access_violation, err_file_not_found, err_not_defined,
}
use do_daemon.Tftp.Netascii.{to_netascii}
use do_daemon.Tftp.Options.{TftpConfig, negotiate_options}
use do_daemon.Tftp.Link.{
  Env, Net, download_aborted, download_complete, download_started, downloads_disabled,
  file_not_found, negotiation_timed_out, publish, publish_progress, send_and_wait_ack, send_error,
}

-- An open file: the bytes ahead, whether reading past them fails instead of reaching the end, and
-- what `Stat` says of the size, if it says it.
pub record Reader : Type 0 where
  pub ahead : Bytes
  pub is_broken : Bool
  pub stat_size : Option ℕ

-- `io.ReadFull(reader, buf)` with a buffer of `n` bytes: the bytes read and the rest of the file. The
-- error is `none`; an end of file before or within the buffer is none.
unfoldable pub read_full : ℕ → Reader → Option (Bytes × Reader)
read_full n r =
    if leb n (length r.ahead)
    then some (take n r.ahead, record r { ahead = drop n r.ahead })
    else if r.is_broken
    then none
    else some (r.ahead, record r { ahead = [] })

-- `block++` on a uint16.
unfoldable pub next_block : ℕ → ℕ
next_block block = (block + 1) % 65536

unfoldable pub on_wire : Bool → Bytes → Bytes
on_wire netascii chunk = if netascii then to_netascii chunk else chunk

-- The variables of the loop.
pub record Sending : Type 0 where
  pub block : ℕ
  pub bytes_sent : ℕ
  pub last_progress : ℕ
  pub reader : Reader

-- What one turn comes to: the session is over, or it goes on with the next block.
pub data Turn : Type 0 where
  over : Net → Turn
  go_on : Sending → Net → Turn

-- Behind a block that was acknowledged.
unfoldable pub after_ack : Env → ℕ → ℕ → Sending → Bytes → Reader → Net → Turn
unfolding publish_progress next_block
after_ack env blksize file_size s chunk rest net =
    let bytes_sent = s.bytes_sent + length chunk in
    let (net', last) = publish_progress env bytes_sent file_size s.last_progress net in
    if ltb (length chunk) blksize
    then over (publish download_complete net')
    else go_on
        (record {
          block = next_block s.block;
          bytes_sent = bytes_sent;
          last_progress = last;
          reader = rest;
        })
        net'

-- Behind `sendAndWaitACK`.
unfoldable pub on_answer : Env → ℕ → ℕ → Sending → Bytes → Reader → Bool × Net → Turn
unfolding after_ack
on_answer env blksize file_size s chunk rest (true, net) =
    after_ack env blksize file_size s chunk rest net
on_answer env blksize file_size s chunk rest (false, net) =
    over (publish (download_aborted s.block) net)

unfoldable pub send_block : Env → ℤ → ℕ → Bool → ℕ → Sending → Bytes → Reader → Net → Turn
unfolding send_and_wait_ack on_answer on_wire
send_block env max_retries blksize netascii file_size s chunk rest net =
    on_answer env blksize file_size s chunk rest
      (send_and_wait_ack env max_retries (encode_data s.block (on_wire netascii chunk)) s.block net)

-- Behind `io.ReadFull`.
unfoldable pub on_read : Env → ℤ → ℕ → Bool → ℕ → Sending → Net → Option (Bytes × Reader) → Turn
unfolding send_block send_error
on_read env max_retries blksize netascii file_size s net none =
    over (send_error env err_not_defined (codes "read error") net)
on_read env max_retries blksize netascii file_size s net (some (chunk, rest)) =
    send_block env max_retries blksize netascii file_size s chunk rest net

unfoldable pub download_turn : Env → ℤ → ℕ → Bool → ℕ → Sending → Net → Turn
unfolding read_full on_read
download_turn env max_retries blksize netascii file_size s net =
    if env.cancelled net.replies
    then over net
    else on_read env max_retries blksize netascii file_size s net (read_full blksize s.reader)

-- The loop, on fuel: a turn that does not end it reads `blksize` bytes. `none`: the fuel ran out.
unfoldable pub download_loop : Env → ℤ → ℕ → Bool → ℕ → ℕ → Sending → Net → Option Net
unfolding download_turn
download_loop env max_retries blksize netascii file_size zero s net = none
download_loop env max_retries blksize netascii file_size (suc fuel) s net =
    elim (download_turn env max_retries blksize netascii file_size s net) [
      | over net' ↦ some net'
      | go_on s' net' ↦ download_loop env max_retries blksize netascii file_size fuel s' net'
    ]

abbrev pub or_zero : Option ℕ → ℕ
or_zero none = 0
or_zero (some n) = n

-- The loop from its start.
unfoldable pub send_file : Env → TftpConfig → Options → Bool → Reader → Net → Option Net
unfolding download_loop
send_file env cfg options netascii f net =
    let file_size = or_zero f.stat_size in
    download_loop env cfg.max_retries (negotiate_options cfg options file_size).blksize netascii
      file_size (suc (length f.ahead))
      (record { block = 1; bytes_sent = 0; last_progress = env.now net.replies; reader = f }) net

-- Behind the `sendAndWaitACK` of the OACK.
unfoldable pub on_oack : Env → TftpConfig → Options → Bool → Reader → Bool × Net → Option Net
unfolding send_file
on_oack env cfg options netascii f (true, net) = send_file env cfg options netascii f net
on_oack env cfg options netascii f (false, net) = some (publish negotiation_timed_out net)

-- `if len(n.oackKV) > 0`, and the loop.
unfoldable pub answer_options :
    Env → TftpConfig → Options → Bool → Reader → List Bytes → Net → Option Net
unfolding send_file on_oack
answer_options env cfg options netascii f [] net = send_file env cfg options netascii f net
answer_options env cfg options netascii f (kv ∷ kvs) net =
    on_oack env cfg options netascii f
      (send_and_wait_ack env cfg.max_retries (encode_oack (kv ∷ kvs)) 0 net)

-- From the negotiation on, with the file open.
unfoldable pub serve_file : Env → TftpConfig → Options → Bool → Reader → Net → Option Net
unfolding answer_options
serve_file env cfg options netascii f net =
    let n = negotiate_options cfg options (or_zero f.stat_size) in
    answer_options env cfg options netascii f n.oack_kv (publish (download_started n.blksize) net)

-- `opened` is what `os.Open(path)` comes back with.
unfoldable pub handle_rrq : Env → TftpConfig → Options → Bool → Option Reader → Net → Option Net
unfolding serve_file send_error
handle_rrq env cfg options netascii opened net =
    if not cfg.allow_read
    then some (
        publish downloads_disabled
          (send_error env err_access_violation (codes "downloads are disabled on this server") net))
    else elim opened [
      | none ↦
          some (
            publish file_not_found (send_error env err_file_not_found (codes "file not found") net))
      | some f ↦ serve_file env cfg options netascii f net
    ]
