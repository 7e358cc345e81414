-- ===== src/Tftp/Upload.antt =====
-- internal/tftp/session.go: `handleWRQ`, an upload. The replies to come are a finite list, behind which
-- nothing arrives; the loop of the source has no bound of its own on blocks that are not expected.
pub mod Ends
pub mod Stored
pub mod Whole
use do_daemon.Prelude.{
  Bool, Bytes, List, Option, [], codes, false, if◌then◌else◌, length, ltb, none, not, some, suc,
  take, true, zero, ℕ, ◌%◌, ◌++◌, ◌+◌, ◌==◌, ◌>>=◌, ◌∷◌,
}
use do_daemon.Tftp.Link.{
  Env, Net, Reply, arrived, first_data_timed_out, later_replies, next_reply, publish,
  publish_progress, send_error, upload_aborted, upload_complete, upload_started, uploads_disabled,
  write, write_failed,
}
use do_daemon.Tftp.Options.{Negotiated, TftpConfig, negotiate_options}
use do_daemon.Tftp.Packet.{
  Options, encode_ack, encode_oack, err_access_violation, err_disk_full, err_illegal_operation,
  parse_data, parse_error,
}
use do_daemon.Tftp.Netascii.{from_netascii}
use do_daemon.Tftp.Download.{next_block, or_zero}

-- The variables of the loop.
pub record Receiving : Type 0 where
  pub expected : ℕ
  pub first : Bool
  pub carry_cr : Bool
  pub bytes_recv : ℕ
  pub last_progress : ℕ

-- What one turn comes to, with the bytes of the file so far.
pub data Outcome : Type 0 where
  finished : Net → Bytes → Outcome
  continued : Receiving → Net → Bytes → Outcome

-- What answers the request: the OACK, or the ACK of block 0.
unfoldable pub greeting : List Bytes → Bytes
greeting [] = encode_ack 0
greeting (kv ∷ kvs) = encode_oack (kv ∷ kvs)

-- `fromNetascii(data, carryCR)` in netascii mode; the payload and the carry as they are otherwise.
unfoldable pub decode_payload : Bool → Bytes → Bool → Bytes × Bool
decode_payload netascii payload carry_cr =
    if netascii then from_netascii payload carry_cr else (payload, carry_cr)

-- `ack(block)` and `publishProgress`: the network, and the time of the last progress report.
unfoldable pub acknowledge : Env → ℕ → Receiving → Bytes → Net → Net × ℕ
unfolding publish_progress
acknowledge env total s payload net =
    publish_progress env (s.bytes_recv + length payload) total s.last_progress
      (write env (encode_ack s.expected) net)

abbrev pub next_receiving : Receiving → Bytes → Bool → ℕ → Receiving
next_receiving s payload carry_cr last = record {
  expected = next_block s.expected;
  first = false;
  carry_cr = carry_cr;
  bytes_recv = s.bytes_recv + length payload;
  last_progress = last;
}

-- Behind `f.Write(out)`, which stores as much as the disk takes.
unfoldable pub store : Env → ℕ → ℕ → Receiving → Bytes → Bytes × Bool → Net → Bytes → Outcome
unfolding send_error acknowledge next_block
store env blksize total s payload decoded net file =
    let file' = file ++ take (env.room file) decoded.0 in
    if ltb (env.room file) (length decoded.0)
    then finished (publish write_failed (send_error env err_disk_full (codes "write error") net))
        file'
    else (let (net', last) = acknowledge env total s payload net in
        if ltb (length payload) blksize
        then finished (publish upload_complete net') file'
        else continued (next_receiving s payload decoded.1 last) net' file')

-- Behind `parseDATA`: a block that is not the one expected is answered by the last good one's ACK.
unfoldable pub on_data : Env → ℕ → ℕ → Bool → Receiving → ℕ × Bytes → Net → Bytes → Outcome
unfolding store decode_payload
on_data env blksize total netascii s (block, payload) net file =
    if block == s.expected
    then store env blksize total s payload (decode_payload netascii payload s.carry_cr) net file
    else continued (record s { first = false })
        (write env (encode_ack ((s.expected + 65535) % 65536)) net) file

unfoldable pub on_packet : Env → ℕ → ℕ → Bool → Receiving → Bytes → Net → Bytes → Outcome
unfolding on_data send_error
on_packet env blksize total netascii s b net file = elim (parse_data b) [
  | some d ↦ on_data env blksize total netascii s d net file
  | none ↦ elim (parse_error b) [
    | some e ↦ finished net file
    | none ↦ finished (send_error env err_illegal_operation (codes "expected DATA packet") net) file
  ]
]

-- Behind the second read of the first block.
unfoldable pub on_retry : Env → ℕ → ℕ → Bool → Receiving → Reply → Net → Bytes → Outcome
unfolding on_packet
on_retry env blksize total netascii s (arrived b) net file =
    on_packet env blksize total netascii s b net file
on_retry env blksize total netascii s _ net file = finished (publish first_data_timed_out net) file

-- A read that failed: before the first block the greeting is sent once more.
unfoldable pub on_silence : Env → ℕ → ℕ → Bool → List Bytes → Receiving → Net → Bytes → Outcome
unfolding on_retry greeting
on_silence env blksize total netascii kvs s net file =
    if s.first
    then (let net1 = write env (greeting kvs) net in
        on_retry env blksize total netascii s (next_reply net1.replies)
          (record net1 { replies = later_replies net1.replies }) file)
    else finished (publish upload_aborted net) file

unfoldable pub on_reply :
    Env → ℕ → ℕ → Bool → List Bytes → Receiving → Reply → Net → Bytes → Outcome
unfolding on_packet on_silence
on_reply env blksize total netascii kvs s (arrived b) net file =
    on_packet env blksize total netascii s b net file
on_reply env blksize total netascii kvs s _ net file =
    on_silence env blksize total netascii kvs s net file

unfoldable pub upload_turn : Env → ℕ → ℕ → Bool → List Bytes → Receiving → Net → Bytes → Outcome
unfolding on_reply
upload_turn env blksize total netascii kvs s net file =
    if env.cancelled net.replies
    then finished net file
    else on_reply env blksize total netascii kvs s (next_reply net.replies)
        (record net { replies = later_replies net.replies }) file

-- The loop, on fuel: a turn that does not end it has taken a reply. `none`: the fuel ran out.
unfoldable pub upload_loop :
    Env → ℕ → ℕ → Bool → List Bytes → ℕ → Receiving → Net → Bytes → Option (Net × Bytes)
unfolding upload_turn
upload_loop env blksize total netascii kvs zero s net file = none
upload_loop env blksize total netascii kvs (suc fuel) s net file =
    elim (upload_turn env blksize total netascii kvs s net file) [
      | finished net' file' ↦ some (net', file')
      | continued s' net' file' ↦ upload_loop env blksize total netascii kvs fuel s' net' file'
    ]

abbrev pub start_receiving : Env → Net → Receiving
start_receiving env net = record {
  expected = 1;
  first = true;
  carry_cr = false;
  bytes_recv = 0;
  last_progress = env.now net.replies;
}

unfoldable pub receive_file : Env → Negotiated → Bool → Net → Option (Net × Bytes)
unfolding upload_loop greeting
receive_file env n netascii net =
    let net1 = publish (upload_started n.blksize) net in
    let net2 = write env (greeting n.oack_kv) net1 in
    upload_loop env n.blksize (or_zero n.tsize) netascii n.oack_kv (suc (length net.replies))
      (start_receiving env net1) net2 []

-- `created` says whether `os.Create(path)`, which empties the file, succeeds. The file is `none`
-- where it was not touched.
unfoldable pub handle_wrq :
    Env → TftpConfig → Options → Bool → Bool → Net → Option (Net × Option Bytes)
unfolding receive_file send_error
handle_wrq env cfg options netascii created net =
    if not cfg.allow_write
    then some (
      publish uploads_disabled
          (send_error env err_access_violation (codes "uploads are disabled on this server") net),
      none,
    )
    else if not created
    then some (send_error env err_access_violation (codes "cannot create file") net, none)
    else (do
      r ← receive_file env (negotiate_options cfg options 0) netascii net
      some (r.0, some r.1))
