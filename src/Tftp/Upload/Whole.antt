-- ===== src/Tftp/Upload/Whole.antt =====
-- An upload from the request on.
use do_daemon.Prelude.{
  Bool, Bytes, List, [], arith, false, length, pos, refl, some, suc, true, ℕ, ◌++◌, ◌+◌, ◌<◌, ◌>>=◌,
  ◌∙◌, ◌∷◌, ◌≡◌, ◌≤◌,
}
use do_daemon.Tftp.Link.{Env, Net, Notice, Reply, publish, upload_complete, upload_started, write}
use do_daemon.Tftp.Upload.{greeting, handle_wrq, receive_file, start_receiving}
use do_daemon.Tftp.Download.{or_zero}
use do_daemon.Tftp.Options.{Negotiated, TftpConfig, negotiate_options}
use do_daemon.Tftp.Packet.{Options}
use do_daemon.Tftp.Upload.Stored.{Completes, Sends, decoded_file, upload_loop-Completes}
use do_daemon.Tftp.Download.Whole.{blksize_pos}

module _ (env : Env) (cfg : TftpConfig) (options : Options) (netascii : Bool) (net : Net)
    (content : Bytes) (m : ℕ) where
  receive_file-Completes :
      (n : Negotiated)
      → ((rs : List Reply) → env.cancelled rs ≡ false)
      → ((written : Bytes) → length content + 1 ≤ env.room written)
      → 0 < n.blksize
      → Sends n.blksize 1 content net.replies
      → Completes env n.blksize
          (or_zero n.tsize)
          netascii
          (receive_file env n netascii net)
          (decoded_file netascii false content)
  unfolding receive_file
  receive_file-Completes n live room pos_blksize sends =
      let net1 : Net = publish (upload_started n.blksize) net in
      upload_loop-Completes env n.blksize (or_zero n.tsize) netascii live pos_blksize n.oack_kv
        (suc (length net.replies)) (start_receiving env net1) (write env (greeting n.oack_kv) net1)
        [] sends refl (ground arith) (omega arith) room (omega arith)

  -- An upload that the server allows, of a file for which the disk has room, from a client that
  -- sends every block in its turn, and before it any number of DATA packets of other blocks: it is
  -- reported complete, and the file on disk is the one sent, decoded in netascii mode.
  pub handle_wrq-Completes :
      ((rs : List Reply) → env.cancelled rs ≡ false)
      → ((written : Bytes) → length content + 1 ≤ env.room written)
      → cfg.allow_write ≡ true
      → cfg.max_blksize ≡ pos m
      → 0 < m
      → Sends (negotiate_options cfg options 0).blksize 1 content net.replies
      → (net' : Net) × (ns : List Notice) × (handle_wrq env cfg options netascii true net
          ≡ some (net', some (decoded_file netascii false content)))
        × (net'.notices ≡ ns ++ (upload_complete ∷ []))
  handle_wrq-Completes live room allowed max pos_max sends =
      let n = negotiate_options cfg options 0 in
      let r = receive_file-Completes n live room (blksize_pos cfg options 0 m max pos_max) sends in
      (r.0, r.1, handle_wrq_allowed allowed ∙ rw r.2 refl, r.3)
    where
      handle_wrq_allowed :
          cfg.allow_write ≡ true
          → handle_wrq env cfg options netascii true net ≡ (
              receive_file env (negotiate_options cfg options 0) netascii net >>= λ r.
              some (r.0, some r.1))
      handle_wrq_allowed e = unfold handle_wrq in simp e
