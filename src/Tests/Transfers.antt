-- ===== src/Tests/Transfers.antt =====
-- Transfers with block size 8 and the loss of a packet.
use mathlib.Core.Path.{subst}
use do_daemon.Prelude.{
  Bytes, List, [], arith, atoi, codes, drop, false, if◌then◌else◌, int_limit, length, ltb, min,
  none, pos, refl, some, sym, take, true, ℕ, ◌*◌, ◌++◌, ◌<◌, ◌↔◌, ◌∷◌, ◌≡◌, ◌⊎◌,
}
use do_daemon.Paths.{Elements, abs, missing, present}
use do_daemon.Tftp.Link.{
  Env, Net, Notice, arrived, rounds, send_and_wait_ack, timed_out, upload_complete, upload_started,
}
use do_daemon.Tftp.Packet.{
  Options, Request, encode_ack, encode_data, get_option, op_wrq, parse_data, read_options,
}
use do_daemon.Tftp.Upload.Stored.{Sends, last, more, stale}
use do_daemon.Tftp.Download.{Reader, handle_rrq, next_block}
use do_daemon.Tftp.Options.{TftpConfig, default_blksize, negotiate_options}
use do_daemon.Tftp.Upload.{handle_wrq}
use do_daemon.Tftp.Link.Acks.{Answered, send_and_wait_ack-Answered}
use do_daemon.Tftp.Options.Agreement.{
  Asks, client_blksize, client_blksize-negotiate_options, client_tsize, negotiate_options-blksize,
}
use do_daemon.Tftp.Upload.Whole.{handle_wrq-Completes}
use do_daemon.Tftp.Download.Whole.{handle_rrq-Delivered}
use do_daemon.Tftp.Download.Delivery.{Delivered}
use do_daemon.Tftp.Session.{Disk, handle_session}
use do_daemon.Tftp.Session.Confined.{handle_session-IsBelow}
use do_daemon.Paths.Confined.{IsBelow}

abbrev steady : Env
steady = record {
  cancelled = λ _. false;
  writable = λ _. true;
  now = λ rs. 1000 * length rs;
  room = λ _. 4096;
}

abbrev lab : TftpConfig
lab = record {
  enabled = true;
  listen = codes "0.0.0.0:69";
  root_dir = codes "/srv/tftp";
  allow_read = true;
  allow_write = true;
  max_blksize = pos 1024;
  timeout_sec = pos 3;
  max_retries = pos 5;
}

abbrev asks_eight : Options
asks_eight = (codes "blksize", codes "8") ∷ []

abbrev hello : Bytes
hello = codes "hello, world"

abbrev hello_file : Reader
hello_file = record { ahead = hello; is_broken = false; stat_size = some 12 }

abbrev acks_after_a_loss : Net
acks_after_a_loss = record {
  replies =
      timed_out
      ∷ arrived (encode_ack 0)
      ∷ arrived (encode_ack 1)
      ∷ timed_out
      ∷ arrived (encode_ack 2)
      ∷ [];
  sent = [];
  notices = [];
}

handle_rrq-Delivered_example :
    (net' : Net) × (handle_rrq steady lab asks_eight true (some hello_file) acks_after_a_loss
      ≡ some net')
    × Delivered true 1 hello acks_after_a_loss net'
handle_rrq-Delivered_example =
    handle_rrq-Delivered steady lab asks_eight true hello_file 1024 refl (omega arith)
      acks_after_a_loss refl

abbrev uploaded : Net
uploaded = record {
  replies =
      arrived (encode_data 1 (take 8 hello))
      ∷ arrived (encode_data 1 (take 8 hello))
      ∷ arrived (encode_data 2 (drop 8 hello))
      ∷ [];
  sent = [];
  notices = [];
}

eight_is_agreed : (negotiate_options lab asks_eight 0).blksize ≡ 8
unfolding negotiate_options get_option atoi int_limit
eight_is_agreed = refl

hello_in_order : Sends 8 1 hello uploaded.replies
unfolding next_block
hello_in_order =
    more (omega arith) (stale 1 (take 8 hello) (omega arith) (omega arith) (last (omega arith)))

hello_is_sent : Sends (negotiate_options lab asks_eight 0).blksize 1 hello uploaded.replies
hello_is_sent = subst (λ b. Sends b 1 hello uploaded.replies) (sym eight_is_agreed) hello_in_order

handle_wrq-Completes_example :
    (net' : Net) × (ns : List Notice) × (handle_wrq steady lab asks_eight false true uploaded
      ≡ some (net', some hello))
    × (net'.notices ≡ ns ++ (upload_complete ∷ []))
handle_wrq-Completes_example =
    handle_wrq-Completes steady lab asks_eight false uploaded hello 1024 (λ _. refl)
      (λ _. omega arith) refl refl (omega arith) hello_is_sent

send_and_wait_ack-Answered_example :
    ((send_and_wait_ack steady (pos 5) (encode_data 1 hello) 0 acks_after_a_loss).0 ≡ true)
    ↔ Answered (rounds (pos 5)) 0 acks_after_a_loss.replies
send_and_wait_ack-Answered_example =
    send_and_wait_ack-Answered steady (λ _. refl) (encode_data 1 hello) 0 (pos 5) acks_after_a_loss

small : 12 < int_limit
unfolding int_limit
small = omega arith

client_blksize-negotiate_options_example :
    (client_blksize (read_options (negotiate_options lab asks_eight 12).oack_kv [])
      ≡ some (negotiate_options lab asks_eight 12).blksize)
    × (client_tsize (read_options (negotiate_options lab asks_eight 12).oack_kv [])
        ≡ (negotiate_options lab asks_eight 12).tsize)
client_blksize-negotiate_options_example =
    client_blksize-negotiate_options lab asks_eight 12 1024 refl (omega arith) small

negotiate_options-blksize_example :
    ((i : ℕ) × Asks asks_eight i × ((negotiate_options lab asks_eight 12).blksize ≡ min i 1024))
    ⊎ (((i : ℕ) → ¬ Asks asks_eight i)
        × ((negotiate_options lab asks_eight 12).blksize ≡ default_blksize))
negotiate_options-blksize_example =
    negotiate_options-blksize lab asks_eight 12 1024 refl (omega arith)

abbrev bare_disk : Disk
bare_disk = record {
  files = record {
    lstat = λ p. if ltb (length p) 3 then present else missing;
    eval_symlinks = λ p. some p;
  };
  cwd = none;
  opened = λ p. none;
  creatable = λ p. true;
}

abbrev put_b : Request
put_b = record { op = op_wrq; filename = codes "a/../b"; mode = codes "Octet"; options = [] }

abbrev one_block : Net
one_block = record { replies = arrived (encode_data 1 hello) ∷ []; sent = []; notices = [] }

abbrev when_stored : Net
when_stored = record {
  replies = [];
  sent = encode_ack 0 ∷ encode_ack 1 ∷ [];
  notices = upload_started 512 ∷ upload_complete ∷ [];
}

abbrev path_of_b : Elements
path_of_b = codes "srv" ∷ codes "tftp" ∷ codes "b" ∷ []

b_is_stored :
    handle_session steady lab bare_disk true put_b one_block
    ≡ some (when_stored, some (path_of_b, some hello))
unfolding handle_session get_option parse_data encode_data negotiate_options
b_is_stored = refl

handle_session-IsBelow_example :
    (abs_root : Elements) × ((abs none (codes "/srv/tftp") ≡ some abs_root)
      × IsBelow bare_disk.files abs_root path_of_b)
handle_session-IsBelow_example =
    handle_session-IsBelow steady lab bare_disk true put_b one_block when_stored path_of_b
      (some hello) b_is_stored
