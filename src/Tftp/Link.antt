-- ===== src/Tftp/Link.antt =====
-- internal/tftp/session.go: a session's socket, what it publishes, and `sendAndWaitACK`.
pub mod Copies
pub mod Acks
use do_daemon.Prelude.{
  Bool, Bytes, List, [], false, if◌then◌else◌, inl, inr, ltb, negsuc, none, pos, refl, some, suc,
  take, true, zero, ℕ, ℤ, ◌++◌, ◌-◌, ◌==◌, ◌∷◌, ◌≡◌, ◌⊎◌,
}
use do_daemon.Tftp.Packet.{encode_error, parse_ack}

-- What `conn.Read` comes back with: a datagram, a deadline that passed, or another error.
pub data Reply : Type 0 where
  arrived : Bytes → Reply
  timed_out : Reply
  failed : Reply

-- The calls of `s.publish`, without the file's name.
pub data Notice : Type 0 where
  download_started : ℕ → Notice
  downloads_disabled : Notice
  file_not_found : Notice
  negotiation_timed_out : Notice
  download_aborted : ℕ → Notice
  download_complete : Notice
  uploads_disabled : Notice
  upload_started : ℕ → Notice
  first_data_timed_out : Notice
  upload_aborted : Notice
  write_failed : Notice
  upload_complete : Notice
  traversal_blocked : Notice
  progress : ℕ → ℕ → Notice

-- What the code asks of its surroundings, by the replies that are still to come: whether `ctx` is
-- done, whether `conn.Write` succeeds, the clock in milliseconds, and how many bytes more the disk
-- takes behind those that a file has.
pub record Env : Type 0 where
  pub cancelled : List Reply → Bool
  pub writable : List Reply → Bool
  pub now : List Reply → ℕ
  pub room : Bytes → ℕ

pub record Net : Type 0 where
  pub replies : List Reply
  pub sent : List Bytes
  pub notices : List Notice

abbrev pub publish : Notice → Net → Net
publish x net = record net { notices = net.notices ++ (x ∷ []) }

abbrev pub write : Env → Bytes → Net → Net
write env pkt net =
    if env.writable net.replies then record net { sent = net.sent ++ (pkt ∷ []) } else net

-- With no reply left to come, a read runs into its deadline.
abbrev pub next_reply : List Reply → Reply
next_reply [] = timed_out
next_reply (r ∷ rs) = r

abbrev pub later_replies : List Reply → List Reply
later_replies [] = []
later_replies (r ∷ rs) = rs

unfoldable pub send_error : Env → ℕ → Bytes → Net → Net
send_error env code msg net = write env (encode_error code msg) net

abbrev pub progress_interval : ℕ
progress_interval = 200

-- The network and `*last` afterwards.
unfoldable pub publish_progress : Env → ℕ → ℕ → ℕ → Net → Net × ℕ
publish_progress env count total last net =
    if ltb (env.now net.replies - last) progress_interval
    then (net, last)
    else (publish (progress count total) net, env.now net.replies)

pub data Verdict : Type 0 where
  acked again broken : Verdict

-- The buffer holds four bytes.
unfoldable pub judge : ℕ → Reply → Verdict
judge want timed_out = again
judge want failed = broken
judge want (arrived b) = elim (parse_ack (take 4 b)) [
  | none ↦ again
  | some block ↦ if block == want then acked else again
]

-- The loop, over the attempts that are left.
unfoldable pub wait_loop : Env → ℕ → Bytes → ℕ → Net → Bool × Net
unfolding judge
wait_loop env zero pkt want net = (false, net)
wait_loop env (suc attempts) pkt want net = elim (env.writable net.replies) [
  | false ↦ (false, net)
  | true ↦
      let net' : Net = record {
        replies = later_replies net.replies;
        sent = net.sent ++ (pkt ∷ []);
        notices = net.notices;
      } in
      elim (judge want (next_reply net.replies)) [
        | acked ↦ (true, net')
        | broken ↦ (false, net')
        | again ↦ wait_loop env attempts pkt want net'
      ]
]

abbrev pub rounds : ℤ → ℕ
rounds (pos n) = n
rounds (negsuc n) = 0

unfoldable pub send_and_wait_ack : Env → ℤ → Bytes → ℕ → Net → Bool × Net
unfolding wait_loop
send_and_wait_ack env max_retries pkt want net = wait_loop env (rounds max_retries) pkt want net

pub Verdict-cases : (v : Verdict) → (v ≡ acked) ⊎ (v ≡ again) ⊎ (v ≡ broken)
Verdict-cases acked = inl refl
Verdict-cases again = inr (inl refl)
Verdict-cases broken = inr (inr refl)
