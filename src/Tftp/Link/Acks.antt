-- ===== src/Tftp/Link/Acks.antt =====
-- When `sendAndWaitACK` reports success.
use do_daemon.Prelude.{
  All, Bytes, List, [], ap, arith, false, inl, inr, length, refl, some, suc, sym, take, true, zero,
  ℕ, ℤ, ◌++◌, ◌<◌, ◌↔◌, ◌∷◌, ◌≡◌, ◌≢◌,
}
use do_daemon.Tftp.Link.{
  Env, Net, Reply, Verdict-cases, acked, again, arrived, broken, failed, judge, later_replies,
  next_reply, rounds, send_and_wait_ack, timed_out, wait_loop,
}
use do_daemon.Tftp.Packet.{parse_ack}

-- A reply that the loop passes over: silence until the deadline, or a datagram whose first four bytes
-- are not the ACK wanted.
abbrev pub Stray : ℕ → Reply → Type 0
Stray want timed_out = Unit
Stray want failed = ⊥
Stray want (arrived b) = parse_ack (take 4 b) ≢ some want

judge-acked :
    (want : ℕ) (r : Reply)
    → judge want r ≡ acked
    → (b : Bytes) × (r ≡ arrived b) × (parse_ack (take 4 b) ≡ some want)
unfolding judge
judge-acked want timed_out h = cc
judge-acked want failed h = cc
judge-acked want (arrived b) h = (b, refl, ground arith)

judge-again : (want : ℕ) (r : Reply) → judge want r ≡ again → Stray want r
unfolding judge
judge-again want timed_out h = tt
judge-again want failed h = cc
judge-again want (arrived b) h = λ e. ground arith

judge_ack :
    (want : ℕ) (b : Bytes) → parse_ack (take 4 b) ≡ some want → judge want (arrived b) ≡ acked
unfolding judge
judge_ack want b e = ground arith

judge-Stray : (want : ℕ) (r : Reply) → Stray want r → judge want r ≡ again
unfolding judge
judge-Stray want timed_out s = refl
judge-Stray want failed s = absurd s
judge-Stray want (arrived b) s = ground arith

-- The replies begin with fewer than `attempts` strays, and then the ACK wanted.
pub record Answered (attempts want : ℕ) (replies : List Reply) : Type 0 where
  pub strays : List Reply
  pub ack : Bytes
  pub rest : List Reply
  pub all_stray : All (Stray want) strays
  pub few : length strays < attempts
  pub is_ack : parse_ack (take 4 ack) ≡ some want
  pub replies_is : replies ≡ strays ++ (arrived ack ∷ rest)

module _ (env : Env) (writable : (rs : List Reply) → env.writable rs ≡ true) (pkt : Bytes)
    (want : ℕ) where
  abbrev after_send : Net → Net
  after_send net = record {
    replies = later_replies net.replies;
    sent = net.sent ++ (pkt ∷ []);
    notices = net.notices;
  }

  wait_loop_lem :
      (attempts : ℕ) (net : Net)
      → wait_loop env (suc attempts) pkt want net ≡ elim (judge want (next_reply net.replies)) [
        | acked ↦ (true, after_send net)
        | broken ↦ (false, after_send net)
        | again ↦ wait_loop env attempts pkt want (after_send net)
      ]
  unfolding wait_loop
  wait_loop_lem attempts net = rw (writable net.replies, wait_loop) refl

  wait_zero : (net : Net) → (wait_loop env zero pkt want net).0 ≡ false
  unfolding wait_loop
  wait_zero net = refl

  not_silent : (xs ys : List Reply) (r : Reply) → xs ++ (r ∷ ys) ≢ []
  not_silent [] ys r e = cc
  not_silent (x ∷ xs) ys r e = cc

  first_answers :
      (attempts : ℕ) (rs : List Reply) (b : Bytes)
      → next_reply rs ≡ arrived b
      → parse_ack (take 4 b) ≡ some want
      → Answered (suc attempts) want rs
  first_answers attempts [] b e a = cc
  first_answers attempts (r ∷ rs) b e a = record {
    strays = [];
    ack = b;
    rest = rs;
    all_stray = tt;
    few = omega arith;
    is_ack = a;
    replies_is = ap (λ x. x ∷ rs) e;
  }

  later_answers :
      (attempts : ℕ) (rs : List Reply)
      → Stray want (next_reply rs)
      → Answered attempts want (later_replies rs)
      → Answered (suc attempts) want rs
  later_answers attempts [] s a =
      absurd (not_silent a.strays a.rest (arrived a.ack) (sym a.replies_is))
  later_answers attempts (r ∷ rs) s a = record {
    strays = r ∷ a.strays;
    ack = a.ack;
    rest = a.rest;
    all_stray = (s, a.all_stray);
    few = omega (arith, a.few);
    is_ack = a.is_ack;
    replies_is = ap (λ x. r ∷ x) a.replies_is;
  }

  wait_loop-Answered :
      (attempts : ℕ) (net : Net)
      → (wait_loop env attempts pkt want net).0 ≡ true
      → Answered attempts want net.replies
  wait_loop-Answered zero net h = cc (wait_zero net)
  wait_loop-Answered (suc attempts) net h =
      elim (Verdict-cases (judge want (next_reply net.replies))) [
        | inl v ↦
            let (b, is, a) = judge-acked want (next_reply net.replies) v in
            first_answers attempts net.replies b is a
        | inr (inl v) ↦
            later_answers attempts net.replies (judge-again want (next_reply net.replies) v) (
              wait_loop-Answered attempts (after_send net)
                (rw (wait_loop_lem attempts net, v) at h))
        | inr (inr v) ↦ cc (rw (wait_loop_lem attempts net, v) at h)
      ]

  Answered-wait_loop :
      (strays : List Reply) (attempts : ℕ) (net : Net) (ack : Bytes) (rest : List Reply)
      → All (Stray want) strays
      → length strays < attempts
      → parse_ack (take 4 ack) ≡ some want
      → net.replies ≡ strays ++ (arrived ack ∷ rest)
      → (wait_loop env attempts pkt want net).0 ≡ true
  Answered-wait_loop strays zero net ack rest s few a e = absurd (omega arith)
  Answered-wait_loop [] (suc attempts) net ack rest s few a e =
      rw (wait_loop_lem attempts net, e, judge_ack want ack a) refl
  Answered-wait_loop (r ∷ strays) (suc attempts) net ack rest s few a e =
      rw (wait_loop_lem attempts net, e, judge-Stray want r s.0)
        (Answered-wait_loop strays attempts (after_send net) ack rest s.1 (omega arith) a
          (ap later_replies e))

  -- With a socket that can be written to, the call reports success exactly when the replies begin
  -- with strays, fewer than the attempts, and then the ACK wanted.
  pub send_and_wait_ack-Answered :
      (max_retries : ℤ) (net : Net)
      → ((send_and_wait_ack env max_retries pkt want net).0 ≡ true)
        ↔ Answered (rounds max_retries) want net.replies
  unfolding send_and_wait_ack
  send_and_wait_ack-Answered max_retries net = (
    wait_loop-Answered (rounds max_retries) net,
    λ a.
        Answered-wait_loop a.strays (rounds max_retries) net a.ack a.rest a.all_stray a.few a.is_ack
          a.replies_is,
  )
