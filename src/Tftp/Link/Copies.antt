-- ===== src/Tftp/Link/Copies.antt =====
-- What `sendAndWaitACK` sends: the one packet, again and again.
use do_daemon.Prelude.{
  Bool, Bool-cases, Bytes, List, [], append-nil, append_assoc, arith, false, inl, inr, refl, suc,
  sym, true, zero, ℕ, ℤ, ◌++◌, ◌<◌, ◌∙◌, ◌∷◌, ◌≡◌, ◌≤◌,
}
use do_daemon.Tftp.Link.{
  Env, Net, Verdict-cases, judge, later_replies, next_reply, rounds, send_and_wait_ack, wait_loop,
}

abbrev pub copies : ℕ → Bytes → List Bytes
copies zero pkt = []
copies (suc n) pkt = pkt ∷ copies n pkt

-- The call sends `n` copies of the packet, no more than the attempts allow, and publishes nothing.
pub record Waited (attempts : ℕ) (pkt : Bytes) (net : Net) (r : Bool × Net) : Type 0 where
  pub count : ℕ
  pub few : count ≤ attempts
  pub sent_copies : r.1.sent ≡ net.sent ++ copies count pkt
  pub notices_same : r.1.notices ≡ net.notices
  pub sent_once : r.0 ≡ true → 0 < count

pub wait_loop-Waited :
    (env : Env) (attempts : ℕ) (pkt : Bytes) (want : ℕ) (net : Net)
    → Waited attempts pkt net (wait_loop env attempts pkt want net)
unfolding wait_loop
wait_loop-Waited env zero pkt want net = record {
  count = 0;
  few = omega arith;
  sent_copies = sym (append-nil net.sent);
  notices_same = refl;
  sent_once = λ e. cc;
}
wait_loop-Waited env (suc attempts) pkt want net = elim (Bool-cases (env.writable net.replies)) [
  | inr e ↦
      rw (e, wait_loop)
        (record {
          count = 0;
          few = omega arith;
          sent_copies = sym (append-nil net.sent);
          notices_same = refl;
          sent_once = λ x. cc;
        })
  | inl e ↦ elim (Verdict-cases (judge want (next_reply net.replies))) [
    | inl v ↦ rw (e, v, wait_loop) (once true)
    | inr (inl v) ↦ rw (e, v, wait_loop) (more (wait_loop-Waited env attempts pkt want _))
    | inr (inr v) ↦ rw (e, v, wait_loop) (once false)
  ]
]
  where
    once :
        (b : Bool)
        → Waited (suc attempts) pkt net (
          b,
          record {
            replies = later_replies net.replies;
            sent = net.sent ++ (pkt ∷ []);
            notices = net.notices;
          },
        )
    once b = record {
      count = 1;
      few = omega arith;
      sent_copies = refl;
      notices_same = refl;
      sent_once = λ _. omega arith;
    }

    more :
        {r : Bool × Net}
        → Waited attempts pkt
            (record {
              replies = later_replies net.replies;
              sent = net.sent ++ (pkt ∷ []);
              notices = net.notices;
            })
            r
        → Waited (suc attempts) pkt net r
    more w = record {
      count = suc w.count;
      few = omega (arith, w.few);
      sent_copies = w.sent_copies ∙ append_assoc net.sent (pkt ∷ []) (copies w.count pkt);
      notices_same = w.notices_same;
      sent_once = λ _. omega arith;
    }

pub send_and_wait_ack-Waited :
    (env : Env) (max_retries : ℤ) (pkt : Bytes) (want : ℕ) (net : Net)
    → Waited (rounds max_retries) pkt net (send_and_wait_ack env max_retries pkt want net)
unfolding send_and_wait_ack
send_and_wait_ack-Waited env max_retries pkt want net =
    wait_loop-Waited env (rounds max_retries) pkt want net
