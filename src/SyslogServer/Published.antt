-- ===== src/SyslogServer/Published.antt =====
-- What the log server publishes.
use do_daemon.Prelude.{
  Bool-cases, Bytes, List, Option, Option-cases, [], ap, append-nil, append_assoc, arith,
  if◌then◌else◌, inl, inr, none, refl, some, some_inj, sym, take, ℕ, ◌++◌, ◌==◌, ◌>>=◌, ◌∙◌, ◌∷◌,
  ◌≡◌,
}
use do_daemon.Acl.{Acl, NetPackage, allowed}
use do_daemon.Config.{SyslogConfig, is_empty}
use do_daemon.Syslog.{Message, Parsed, Times, malformed, panicked, parse, parsed}
use do_daemon.SyslogServer.{
  Arrival, Listening, LogServer, Notice, accepted, crashed, datagram, delete_conn, find_conn,
  handle_line, handle_message, handle_parsed, hung_up, listening, new_server, notice_of, on_arrival,
  scanned, then_arrivals, udp_buffer,
}
use do_daemon.SyslogStore.{LogDisk, new_log}

abbrev pub parsed_notices : Parsed Message → Bytes → Option (List Notice)
parsed_notices (parsed m) remote = some (notice_of m remote ∷ [])
parsed_notices malformed remote = some []
parsed_notices panicked remote = none

-- What one line adds to the events, `none` where it ends the program.
abbrev pub line_notices : Times × Bytes × Bytes → Option (List Notice)
line_notices (times, line, remote) =
    if is_empty line then some [] else parsed_notices (parse times line remote) remote

abbrev pub given : Option (Times × Bytes × Bytes) → Option (List Notice)
given none = some []
given (some line) = line_notices line

abbrev pub published_by : {IpNet W : Type 0} → Listening (LogServer IpNet W) → Option (List Notice)
published_by (listening s) = some s.published
published_by crashed = none

abbrev pub behind : List Notice → Option (List Notice) → Option (List Notice)
behind before none = none
behind before (some more) = some (before ++ more)

abbrev pub line_from : Times → Bytes → Option Bytes → Option (Times × Bytes × Bytes)
line_from times line none = none
line_from times line (some remote) = some (times, line, remote)

module _ {Ip IpNet : Type 0} (p : NetPackage Ip IpNet) (acl : Acl IpNet) where
  -- The address of the connection that was last let in under this number, unless it ended since.
  -- The past has the latest arrival first.
  abbrev pub source : ℕ → List (Arrival Ip) → Option Bytes
  source id [] = none
  source id (datagram times ip remote bytes ∷ past) = source id past
  source id (scanned times n line ∷ past) = source id past
  source id (accepted n ip remote ∷ past) =
      let before = source id past in
      if allowed p acl ip then (if n == id then some remote else before) else before
  source id (hung_up n ∷ past) = let before = source id past in if n == id then none else before

  -- The line that is let in with an arrival.
  abbrev pub let_in : List (Arrival Ip) → Arrival Ip → Option (Times × Bytes × Bytes)
  let_in past (datagram times ip remote bytes) =
      if allowed p acl ip then some (times, take udp_buffer bytes, remote) else none
  let_in past (scanned times id line) = line_from times line (source id past)
  let_in past (accepted id ip remote) = none
  let_in past (hung_up id) = none

  -- The events of all lines that are let in, in their order; `none` where one of them ends the program.
  abbrev pub all_notices : List (Arrival Ip) → List (Arrival Ip) → Option (List Notice)
  all_notices past [] = some []
  all_notices past (a ∷ arrivals) =
      let rest = all_notices (a ∷ past) arrivals in
      do ns ← given (let_in past a); more ← rest; some (ns ++ more)

find_conn-delete_conn :
    (j k : ℕ) (m : List (ℕ × Bytes))
    → find_conn j (delete_conn k m) ≡ (if k == j then none else find_conn j m)
unfolding find_conn delete_conn
find_conn-delete_conn j k [] = ground arith
find_conn-delete_conn j k ((n, remote) ∷ m) = ground (arith, find_conn-delete_conn j k m)

behind-append :
    (before ns : List Notice) (r : Option (List Notice))
    → behind (before ++ ns) r ≡ behind before (do more ← r; some (ns ++ more))
behind-append before ns none = refl
behind-append before ns (some more) = ap some (append_assoc before ns more)

behind-nil : (r : Option (List Notice)) → behind [] r ≡ r
behind-nil none = refl
behind-nil (some more) = refl

module _ {IpNet W : Type 0} (P : Acl IpNet → List (ℕ × Bytes) → Type 0) where
  -- The program ends on both sides, or the server goes on with these events behind the earlier ones.
  abbrev Gives : List Notice → Listening (LogServer IpNet W) → Option (List Notice) → Type 0
  Gives before (listening t) (some ns) = (t.published ≡ before ++ ns) × P t.acl t.tcp_conns
  Gives before (listening t) none = ⊥
  Gives before crashed (some ns) = ⊥
  Gives before crashed none = Unit

  module _ (disk : LogDisk W) where
    handle_parsed-Gives :
        (result : Parsed Message) (remote : Bytes) (s : LogServer IpNet W)
        → P s.acl s.tcp_conns
        → Gives s.published (handle_parsed disk result remote s) (parsed_notices result remote)
    unfolding handle_message
    handle_parsed-Gives (parsed m) remote s h = (refl, h)
    handle_parsed-Gives malformed remote s h = (sym (append-nil s.published), h)
    handle_parsed-Gives panicked remote s h = tt

    handle_line-Gives :
        (times : Times) (line remote : Bytes) (s : LogServer IpNet W)
        → P s.acl s.tcp_conns
        → Gives s.published
            (handle_line disk times line remote s)
            (line_notices (times, line, remote))
    unfolding handle_line
    handle_line-Gives times line remote s h = elim (Bool-cases (is_empty line)) [
      | inl e ↦ rw e (sym (append-nil s.published), h)
      | inr n ↦ rw n (handle_parsed-Gives (parse times line remote) remote s h)
    ]

module _ {Ip IpNet W : Type 0} (disk : LogDisk W) (p : NetPackage Ip IpNet) (acl : Acl IpNet) where
  -- The table has the connections that were let in and have not ended.
  abbrev Knows : List (Arrival Ip) → Acl IpNet → List (ℕ × Bytes) → Type 0
  Knows past own conns = (own ≡ acl) × ((id : ℕ) → find_conn id conns ≡ source p acl id past)

  on_arrival-Gives :
      (a : Arrival Ip) (past : List (Arrival Ip)) (s : LogServer IpNet W)
      → Knows past s.acl s.tcp_conns
      → Gives (Knows (a ∷ past)) s.published (on_arrival disk p a s) (given (let_in p acl past a))
  unfolding on_arrival
  on_arrival-Gives (datagram times ip remote bytes) past s (own, known) =
      elim (Bool-cases (allowed p s.acl ip)) [
        | inl ok ↦
            let ok' = rw own at ok in
            rw (ok, ok')
              (handle_line-Gives (Knows (datagram times ip remote bytes ∷ past)) disk times
                (take udp_buffer bytes) remote s (own, known))
        | inr bad ↦
            let bad' = rw own at bad in rw (bad, bad') (sym (append-nil s.published), (own, known))
      ]
  on_arrival-Gives (accepted id ip remote) past s (own, known) =
      elim (Bool-cases (allowed p s.acl ip)) [
        | inl ok ↦
            let ok' = rw own at ok in
            rw (ok, ok')
              (
                sym (append-nil s.published),
                (
                  own,
                  λ j.
                      unfold find_conn in
                      ground (arith, find_conn-delete_conn j id s.tcp_conns, known j),
                ),
              )
        | inr bad ↦
            let bad' = rw own at bad in rw (bad, bad') (sym (append-nil s.published), (own, known))
      ]
  on_arrival-Gives (scanned times id line) past s (own, known) =
      elim (Option-cases (find_conn id s.tcp_conns)) [
        | inl n ↦
            let n' = sym (known id) ∙ n in
            rw (on_arrival, n, n') (sym (append-nil s.published), (own, known))
        | inr (remote, is) ↦
            let is' = sym (known id) ∙ is in
            rw (on_arrival, is, is')
              (handle_line-Gives (Knows (scanned times id line ∷ past)) disk times line remote s
                (own, known))
      ]
  on_arrival-Gives (hung_up id) past s (own, known) = (
    sym (append-nil s.published),
    (own, λ j. ground (arith, find_conn-delete_conn j id s.tcp_conns, known j)),
  )

  then_arrivals-crashed :
      (arrivals : List (Arrival Ip)) → then_arrivals disk p arrivals crashed ≡ crashed
  then_arrivals-crashed [] = refl
  then_arrivals-crashed (a ∷ arrivals) = refl

  then_arrivals-all :
      (arrivals past : List (Arrival Ip)) (s : LogServer IpNet W)
      → Knows past s.acl s.tcp_conns
      → published_by (then_arrivals disk p arrivals (listening s))
        ≡ behind s.published (all_notices p acl past arrivals)
  then_arrivals-all [] past s h = ap some (sym (append-nil s.published))
  then_arrivals-all (a ∷ arrivals) past s h =
      by (on_arrival disk p a s) (given (let_in p acl past a)) refl (on_arrival-Gives a past s h)
        (λ t. then_arrivals-all arrivals (a ∷ past) t)
    where
      by :
          (l : Listening (LogServer IpNet W)) (r : Option (List Notice))
          → given (let_in p acl past a) ≡ r
          → Gives (Knows (a ∷ past)) s.published l r
          → ((t : LogServer IpNet W)
              → Knows (a ∷ past) t.acl t.tcp_conns
              → published_by (then_arrivals disk p arrivals (listening t))
                ≡ behind t.published (all_notices p acl (a ∷ past) arrivals))
          → published_by (then_arrivals disk p arrivals l)
            ≡ behind s.published (all_notices p acl past (a ∷ arrivals))
      by (listening t) (some ns) e (adds, known) later = rw e (
          later t known
          ∙ (ap (λ before. behind before (all_notices p acl (a ∷ past) arrivals)) adds
              ∙ behind-append s.published ns (all_notices p acl (a ∷ past) arrivals)))
      by (listening t) none e g later = absurd g
      by crashed (some ns) e g later = absurd g
      by crashed none e g later = rw e (ap published_by (then_arrivals-crashed arrivals))

  -- What a new log server has published, whatever arrived and whatever became of the log file: the events
  -- of all lines that the access list let in, in datagrams and on connections that were accepted and
  -- have not ended, in the order in which they came. If a line of them makes the parser panic, the
  -- program has ended.
  pub then_arrivals-Published :
      (cfg : SyslogConfig) (w : W) (s : LogServer IpNet W) (arrivals : List (Arrival Ip))
      → new_server disk cfg acl w ≡ some s
      → published_by (then_arrivals disk p arrivals (listening s)) ≡ all_notices p acl [] arrivals
  unfolding new_server find_conn
  then_arrivals-Published cfg w s arrivals e = elim (Option-cases (new_log disk cfg w)) [
    | inl n ↦ let bad = rw n at e in cc
    | inr (store, is) ↦
        let same = some_inj (rw is at e) in
        then_arrivals-all arrivals [] s
          (sym (ap (λ t. t.acl) same), λ id. ap (λ t. find_conn id t.tcp_conns) (sym same))
        ∙ (ap (λ t. behind t.published (all_notices p acl [] arrivals)) (sym same)
            ∙ behind-nil (all_notices p acl [] arrivals))
  ]
