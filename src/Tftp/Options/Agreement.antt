-- ===== src/Tftp/Options/Agreement.antt =====
-- The bounds of what is negotiated, and what the client reads in the OACK.
use do_daemon.Prelude.{
  Bool-cases, Bytes, Option, Option-cases, [], arith, atoi, atoi-itoa, atoi-lt, inl, inr, int_limit,
  itoa, leb, min, negsuc, none, pos, refl, some, some_inj, sym, ℕ, ℤ, ◌&&◌, ◌<◌, ◌∙◌, ◌≡◌, ◌≤◌, ◌⊎◌,
}
use do_daemon.Tftp.Packet.{Options, get_option, read_options}
use do_daemon.Tftp.Options.{
  Negotiated, TftpConfig, accept_blksize, accept_timeout, answer_tsize, blksize_name,
  default_blksize, negotiate_options, take_blksize, take_timeout, take_tsize, tsize_name,
}

abbrev pub number_value : Option ℤ → Option ℕ
number_value (some (pos n)) = some n
number_value _ = none

-- The block size that a client uses: the one that the OACK states, 512 if it states none. `none`
-- stands for an OACK that cannot be read.
pub read_blksize : Option Bytes → Option ℕ
read_blksize none = some default_blksize
read_blksize (some v) = number_value (atoi v)

pub read_tsize : Option Bytes → Option ℕ
read_tsize none = none
read_tsize (some v) = number_value (atoi v)

abbrev pub client_blksize : Options → Option ℕ
client_blksize m = read_blksize (get_option blksize_name m)

-- The size that an OACK states, if it states one.
abbrev pub client_tsize : Options → Option ℕ
client_tsize m = read_tsize (get_option tsize_name m)

-- A block size that the client asks for and that RFC 2348 allows.
abbrev pub Asks : Options → ℕ → Type 0
Asks options i =
    (v : Bytes) × (get_option blksize_name options ≡ some v)
    × (atoi v ≡ some (pos i))
    × (8 ≤ i)
    × (i ≤ 65464)

Asks-unique :
    (options : Options) (i : ℕ) (v : Bytes) (j : ℤ)
    → get_option blksize_name options ≡ some v
    → atoi v ≡ some j
    → Asks options i
    → j ≡ pos i
Asks-unique options i v j g a (w, g', a', _, _) = cc

-- What `strconv.Atoi` and the range test make of the value offered.
accept_blksize-Asks :
    (cfg : TftpConfig) (options : Options) (m : ℕ)
    → cfg.max_blksize ≡ pos m
    → 0 < m
    → ((i : ℕ) × Asks options i × (accept_blksize cfg options ≡ some (min i m)))
      ⊎ (((i : ℕ) → ¬ Asks options i) × (accept_blksize cfg options ≡ none))
unfolding accept_blksize
accept_blksize-Asks cfg options m e h = elim (Option-cases (get_option blksize_name options)) [
  | inl g ↦ inr (λ i a. cc (a.1), rw g refl)
  | inr (v, g) ↦ elim (Option-cases (atoi v)) [
    | inl a ↦ inr (λ i x. cc (x.1, x.2), rw (g, a) refl)
    | inr (negsuc k, a) ↦ inr (λ i x. cc (Asks-unique options i v (negsuc k) g a x), rw (g, a) refl)
    | inr (pos i, a) ↦ elim (Bool-cases (leb 8 i && leb i 65464)) [
      | inl ok ↦ inl (i, (v, g, a, ground arith, ground arith), rw (g, a, ok, e) (ground arith))
      | inr bad ↦ inr (
        λ j x.
            let same : i ≡ j = ground (arith, Asks-unique options j v (pos i) g a x) in
            ground (arith, x.3, x.4),
        rw (g, a, bad) refl,
      )
    ]
  ]
]

abbrev defaults : TftpConfig → Negotiated
defaults cfg = record {
  blksize = default_blksize;
  timeout = cfg.timeout_sec;
  tsize = none;
  oack_kv = [];
}

blksize_of :
    (b : Option ℕ) (t : Option ℕ) (s : Option ℕ) (n : Negotiated)
    → (take_tsize s (take_timeout t (take_blksize b n))).blksize
      ≡ elim b [ none ↦ n.blksize | some bs ↦ bs ]
unfolding take_tsize take_timeout take_blksize
blksize_of b t s n = ground arith

negotiate_options_lem :
    (cfg : TftpConfig) (options : Options) (file_size : ℕ)
    → negotiate_options cfg options file_size
      ≡ take_tsize (answer_tsize options file_size) (
          take_timeout
            (accept_timeout options)
            (take_blksize (accept_blksize cfg options) (defaults cfg)))
unfolding negotiate_options
negotiate_options_lem cfg options file_size = refl

tsize_of :
    (b t s : Option ℕ) (n : Negotiated)
    → (take_tsize s (take_timeout t (take_blksize b n))).tsize
      ≡ elim s [ none ↦ n.tsize | some size ↦ some size ]
unfolding take_tsize take_timeout take_blksize
tsize_of b t s n = ground arith

-- What the client reads, whichever options were accepted.
client_agrees_of :
    (b t s : Option ℕ) (n : Negotiated)
    → n.oack_kv ≡ []
    → let n' = take_tsize s (take_timeout t (take_blksize b n)) in
      (get_option blksize_name (read_options n'.oack_kv [])
        ≡ elim b [ none ↦ none | some v ↦ some (itoa v) ])
      × (get_option tsize_name (read_options n'.oack_kv [])
          ≡ elim s [ none ↦ none | some v ↦ some (itoa v) ])
unfolding take_tsize take_timeout take_blksize read_options get_option
client_agrees_of none none none n e = rw e (refl, refl)
client_agrees_of (some b) none none n e = rw e (refl, refl)
client_agrees_of none (some t) none n e = rw e (refl, refl)
client_agrees_of none none (some s) n e = rw e (refl, refl)
client_agrees_of (some b) (some t) none n e = rw e (refl, refl)
client_agrees_of (some b) none (some s) n e = rw e (refl, refl)
client_agrees_of none (some t) (some s) n e = rw e (refl, refl)
client_agrees_of (some b) (some t) (some s) n e = rw e (refl, refl)

-- With a configured maximum `m` the block size is the smaller of `m` and what the client asks for;
-- a client that asks for none, or for one that RFC 2348 does not allow, gets 512.
pub negotiate_options-blksize :
    (cfg : TftpConfig) (options : Options) (file_size m : ℕ)
    → cfg.max_blksize ≡ pos m
    → 0 < m
    → let n = negotiate_options cfg options file_size in
      ((i : ℕ) × Asks options i × (n.blksize ≡ min i m))
      ⊎ (((i : ℕ) → ¬ Asks options i) × (n.blksize ≡ default_blksize))
unfolding negotiate_options
negotiate_options-blksize cfg options file_size m e h =
    let blksize_is =
      blksize_of (accept_blksize cfg options) (accept_timeout options)
        (answer_tsize options file_size) (defaults cfg) in
    elim (accept_blksize-Asks cfg options m e h) [
      | inl (i, asks, a) ↦ inl (i, asks, rw (blksize_is, a) refl)
      | inr (none_asked, a) ↦ inr (none_asked, rw (blksize_is, a) refl)
    ]

accept_blksize-lt :
    (cfg : TftpConfig) (options : Options) (m : ℕ)
    → cfg.max_blksize ≡ pos m
    → 0 < m
    → (bs : ℕ) → accept_blksize cfg options ≡ some bs
    → bs < int_limit
accept_blksize-lt cfg options m e h bs a = elim (accept_blksize-Asks cfg options m e h) [
  | inl (i, asks, a') ↦ omega (arith, atoi-lt asks.0 i asks.2, some_inj (sym a ∙ a'))
  | inr (_, a') ↦ cc
]

answer_tsize-lt :
    (options : Options) (file_size : ℕ)
    → file_size < int_limit
    → (size : ℕ) → answer_tsize options file_size ≡ some size
    → size < int_limit
unfolding answer_tsize
answer_tsize-lt options file_size l size a = elim (Option-cases (get_option tsize_name options)) [
  | inl g ↦ cc (rw g at a)
  | inr (v, g) ↦ elim (Option-cases (atoi v)) [
    | inl x ↦ ground (arith, rw (g, x) at a)
    | inr (negsuc k, x) ↦ ground (arith, rw (g, x) at a)
    | inr (pos k, x) ↦ ground (arith, rw (g, x) at a, atoi-lt v k x)
  ]
]

-- The read values, from what was accepted.
blksize_read :
    (b : Option ℕ)
    → ((bs : ℕ) → b ≡ some bs → bs < int_limit)
    → read_blksize (elim b [ none ↦ none | some v ↦ some (itoa v) ])
      ≡ some (elim b [ none ↦ default_blksize | some bs ↦ bs ])
unfolding read_blksize
blksize_read none h = refl
blksize_read (some bs) h = rw (atoi-itoa bs (h bs refl)) refl

tsize_read :
    (s : Option ℕ)
    → ((n : ℕ) → s ≡ some n → n < int_limit)
    → read_tsize (elim s [ none ↦ none | some v ↦ some (itoa v) ])
      ≡ elim s [ none ↦ none | some n ↦ some n ]
unfolding read_tsize
tsize_read none h = refl
tsize_read (some n) h = rw (atoi-itoa n (h n refl)) refl

-- The client that reads the OACK has the block size that the server uses, and the size that the
-- server has noted, for a file size of an `int64` and a maximum of an `int`.
pub client_blksize-negotiate_options :
    (cfg : TftpConfig) (options : Options) (file_size m : ℕ)
    → cfg.max_blksize ≡ pos m
    → 0 < m
    → file_size < int_limit
    → let n = negotiate_options cfg options file_size in
      (client_blksize (read_options n.oack_kv []) ≡ some n.blksize)
      × (client_tsize (read_options n.oack_kv []) ≡ n.tsize)
client_blksize-negotiate_options cfg options file_size m e h l =
    let b = accept_blksize cfg options in
    let t = accept_timeout options in
    let s = answer_tsize options file_size in
    let read = client_agrees_of b t s (defaults cfg) refl in
    (
      rw (negotiate_options_lem cfg options file_size, read.0, blksize_of b t s (defaults cfg))
          (blksize_read b (accept_blksize-lt cfg options m e h)),
      rw (negotiate_options_lem cfg options file_size, read.1, tsize_of b t s (defaults cfg))
          (tsize_read s (answer_tsize-lt options file_size l)),
    )
