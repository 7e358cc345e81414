-- ===== src/Config/Validated.antt =====
-- internal/config/config.go: what a configuration that `Load` returns is known to satisfy.
use mathlib.Core.Path.{subst}
use do_daemon.Prelude.{
  All, Bool, Bool-cases, Bytes, List, Option, Option-cases, [], arith, codes, equal, false,
  if◌then◌else◌, inl, inr, int_lt, lt_int, negsuc, none, pos, refl, some, true, ℕ, ℤ, ◌+◌, ◌||◌,
  ◌∷◌, ◌≡◌, ◌≤◌, ◌⊎◌,
}
use do_daemon.Config.{
  Config, FtpConfig, FtpUser, Host, Problem, bad_port_range, checked, default_config, empty,
  empty_home_dir, empty_username, fail_if, first, fixed_hostname, is_bad_range, is_empty,
  is_outside, load, max_blksize_out_of_range, only_if, stop_or, timeout_sec_out_of_range,
  usable_root, validate, validate_cidr_list, validate_ftp, validate_limits, validate_listen_addr,
  validate_tftp, validate_tls_files, validate_users, with_hostname,
}
use do_daemon.Tftp.Options.{TftpConfig}

first-none : (a : Option Problem) {b : Option Problem} → first a b ≡ none → (a ≡ none) × (b ≡ none)
first-none none h = (refl, h)
first-none (some p) h = cc

fail_if-none : (b : Bool) (p : Problem) → fail_if b p ≡ none → b ≡ false
fail_if-none true p h = cc
fail_if-none false p h = refl

-- A check that is made only if a switch is on.
only_if-none : (b : Bool) {p : Option Problem} → only_if b p ≡ none → (b ≡ false) ⊎ (p ≡ none)
only_if-none true h = inr h
only_if-none false h = inl refl

-- An `int` in the range from `lo` to `hi`.
abbrev pub IsBetween : ℕ → ℕ → ℤ → Type 0
IsBetween lo hi i = (n : ℕ) × ((i ≡ pos n) × ((lo ≤ n) × (n ≤ hi)))

is_outside-IsBetween :
    (i : ℤ) (lo hi : ℕ) → (int_lt i lo || lt_int hi i) ≡ false → IsBetween lo hi i
is_outside-IsBetween (pos n) lo hi h = (n, (refl, (ground arith, ground arith)))
is_outside-IsBetween (negsuc n) lo hi h = cc

abbrev pub IsPortRange : ℤ × ℤ → Type 0
IsPortRange (lo, hi) =
    (m : ℕ) × (n : ℕ) × ((lo ≡ pos m) × ((hi ≡ pos n) × ((1 ≤ m) × ((m ≤ n) × (n ≤ 65535)))))

is_bad_range-IsPortRange : (lo hi : ℤ) → is_bad_range lo hi ≡ false → IsPortRange (lo, hi)
is_bad_range-IsPortRange (pos m) (pos n) h =
    (m, n, (refl, (refl, (ground arith, (ground arith, ground arith)))))
is_bad_range-IsPortRange (pos m) (negsuc n) h = ground arith
is_bad_range-IsPortRange (negsuc m) hi h = cc

abbrev pub IsNamed : FtpUser → Type 0
IsNamed u = (is_empty u.username ≡ false) × (is_empty u.home_dir ≡ false)

validate_users-IsNamed : (i : ℕ) (us : List FtpUser) → validate_users i us ≡ none → All IsNamed us
unfolding validate_users
validate_users-IsNamed i [] h = tt
validate_users-IsNamed i (u ∷ us) h =
    let (a, rest) = first-none (fail_if (is_empty u.username) (empty_username i)) h in
    let (b, more) = first-none (fail_if (is_empty u.home_dir) (empty_home_dir i)) rest in
    (
      (fail_if-none (is_empty u.username) _ a, fail_if-none (is_empty u.home_dir) _ b),
      validate_users-IsNamed (i + 1) us more,
    )

-- What the FTP server takes for granted.
abbrev pub IsServableFtp : FtpConfig → Type 0
IsServableFtp ftp =
    IsPortRange ftp.passive_port_range
    × (All IsNamed ftp.users
        × ((ftp.sftp_enabled ≡ false) ⊎ (equal ftp.sftp_listen ftp.listen ≡ false)))

-- What the TFTP server takes for granted.
abbrev pub IsServableTftp : TftpConfig → Type 0
IsServableTftp tftp =
    (is_empty tftp.root_dir ≡ false)
    × (IsBetween 8 65464 tftp.max_blksize
        × (IsBetween 1 255 tftp.timeout_sec × IsBetween 1 20 tftp.max_retries))

abbrev pub IsServable : Config → Type 0
IsServable c =
    (c.server.hostname ≡ fixed_hostname)
    × ((is_empty c.server.data_dir ≡ false)
        × (((c.ftp.enabled ≡ false) ⊎ IsServableFtp c.ftp)
            × ((c.tftp.enabled ≡ false) ⊎ IsServableTftp c.tftp)))

module _ {W : Type 0} (host : Host W) where
  validate_ftp-IsServableFtp :
      (ftp : FtpConfig) (w : W) → validate_ftp host ftp w ≡ none → IsServableFtp ftp
  unfolding validate_ftp
  validate_ftp-IsServableFtp ftp w h =
      let (_, h1) = first-none (validate_listen_addr host (codes "ftp.listen") ftp.listen) h in
      let (range, h2) =
        first-none
          (fail_if (is_bad_range ftp.passive_port_range.0 ftp.passive_port_range.1) bad_port_range)
          h1 in
      let (_, h3) =
        first-none (only_if ftp.tls.enabled (validate_tls_files host (codes "ftp.tls") ftp.tls w))
          h2 in
      let (users, h4) = first-none (validate_users 0 ftp.users) h3 in
      let (_, h5) =
        first-none (validate_cidr_list host (codes "ftp.ip_allowlist") ftp.ip_allowlist) h4 in
      (
        is_bad_range-IsPortRange _ _ (fail_if-none _ _ range),
        (
          validate_users-IsNamed 0 ftp.users users,
          elim (only_if-none ftp.sftp_enabled h5) [
            | inl off ↦ inl off
            | inr on ↦ inr (
                fail_if-none (equal ftp.sftp_listen ftp.listen) _
                  (first-none (validate_listen_addr host (codes "ftp.sftp_listen") ftp.sftp_listen)
                    on).1)
          ],
        ),
      )

  validate_limits_lem :
      (tftp : TftpConfig)
      → validate_limits host tftp ≡ none
      → IsBetween 8 65464 tftp.max_blksize
        × (IsBetween 1 255 tftp.timeout_sec × IsBetween 1 20 tftp.max_retries)
  unfolding validate_limits
  validate_limits_lem tftp h =
      let (a, h1) =
        first-none (fail_if (is_outside host tftp.max_blksize 8 65464) max_blksize_out_of_range)
          h in
      let (b, c) =
        first-none (fail_if (is_outside host tftp.timeout_sec 1 255) timeout_sec_out_of_range) h1 in
      (
        is_outside-IsBetween _ 8 65464 (fail_if-none _ _ a),
        (
          is_outside-IsBetween _ 1 255 (fail_if-none _ _ b),
          is_outside-IsBetween _ 1 20 (fail_if-none _ _ c),
        ),
      )

  stop_or-none :
      (a : Option Problem) (w : W) (rest : Option Problem × W)
      → (stop_or host a w rest).0 ≡ none
      → (a ≡ none) × (rest.0 ≡ none)
  stop_or-none none w rest h = (refl, h)
  stop_or-none (some p) w rest h = cc

  validate_tftp-IsServableTftp :
      (tftp : TftpConfig) (w : W) → (validate_tftp host tftp w).0 ≡ none → IsServableTftp tftp
  unfolding validate_tftp
  validate_tftp-IsServableTftp tftp w h =
      let (a, b) =
        stop_or-none
          (first (validate_listen_addr host (codes "tftp.listen") tftp.listen)
            (fail_if (is_empty tftp.root_dir) (empty (codes "tftp.root_dir"))))
          w _ h in
      let (_, root) = first-none (validate_listen_addr host (codes "tftp.listen") tftp.listen) a in
      let (_, limits) = first-none (usable_root host tftp.root_dir w).0 b in
      (fail_if-none (is_empty tftp.root_dir) _ root, validate_limits_lem tftp limits)

  tftp_part :
      (c : Config) (w : W)
      → (if c.tftp.enabled then validate_tftp host c.tftp w else (none, w)).0 ≡ none
      → (c.tftp.enabled ≡ false) ⊎ IsServableTftp c.tftp
  unfolding validate_tftp
  tftp_part c w h = elim (Bool-cases c.tftp.enabled) [
    | inl on ↦ inr (validate_tftp-IsServableTftp c.tftp w (rw on at h))
    | inr off ↦ inl off
  ]

  validate-IsServable :
      (c : Config) (w : W)
      → c.server.hostname ≡ fixed_hostname
      → (validate host c w).0 ≡ none
      → IsServable c
  unfolding validate
  validate-IsServable c w name h =
      let (a, b) =
        stop_or-none
          (first (fail_if (is_empty c.server.data_dir) (empty (codes "server.data_dir")))
            (only_if c.ftp.enabled (validate_ftp host c.ftp w)))
          w _ h in
      let (dir, ftp) =
        first-none (fail_if (is_empty c.server.data_dir) (empty (codes "server.data_dir"))) a in
      let (tftp, _) =
        first-none (if c.tftp.enabled then validate_tftp host c.tftp w else (none, w)).0 b in
      (
        name,
        (
          fail_if-none (is_empty c.server.data_dir) _ dir,
          (
            elim (only_if-none c.ftp.enabled ftp) [
              | inl off ↦ inl off
              | inr on ↦ inr (validate_ftp-IsServableFtp c.ftp w on)
            ],
            tftp_part c w tftp,
          ),
        ),
      )

  checked-inr :
      (c d : Config) (r : Option Problem × W) {w : W}
      → checked host c r ≡ (inr d, w)
      → (c ≡ d) × (r.0 ≡ none)
  checked-inr c d (none, w) h = (cc, refl)
  checked-inr c d (some p, w) h = cc

  -- A configuration that `Load` returns has the fixed host name and a data directory. If FTP is
  -- enabled its passive ports are a range within 1 to 65535, every user has a name and a home
  -- directory, and SFTP, if enabled, listens on another address. If TFTP is enabled it has a root
  -- directory, a block size limit from 8 to 65464, a timeout from 1 to 255 seconds and 1 to 20 retries.
  pub load-IsServable :
      (path : Bytes) (w : W) (c : Config) (w' : W) → load host path w ≡ (inr c, w') → IsServable c
  unfolding load
  load-IsServable path w c w' h = elim (Option-cases (host.read_file path w)) [
    | inl r ↦ cc (rw (load, r) at h)
    | inr (bytes, r) ↦ elim (Option-cases (host.unmarshal bytes default_config)) [
      | inl u ↦ cc (rw (load, r, u) at h)
      | inr (d, u) ↦
          let (same, ok) =
            checked-inr (with_hostname host d) c (validate host (with_hostname host d) w)
              (rw (load, r, u) at h) in
          subst IsServable same (validate-IsServable (with_hostname host d) w refl ok)
    ]
  ]
