-- ===== src/Sftp/Session.antt =====
-- internal/sftp/session.go and internal/sftp/server.go: the requests of a session channel, the account
-- that a connection is given, who may connect, and the host key.
use do_daemon.Prelude.{
  Bool, Bytes, List, Option, [], codes, equal, if◌then◌else◌, length, ltb, map, none, some, take,
  true, ℕ, ◌&&◌, ◌*◌, ◌+◌, ◌>>=◌, ◌∷◌,
}
use do_daemon.Sftp.{user_of}
use do_daemon.Auth.{User, authenticate, new_store}
use do_daemon.Acl.{Acl, NetPackage, allowed}
use do_daemon.Config.{FtpUser}

-- The first four bytes of a payload as a number, big-endian, and what is behind them.
abbrev pub length_prefix : Bytes → Option (ℕ × Bytes)
length_prefix (a ∷ b ∷ c ∷ d ∷ rest) = some (((a * 256 + b) * 256 + c) * 256 + d, rest)
length_prefix _ = none

-- `subsystemName`, where an `int` has 64 bits.
unfoldable pub subsystem_name : Bytes → Bytes
subsystem_name payload = elim (length_prefix payload) [
  | none ↦ []
  | some (n, rest) ↦ if ltb (length payload) (4 + n) then [] else take n rest
]

-- `ssh.Request`
pub record ChannelRequest : Type 0 where
  pub kind : Bytes
  pub payload : Bytes
  pub want_reply : Bool

unfoldable pub is_sftp_request : ChannelRequest → Bool
unfolding subsystem_name
is_sftp_request req =
    equal req.kind (codes "subsystem") && equal (subsystem_name req.payload) (codes "sftp")

-- What `serveSession` has come to when the channel's requests have ended: it serves files, or it waits
-- for ever at `<-subsystemRequested`.
pub data Session : Type 0 where
  serving waiting : Session

unfoldable pub serve_session : List ChannelRequest → Session
unfolding is_sftp_request
serve_session [] = waiting
serve_session (req ∷ reqs) =
    let rest = serve_session reqs in if is_sftp_request req then serving else rest

-- `userByName`
unfoldable pub user_by_name : Bytes → List FtpUser → Option FtpUser
user_by_name name [] = none
user_by_name name (u ∷ us) = if equal u.username name then some u else user_by_name name us

-- `toAuthUsers`
abbrev pub to_auth_users : List FtpUser → List User
to_auth_users = map user_of

-- `PasswordCallback`, and `handleConn` up to its loop over the channels: the account whose files are
-- served, where the login succeeds.
unfoldable pub login : (Bytes → Bytes → Bool) → List FtpUser → Bytes → Bytes → Option FtpUser
unfolding authenticate user_by_name
login compare users name password =
    (authenticate compare (new_store (to_auth_users users) []) name password).0
    >>= (λ u. user_by_name name users)

module _ {Ip IpNet : Type 0} (p : NetPackage Ip IpNet)
    (split_host_port : Bytes → Option (Bytes × Bytes)) where
  abbrev pub host_of : Bytes → Option (Bytes × Bytes) → Bytes
  host_of addr none = addr
  host_of addr (some (host, port)) = host

  -- The test that follows `Accept`: whether the connection from an address is served.
  unfoldable pub is_admitted : Acl IpNet → Bytes → Bool
  is_admitted none addr = true
  is_admitted (some lists) addr = elim (p.parse_ip (host_of addr (split_host_port addr))) [
    | none ↦ true
    | some (ip, is_v4) ↦ allowed p (some lists) ip
  ]

-- What the host key needs of the disk and of the packages that make and read keys, over a world `W`.
pub record KeyHost (W : Type 0) (Key : Type 0) : Type 0 where
  pub join : Bytes → Bytes → Bytes
  pub read_file : Bytes → W → Option Bytes
  pub mkdir_all : Bytes → W → Bool × W
  pub write_file : Bytes → Bytes → W → Bool × W
  pub parse_private_key : Bytes → Option Key
  pub generate_key : W → Option Key × W
  pub encode : Key → Option Bytes

module _ {W Key : Type 0} (h : KeyHost W Key) where
  abbrev pub key_path : Bytes → Bytes
  key_path data_dir = h.join data_dir (codes "sftp_host_ed25519")

  abbrev pub stored_key : Bytes → W → Option Key
  stored_key data_dir w = do pem ← h.read_file (key_path data_dir) w; h.parse_private_key pem

  -- The new key that has been made is encoded and written.
  unfoldable pub save_key : Bytes → Key → W → Option Key × W
  save_key data_dir key w = elim (h.encode key) [
    | none ↦ (none, w)
    | some pem ↦
        let (made_dir, w') = h.mkdir_all data_dir w in
        if made_dir
        then (let (written, w'') = h.write_file (key_path data_dir) pem w' in
            (if written then some key else none, w''))
        else (none, w')
  ]

  abbrev pub save_generated : Bytes → Option Key × W → Option Key × W
  save_generated data_dir (none, w) = (none, w)
  save_generated data_dir (some key, w) = save_key data_dir key w

  -- `loadOrCreateHostKey`; `none` is an error.
  unfoldable pub load_or_create_host_key : Bytes → W → Option Key × W
  unfolding save_key
  load_or_create_host_key data_dir w = elim (stored_key data_dir w) [
    | some key ↦ (some key, w)
    | none ↦ save_generated data_dir (h.generate_key w)
  ]
