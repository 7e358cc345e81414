-- ===== src/Tftp/Options.antt =====
-- internal/tftp/session.go: `negotiateOptions`. The options of a request are tried in turn, each on
-- its own: one that is missing, malformed or out of range leaves the defaults as they are.
pub mod Agreement
use do_daemon.Prelude.{
  Bool, Bytes, List, Option, [], atoi, codes, if◌then◌else◌, itoa, leb, ltb, negsuc, none, pos,
  some, ℕ, ℤ, ◌&&◌, ◌++◌, ◌==◌, ◌>>=◌, ◌∷◌,
}
use do_daemon.Tftp.Packet.{Options, get_option}

-- What the server takes of `config.TFTPConfig`.
pub record TftpConfig : Type 0 where
  pub enabled : Bool
  pub listen : Bytes
  pub root_dir : Bytes
  pub allow_read : Bool
  pub allow_write : Bool
  pub max_blksize : ℤ
  pub timeout_sec : ℤ
  pub max_retries : ℤ

-- `timeout` in seconds. `tsize` is `nil` unless the client asked for it; a size is not negative.
pub record Negotiated : Type 0 where
  pub blksize : ℕ
  pub timeout : ℤ
  pub tsize : Option ℕ
  pub oack_kv : List Bytes

abbrev pub default_blksize : ℕ
default_blksize = 512

abbrev pub blksize_name : Bytes
blksize_name = codes "blksize"

abbrev pub timeout_name : Bytes
timeout_name = codes "timeout"

abbrev pub tsize_name : Bytes
tsize_name = codes "tsize"

abbrev within : ℕ → ℕ → ℤ → Option ℕ
within lo hi (pos n) = if leb lo n && leb n hi then some n else none
within lo hi (negsuc n) = none

-- `if s.cfg.MaxBlksize > 0 && bs > s.cfg.MaxBlksize { bs = s.cfg.MaxBlksize }`
unfoldable pub clamp_blksize : ℤ → ℕ → ℕ
clamp_blksize (pos m) bs = if ltb 0 m && ltb m bs then m else bs
clamp_blksize (negsuc m) bs = bs

unfoldable pub accept_blksize : TftpConfig → Options → Option ℕ
unfolding clamp_blksize
accept_blksize cfg options = do
  v ← get_option blksize_name options
  i ← atoi v
  bs ← within 8 65464 i
  some (clamp_blksize cfg.max_blksize bs)

unfoldable pub accept_timeout : Options → Option ℕ
accept_timeout options = do v ← get_option timeout_name options; i ← atoi v; within 1 255 i

abbrev pub parsed_size : Option ℤ → ℕ → ℕ
parsed_size (some (pos n)) size = n
parsed_size _ size = size

unfoldable pub answer_tsize : Options → ℕ → Option ℕ
answer_tsize options file_size = do
  v ← get_option tsize_name options
  some (if file_size == 0 then parsed_size (atoi v) file_size else file_size)

unfoldable pub take_blksize : Option ℕ → Negotiated → Negotiated
take_blksize none n = n
take_blksize (some bs) n = record n {
  blksize = bs;
  oack_kv = n.oack_kv ++ (blksize_name ∷ itoa bs ∷ []);
}

unfoldable pub take_timeout : Option ℕ → Negotiated → Negotiated
take_timeout none n = n
take_timeout (some t) n = record n {
  timeout = pos t;
  oack_kv = n.oack_kv ++ (timeout_name ∷ itoa t ∷ []);
}

unfoldable pub take_tsize : Option ℕ → Negotiated → Negotiated
take_tsize none n = n
take_tsize (some size) n = record n {
  tsize = some size;
  oack_kv = n.oack_kv ++ (tsize_name ∷ itoa size ∷ []);
}

unfoldable pub negotiate_options : TftpConfig → Options → ℕ → Negotiated
unfolding accept_blksize accept_timeout answer_tsize take_blksize take_timeout take_tsize
negotiate_options cfg options file_size = take_tsize (answer_tsize options file_size) (
    take_timeout (accept_timeout options) (
      take_blksize (accept_blksize cfg options) (record {
        blksize = default_blksize;
        timeout = cfg.timeout_sec;
        tsize = none;
        oack_kv = [];
      })))
