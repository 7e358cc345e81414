-- ===== src/Tftp/Session.antt =====
-- internal/tftp/session.go: `handleSession`, from a request to the handler of its kind.
pub mod Confined
use do_daemon.Prelude.{
  Bool, Bytes, Option, codes, equal, if◌then◌else◌, none, not, some, ◌&&◌, ◌==◌, ◌>>=◌,
}
use do_daemon.Tftp.Packet.{
  Request, err_access_violation, err_illegal_operation, normalize_option_name, op_rrq, op_wrq,
}
use do_daemon.Paths.{Elements, FileSystem, escapes, failed, joined, safe_join}
use do_daemon.Tftp.Link.{Env, Net, publish, send_error, traversal_blocked}
use do_daemon.Tftp.Download.{Reader, handle_rrq}
use do_daemon.Tftp.Options.{TftpConfig}
use do_daemon.Tftp.Upload.{handle_wrq}

-- What the disk holds: the files that can be opened, whether one can be created, and what the checks of
-- a path are made on.
pub record Disk : Type 0 where
  pub files : FileSystem
  pub cwd : Option Elements
  pub opened : Elements → Option Reader
  pub creatable : Elements → Bool

-- The network afterwards, and what was written, to which path.
abbrev pub Ended : Type 0
Ended = Option (Net × Option (Elements × Option Bytes))

-- The handlers, for a path that is within the root.
unfoldable pub dispatch : Env → TftpConfig → Disk → Request → Bool → Elements → Net → Ended
unfolding handle_rrq handle_wrq
dispatch env cfg disk req netascii path net =
    if req.op == op_rrq
    then (do
      net' ← handle_rrq env cfg req.options netascii (disk.opened path) net
      some (net', none))
    else if req.op == op_wrq
    then (do
      r ← handle_wrq env cfg req.options netascii (disk.creatable path) net
      some (r.0, some (path, r.1)))
    else some (net, none)

unfoldable pub blocked : Env → Net → Ended
unfolding send_error
blocked env net = some (
  publish traversal_blocked (send_error env err_access_violation (codes "access violation") net),
  none,
)

-- `dialed` says whether the session's socket could be opened.
unfoldable pub handle_session : Env → TftpConfig → Disk → Bool → Request → Net → Ended
unfolding dispatch blocked normalize_option_name safe_join
handle_session env cfg disk dialed req net =
    let mode = normalize_option_name req.mode in
    if not dialed
    then some (net, none)
    else if not (equal mode (codes "netascii")) && not (equal mode (codes "octet"))
    then some (send_error env err_illegal_operation (codes "unsupported mode") net, none)
    else elim (safe_join disk.files disk.cwd cfg.root_dir req.filename) [
      | joined path ↦ dispatch env cfg disk req (equal mode (codes "netascii")) path net
      | escapes ↦ blocked env net
      | failed ↦ blocked env net
    ]
