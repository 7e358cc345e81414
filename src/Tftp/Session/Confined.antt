-- ===== src/Tftp/Session/Confined.antt =====
-- Where `handleSession` of internal/tftp/session.go writes.
use do_daemon.Prelude.{
  >>=-eq-some, Bool, Bool-cases, Bytes, Option, ap, codes, equal, inl, inr, not, some, sym, ◌&&◌,
  ◌==◌, ◌≡◌,
}
use do_daemon.Paths.{Elements, Joined, abs, escapes, failed, joined, safe_join}
use do_daemon.Tftp.Session.{Disk, blocked, dispatch, handle_session}
use do_daemon.Tftp.Link.{Env, Net}
use do_daemon.Tftp.Download.{handle_rrq}
use do_daemon.Tftp.Options.{TftpConfig}
use do_daemon.Tftp.Upload.{handle_wrq}
use do_daemon.Tftp.Packet.{Request, normalize_option_name, op_rrq, op_wrq}
use do_daemon.Paths.Confined.{IsBelow, safe_join-IsBelow}

-- What the handlers write goes to the path that they are given.
dispatch-written :
    (env : Env) (cfg : TftpConfig) (disk : Disk) (req : Request) (netascii : Bool) (path : Elements)
    (net net' : Net) (written : Elements) (file : Option Bytes)
    → dispatch env cfg disk req netascii path net ≡ some (net', some (written, file))
    → written ≡ path
unfolding dispatch
dispatch-written env cfg disk req netascii path net net' written file h =
    elim (Bool-cases (req.op == op_rrq)) [
      | inl r ↦
          let (n, _, is) =
            >>=-eq-some (handle_rrq env cfg req.options netascii (disk.opened path) net) _
              (rw (dispatch, r) at h) in
          cc
      | inr r ↦ elim (Bool-cases (req.op == op_wrq)) [
        | inl w ↦
            let (n, _, is) =
              >>=-eq-some (handle_wrq env cfg req.options netascii (disk.creatable path) net) _
                (rw (dispatch, r, w) at h) in
            cc
        | inr w ↦ cc (rw (dispatch, r, w) at h)
      ]
    ]

joined_only :
    (env : Env) (cfg : TftpConfig) (disk : Disk) (req : Request) (netascii : Bool) (net net' : Net)
    (written : Elements) (file : Option Bytes) (j : Joined)
    → elim j [
      | joined path ↦ dispatch env cfg disk req netascii path net
      | escapes ↦ blocked env net
      | failed ↦ blocked env net
    ]
      ≡ some (net', some (written, file))
    → j ≡ joined written
unfolding blocked
joined_only env cfg disk req netascii net net' written file (joined path) h =
    ap joined (sym (dispatch-written env cfg disk req netascii path net net' written file h))
joined_only env cfg disk req netascii net net' written file escapes h = cc
joined_only env cfg disk req netascii net net' written file failed h = cc

-- If a session writes a file, the root directory has an absolute path, and the file lies below it,
-- also when its links are resolved.
pub handle_session-IsBelow :
    (env : Env) (cfg : TftpConfig) (disk : Disk) (dialed : Bool) (req : Request) (net net' : Net)
    (written : Elements) (file : Option Bytes)
    → handle_session env cfg disk dialed req net ≡ some (net', some (written, file))
    → (abs_root : Elements) × ((abs disk.cwd cfg.root_dir ≡ some abs_root)
        × IsBelow disk.files abs_root written)
unfolding handle_session
handle_session-IsBelow env cfg disk dialed req net net' written file h =
    elim (Bool-cases (not dialed)) [
      | inl d ↦ cc (rw (handle_session, d) at h)
      | inr d ↦
          elim (Bool-cases (
            not (equal (normalize_option_name req.mode) (codes "netascii"))
            && not (equal (normalize_option_name req.mode) (codes "octet")))) [
              | inl m ↦ cc (rw (handle_session, d, m) at h)
              | inr m ↦ safe_join-IsBelow disk.files disk.cwd cfg.root_dir req.filename written (
                  joined_only env cfg disk req
                    (equal (normalize_option_name req.mode) (codes "netascii")) net net' written
                    file (safe_join disk.files disk.cwd cfg.root_dir req.filename)
                    (rw (handle_session, d, m) at h))
            ]
    ]
