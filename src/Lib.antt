-- ===== src/Lib.antt =====
-- DoDaemon: a verification of the core of an FTP, TFTP, syslog and web server.
--
-- The program. internal/server starts one server per protocol from the configuration of internal/config.
-- Every server asks internal/security whether an address may talk to it and where a path leads, and
-- internal/auth who a user is and what the user's letters allow; it reports what it does on the bus of
-- internal/eventbus, which the interfaces read. internal/tftp speaks TFTP itself; internal/ftp stands
-- between an FTP library and the disk; internal/webui keeps the sessions of its users.
--
-- The files.
-- - Prelude: shared names; bytes, lists, `int`s over the native numbers, `strconv.Atoi` and `Itoa`.
-- - Tftp/Packet, Netascii, Options: internal/tftp/protocol.go, netascii.go and `negotiateOptions`. Packets
--   are lists of bytes, a failed parse is `none`, a map of options an association list.
-- - Tftp/Link: a session's socket. The network is the list of replies still to come, what was sent and
--   what was published; `sendAndWaitACK` is a loop over its attempts.
-- - Tftp/Session: `handleSession`, with the checks of the path in front of the handlers.
-- - Tftp/Download, Upload: `handleRRQ` and `handleWRQ`, one function for each part of a turn of their
--   loops. The loops run on fuel, `none` where it does not do: for a download one more than the bytes of
--   the file, for an upload one more than the replies to come.
-- - Acl, Auth, Events, Sessions: internal/security/acl.go, internal/auth/auth.go,
--   internal/eventbus/eventbus.go and internal/webui/session.go. Maps are association lists, and a run is
--   a sequence of calls. `Publish` holds a read lock only: Events/Races has the selects of calls that
--   overlap as steps.
-- - Paths: internal/security/path.go, with `path/filepath` as on a system whose separator is a slash.
-- - Ftp: internal/ftp/permfs.go; `permissionFs` over a record of the calls of `afero.Fs`, `trackedFile` in
--   Ftp/Files.
-- - Config: internal/config/config.go, with the file system and YAML as parameters.
-- - Syslog: internal/syslogsrv/parse.go, with the parsers of package `time` as parameters.
-- - SyslogStore: internal/syslogsrv/store.go, the log file and its rotation.
-- - SyslogServer: internal/syslogsrv/server.go, what becomes of the datagrams, connections and lines that
--   arrive, one after the other, behind the access list, the parser and the store.
-- - Supervisor: internal/server/server.go, the steps of its callers and of the goroutine of each entry,
--   in every order. What a mutex guards is one step; a server's `Start` may return at any time.
-- - Sftp: internal/sftp/fs.go over a record of the calls of package `os`, with Sftp/Listing and
--   Sftp/Transfers; Sftp/Session has the logins, the access list and the host key of session.go and
--   server.go.
-- - Ftp/Connections: internal/ftp/driver.go, the connections and logins in front of `permissionFs`.
-- - WebUi: internal/webui/settings.go and `Save`, the settings as a browser shows and saves them;
--   WebUi/Site has the access list, the routes and the logins of internal/webui/server.go.
-- - Watcher: internal/config/watch.go, a fold over the events of the file system with their times.
-- - Program: cmd/dodaemon/main.go, the servers that `newRunFunc` starts for a configuration and what a
--   reload does to them. Every instance has a number; the supervisor's entry is the number it has.
-- - Tests: the theorems at concrete inputs.
--
-- Bounds. A uint16 block number wraps at 65536, an `int` is a signed number below 2^63 where it is
-- parsed; counts of bytes, in an int64, are not bounded.
--
-- Not modelled: the listeners, the pages of the web interface, the native interface and the command
-- line, which call libraries, goroutines and the operating system. Calls of one SFTP file that overlap,
-- and a TFTP client that never stops sending: the replies to come are a finite list.
pub mod Prelude
pub mod Tftp
pub mod WebUi
pub mod Acl
pub mod Auth
pub mod Events
pub mod Sessions
pub mod Paths
pub mod Ftp
pub mod Sftp
pub mod Config
pub mod Watcher
pub mod Supervisor
pub mod Syslog
pub mod SyslogServer
pub mod SyslogStore
pub mod Program
mod Tests
