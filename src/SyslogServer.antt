-- ===== src/SyslogServer.antt =====
-- internal/syslogsrv/server.go: what becomes of the datagrams and lines that reach the server while it
-- listens, one at a time. `net` and `bufio` give what arrives, each line as the scanner has it; the
-- listeners, TLS and the end of the goroutines are not modelled. The server has a bus, as the program
-- gives it one. `Times` is the clock when a line is parsed.
pub mod Published
use do_daemon.Prelude.{
  Bytes, List, Option, [], if◌then◌else◌, none, some, take, ℕ, ◌++◌, ◌==◌, ◌>>=◌, ◌∷◌,
}
use do_daemon.Acl.{Acl, NetPackage, allowed}
use do_daemon.Syslog.{
  Format, Message, Parsed, Times, facility_name, malformed, panicked, parse, parsed, severity_name,
}
use do_daemon.SyslogStore.{LogDisk, Store, new_log, write_message}
use do_daemon.Config.{SyslogConfig, is_empty}

-- The event of a message: its source is "syslog", its kind a transfer.
pub record Notice : Type 0 where
  pub remote_addr : Bytes
  pub message : Bytes
  pub facility : Bytes
  pub severity : Bytes
  pub hostname : Bytes
  pub app_name : Bytes
  pub format : Format

-- `Server`; `tcp_conns` has the connections by a number, with their addresses, and `published` what
-- was given to the bus.
pub record LogServer (IpNet : Type 0) (W : Type 0) : Type 0 where
  pub acl : Acl IpNet
  pub store : Store W
  pub tcp_conns : List (ℕ × Bytes)
  pub published : List Notice

-- A panic in one of its goroutines ends the program.
pub data Listening (S : Type 0) : Type 0 where
  listening : S → Listening S
  crashed : Listening S

pub data Arrival (Ip : Type 0) : Type 0 where
  datagram : Times → Ip → Bytes → Bytes → Arrival Ip
  accepted : ℕ → Ip → Bytes → Arrival Ip
  scanned : Times → ℕ → Bytes → Arrival Ip
  hung_up : ℕ → Arrival Ip

abbrev pub udp_buffer : ℕ
udp_buffer = 65507

unfoldable pub notice_of : Message → Bytes → Notice
unfolding facility_name severity_name
notice_of m remote = record {
  remote_addr = remote;
  message = m.text;
  facility = facility_name m;
  severity = severity_name m;
  hostname = m.hostname;
  app_name = m.app_name;
  format = m.format;
}

unfoldable pub find_conn : ℕ → List (ℕ × Bytes) → Option Bytes
find_conn id [] = none
find_conn id ((n, remote) ∷ m) = if n == id then some remote else find_conn id m

unfoldable pub delete_conn : ℕ → List (ℕ × Bytes) → List (ℕ × Bytes)
delete_conn id [] = []
delete_conn id ((n, remote) ∷ m) =
    let rest = delete_conn id m in if n == id then rest else (n, remote) ∷ rest

module _ {IpNet W : Type 0} (disk : LogDisk W) where
  -- `New`
  unfoldable pub new_server : SyslogConfig → Acl IpNet → W → Option (LogServer IpNet W)
  unfolding new_log
  new_server cfg acl w = do
    store ← new_log disk cfg w
    some (record { acl = acl; store = store; tcp_conns = []; published = [] })

  -- A message that is not stored is published all the same.
  unfoldable pub handle_message : Message → Bytes → LogServer IpNet W → LogServer IpNet W
  unfolding write_message notice_of
  handle_message m remote s = record s {
    store = (write_message disk m s.store).1;
    published = s.published ++ (notice_of m remote ∷ []);
  }

  -- `handleLine` behind `Parse`.
  abbrev pub handle_parsed :
      Parsed Message → Bytes → LogServer IpNet W → Listening (LogServer IpNet W)
  handle_parsed (parsed m) remote s = listening (handle_message m remote s)
  handle_parsed malformed remote s = listening s
  handle_parsed panicked remote s = crashed

  unfoldable pub handle_line :
      Times → Bytes → Bytes → LogServer IpNet W → Listening (LogServer IpNet W)
  handle_line times line remote s =
      if is_empty line then listening s else handle_parsed (parse times line remote) remote s

  -- A line of a connection in the table.
  abbrev pub on_scanned :
      Times → Bytes → Option Bytes → LogServer IpNet W → Listening (LogServer IpNet W)
  on_scanned times line none s = listening s
  on_scanned times line (some remote) s = handle_line times line remote s

  module _ {Ip : Type 0} (p : NetPackage Ip IpNet) where
    -- One turn of the loop of `startUDP`.
    abbrev pub on_datagram :
        Times → Ip → Bytes → Bytes → LogServer IpNet W → Listening (LogServer IpNet W)
    on_datagram times ip remote bytes s =
        if allowed p s.acl ip
        then handle_line times (take udp_buffer bytes) remote s
        else listening s

    -- One turn of the loop of `startTCP`.
    abbrev pub on_accepted : ℕ → Ip → Bytes → LogServer IpNet W → Listening (LogServer IpNet W)
    on_accepted id ip remote s =
        if allowed p s.acl ip
        then listening (record s { tcp_conns = (id, remote) ∷ delete_conn id s.tcp_conns })
        else listening s

    -- The rest is `handleTCPConn`, its loop and what is deferred.
    unfoldable pub on_arrival : Arrival Ip → LogServer IpNet W → Listening (LogServer IpNet W)
    unfolding handle_line find_conn delete_conn
    on_arrival (datagram times ip remote bytes) s = on_datagram times ip remote bytes s
    on_arrival (accepted id ip remote) s = on_accepted id ip remote s
    on_arrival (scanned times id line) s = on_scanned times line (find_conn id s.tcp_conns) s
    on_arrival (hung_up id) s = listening (record s { tcp_conns = delete_conn id s.tcp_conns })

    abbrev pub then_arrivals :
        List (Arrival Ip) → Listening (LogServer IpNet W) → Listening (LogServer IpNet W)
    then_arrivals [] l = l
    then_arrivals (a ∷ arrivals) crashed = crashed
    then_arrivals (a ∷ arrivals) (listening s) = then_arrivals arrivals (on_arrival a s)
