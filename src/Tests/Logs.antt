-- ===== src/Tests/Logs.antt =====
-- A log server at work.
use do_daemon.Prelude.{Bytes, List, Option, [], codes, map, none, refl, some, true, ℕ, ◌∷◌, ◌≡◌}
use do_daemon.Acl.{Acl, allowed}
use do_daemon.Config.{SyslogConfig, default_config}
use do_daemon.Syslog.{parse}
use do_daemon.SyslogServer.{
  Arrival, LogServer, Notice, accepted, datagram, hung_up, listening, new_server, notice_of,
  scanned, then_arrivals,
}
use do_daemon.SyslogServer.Published.{all_notices, published_by, then_arrivals-Published}
use do_daemon.Tests.Packets.{no_times}
use do_daemon.Tests.Servers.{all_written}
use do_daemon.Tests.Settings.{text_package}

-- Only "a" may log.
abbrev only_a : Acl Bytes
only_a = some (codes "a" ∷ [], [])

abbrev log_server : LogServer Bytes ℕ
log_server = record {
  acl = only_a;
  store = record { dir = codes "log"; max_size = 104857600; compress = true; size = 0; world = 0 };
  tcp_conns = [];
  published = [];
}

abbrev log_config : SyslogConfig
log_config = record default_config.syslog { log_dir = codes "log" }

abbrev from_both : List (Arrival Bytes)
from_both =
    accepted 1 (codes "a") (codes "a:1")
    ∷ accepted 2 (codes "b") (codes "b:1")
    ∷ scanned no_times 2 (codes "no")
    ∷ scanned no_times 1 (codes "one")
    ∷ hung_up 1
    ∷ scanned no_times 1 (codes "late")
    ∷ datagram no_times (codes "a") (codes "a:2") (codes "two")
    ∷ []

log_server_is_made : new_server all_written log_config only_a 0 ≡ some log_server
unfolding new_server
log_server_is_made = refl

then_arrivals-Published_example :
    published_by (then_arrivals all_written text_package from_both (listening log_server))
    ≡ all_notices text_package only_a [] from_both
then_arrivals-Published_example =
    then_arrivals-Published all_written text_package only_a log_config 0 log_server from_both
      log_server_is_made

abbrev messages : Option (List Notice) → Option (List Bytes)
messages none = none
messages (some ns) = some (map (λ n. n.message) ns)

two_are_published :
    messages (all_notices text_package only_a [] from_both) ≡ some (codes "one" ∷ codes "two" ∷ [])
unfolding allowed parse notice_of
two_are_published = refl
