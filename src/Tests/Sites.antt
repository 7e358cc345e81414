-- ===== src/Tests/Sites.antt =====
-- The watcher of the configuration file, and the requests to the web interface.
use do_daemon.Prelude.{Bool, Bytes, List, Option, [], codes, equal, none, some, true, ℕ, ◌∷◌}
use do_daemon.Config.{Config, default_config}
use do_daemon.Watcher.{FileEvent}
use do_daemon.WebUi.Site.{
  Happening, WebRequest, login_page, noticed, protected_page, requested, verb_get, verb_post,
}
use do_daemon.Paths.{Elements}

abbrev edited : FileEvent
edited = record { time = 10; name = codes "/etc/../c.yaml"; is_change = true }

abbrev other_file : FileEvent
other_file = record { time = 90; name = codes "/d.yaml"; is_change = true }

abbrev watched : Elements
watched = codes "c.yaml" ∷ []

abbrev on_disk : ℕ → Option Bytes
on_disk now = some (codes "one")

abbrev admin_config : Config
admin_config = record default_config {
  web_ui = record default_config.web_ui {
    auth = record { username = codes "admin"; password_hash = codes "#pw" };
  };
}

-- The hash of a password is the password behind a "#".
abbrev is_hash : Bytes → Bytes → Bool
is_hash hash password = equal hash (b'#' ∷ password)

abbrev a_login : WebRequest Bytes
a_login = record {
  now = 5;
  remote = some (codes "1");
  route = login_page;
  verb = verb_post;
  cookie = none;
  form = some (codes "admin", codes "pw");
  fresh = some (codes "t");
}

abbrev a_visit : WebRequest Bytes
a_visit = record {
  now = 9;
  remote = some (codes "1");
  route = protected_page;
  verb = verb_get;
  cookie = some (codes "t");
  form = none;
  fresh = none;
}

abbrev logged_in : List (Happening Bytes Bytes ℕ)
logged_in = requested a_login ∷ noticed 3 ∷ []
