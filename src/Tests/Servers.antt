-- ===== src/Tests/Servers.antt =====
-- The access list, logins, events, sessions, paths, the FTP file system and the configuration.
use do_daemon.Prelude.{
  All, Bool, Bytes, List, [], arith, codes, equal, false, if◌then◌else◌, inr, length, ltb, none,
  not, refl, some, some_inj, sym, true, ℕ, ◌&&◌, ◌*◌, ◌++◌, ◌+◌, ◌↔◌, ◌∷◌, ◌≡◌, ◌≤◌, ◌⊎◌,
}
use do_daemon.Acl.{NetPackage, allowed, made, new_acl}
use do_daemon.Auth.{User, authenticate, hash_of, new_store}
use do_daemon.Events.{Bus, Channel, Event}
use do_daemon.Sessions.{require_auth, served}
use do_daemon.Sessions.Lifetime.{
  Call, after_all, create_call, expiry, request_call, require_auth-after_all,
}
use do_daemon.Paths.{
  Elements, FileSystem, abs, check_resolved, clean_elements, is_rooted, joined, missing, present,
  safe_join, split_slash,
}
use do_daemon.Events.Buffers.{
  IsWellFormed, find_sub, find_sub-publish_each, keep_last, publish_each, stamp_each,
}
use do_daemon.Auth.Login.{authenticate-new_store, last_named}
use do_daemon.Acl.Rules.{Any, Matches, allowed-new_acl}
use do_daemon.Paths.Confined.{IsBelow, safe_join-IsBelow, safe_join_rooted}
use do_daemon.Config.{Config, Host, default_config, load}
use do_daemon.Ftp.{Inner, PermissionFs, St, TrackedFile, call_open, put, value}
use do_daemon.Ftp.Guarded.{IsGuarded, perform-IsGuarded}
use do_daemon.Ftp.Files.{
  FileCall, call_close, call_read, call_write, count_ended, ends, file_calls, file_calls-ended,
  has_close,
}
use do_daemon.Config.Validated.{IsServable, load-IsServable}
use do_daemon.SyslogStore.{LogDisk, Store, write_line}
use do_daemon.SyslogStore.Size.{IsLimited, write_line-IsLimited}

-- Addresses that are their text, and networks that hold one address.
abbrev text_package : NetPackage Bytes Bytes
text_package = record {
  parse_cidr = λ _. none;
  parse_ip = λ s. some (s, true);
  host_net = λ ip bits. ip;
  contains = λ n ip. equal n ip;
}

abbrev one_and_two : List Bytes
one_and_two = codes "1" ∷ codes "2" ∷ []

acl_is_made : new_acl text_package one_and_two (codes "2" ∷ []) ≡ made one_and_two (codes "2" ∷ [])
unfolding new_acl
acl_is_made = refl

allowed-new_acl_example :
    (allowed text_package (some (one_and_two, codes "2" ∷ [])) (codes "1") ≡ true) ↔ (
      All (λ e. ¬ Matches text_package (codes "1") e) (codes "2" ∷ [])
      × ((one_and_two ≡ []) ⊎ Any (Matches text_package (codes "1")) one_and_two))
allowed-new_acl_example =
    allowed-new_acl text_package one_and_two (codes "2" ∷ []) one_and_two (codes "2" ∷ [])
      (codes "1") acl_is_made

abbrev kim : User
kim = record {
  username = codes "kim";
  password_hash = codes "#pw";
  home_dir = codes "/h";
  permissions = codes "lr";
}

-- The hash of a password is the password behind a "#".
abbrev is_hash : Bytes → Bytes → Bool
is_hash hash password = equal hash (b'#' ∷ password)

authenticate-new_store_example :
    (((authenticate is_hash (new_store (kim ∷ []) []) (codes "kim") (codes "pw")).0 ≡ some kim) ↔ (
      (last_named (codes "kim") (kim ∷ []) ≡ some kim)
      × (is_hash kim.password_hash (codes "pw") ≡ true)))
    × ((authenticate is_hash (new_store (kim ∷ []) []) (codes "kim") (codes "pw")).1
        ≡ hash_of (last_named (codes "kim") (kim ∷ [])))
authenticate-new_store_example =
    authenticate-new_store is_hash (kim ∷ []) (codes "kim") (codes "pw") kim

abbrev pair_channel : Channel ℕ
pair_channel = record { cap = 2; queue = [] }

abbrev one_sub : Bus ℕ
one_sub = record { subs = (7, pair_channel) ∷ []; next = 8 }

abbrev three_events : List (ℕ × Event ℕ)
three_events =
    (10, record { time = none; body = 1 })
    ∷ (11, record { time = none; body = 2 })
    ∷ (12, record { time = some 5; body = 3 })
    ∷ []

sub_is_found : find_sub 7 one_sub.subs ≡ some pair_channel
unfolding find_sub
sub_is_found = refl

find_sub-publish_each_example :
    (c' : Channel ℕ) × (find_sub 7 (publish_each three_events one_sub).subs ≡ some c')
    × (c'.cap ≡ 2)
    × (c'.queue ≡ keep_last 2 ([] ++ stamp_each three_events))
    × IsWellFormed c'
find_sub-publish_each_example =
    find_sub-publish_each three_events one_sub 7 pair_channel sub_is_found
      (omega arith, omega arith)

abbrev used_twice : List Call
used_twice = request_call (some (codes "t")) 5 ∷ create_call (some (codes "t")) 1 ∷ []

require_auth-after_all_example :
    ((require_auth (some (codes "t")) 9 (after_all used_twice)).1 ≡ served)
    ↔ ((exp : ℕ) × (expiry (codes "t") used_twice ≡ some exp) × (9 ≤ exp))
require_auth-after_all_example = require_auth-after_all (codes "t") 9 used_twice

-- Files are there up to two elements deep, and nothing is a link.
abbrev pub shallow_files : FileSystem
shallow_files = record {
  lstat = λ p. if ltb (length p) 3 then present else missing;
  eval_symlinks = λ p. some p;
}

abbrev inside_home : Elements
inside_home = codes "srv" ∷ codes "ftp" ∷ codes "b" ∷ []

file_is_joined :
    safe_join shallow_files none (codes "/srv/ftp") (codes "a/../b") ≡ joined inside_home
unfolding safe_join
file_is_joined = refl

safe_join-IsBelow_example :
    (abs_root : Elements) × ((abs none (codes "/srv/ftp") ≡ some abs_root)
      × IsBelow shallow_files abs_root inside_home)
safe_join-IsBelow_example =
    safe_join-IsBelow shallow_files none (codes "/srv/ftp") (codes "a/../b") inside_home
      file_is_joined

abbrev home : Elements
home = codes "srv" ∷ codes "ftp" ∷ []

home_is_absolute : abs none (codes "/srv/ftp") ≡ some home
unfolding abs
home_is_absolute = refl

path_is_rooted : is_rooted (codes "/../../etc/passwd") ≡ true
unfolding is_rooted
path_is_rooted = refl

safe_join_rooted_example :
    safe_join shallow_files none (codes "/srv/ftp") (codes "/../../etc/passwd")
    ≡ check_resolved shallow_files home
        (home ++ clean_elements true (split_slash (codes "/../../etc/passwd")))
safe_join_rooted_example =
    safe_join_rooted shallow_files none (codes "/srv/ftp") (codes "/../../etc/passwd") home
      home_is_absolute path_is_rooted

-- A file system in which every call succeeds and the world counts the calls.
abbrev pub counting : Inner ℕ
counting = record {
  create = λ name w. (value 3, w + 1);
  mkdir = λ name perm w. (value tt, w + 1);
  mkdir_all = λ name perm w. (value tt, w + 1);
  open_path = λ name w. (value 3, w + 1);
  open_file = λ name flag perm w. (value 3, w + 1);
  remove = λ name w. (value tt, w + 1);
  remove_all = λ name w. (value tt, w + 1);
  rename = λ old new w. (value tt, w + 1);
  stat = λ name w. value (record { is_dir = false; size = 9 });
  read_dir = λ name w. value [];
  chmod = λ name mode w. (value tt, w + 1);
  chtimes = λ name a m w. (value tt, w + 1);
  file_read = λ h size w. ((codes "abc", none), w + 1);
  file_write = λ h p w. ((length p, none), w + 1);
  file_close = λ h w. (none, w + 1);
  view = λ w. shallow_files;
  clock = λ w. 100 * w;
}

abbrev kims_files : PermissionFs ℕ
kims_files = record {
  inner = counting;
  root = codes "/srv/ftp";
  user = kim;
  has_bus = true;
  cwd = none;
}

abbrev pub at_start : St ℕ
at_start = record { world = 0; published = [] }

perform-IsGuarded_example : IsGuarded kims_files (call_open (codes "a/../b")) at_start
perform-IsGuarded_example = perform-IsGuarded kims_files (call_open (codes "a/../b")) at_start

abbrev an_upload : TrackedFile
an_upload = record {
  handle = 3;
  direction = put;
  name = codes "b";
  total = 0;
  done = 0;
  closed = false;
  last_progress = 0;
}

abbrev closed_twice : List FileCall
closed_twice = call_write (codes "hi") ∷ call_close ∷ call_read 4 ∷ call_close ∷ []

file_calls-ended_example :
    count_ended (file_calls kims_files closed_twice an_upload at_start).1.published
    ≡ count_ended at_start.published
      + ends (kims_files.has_bus && (not an_upload.closed && has_close closed_twice))
file_calls-ended_example = file_calls-ended kims_files closed_twice an_upload at_start

-- A machine with an empty configuration file and an address syntax of its own.
abbrev plain_host : Host ℕ
plain_host = record {
  split_host_port = λ a. some (a, codes "80");
  parse_cidr = λ s. false;
  parse_ip = λ s. true;
  stat = λ path w. none;
  mkdir_all = λ path w. (true, w + 1);
  read_file = λ path w. some [];
  unmarshal = λ bytes c. some (record c { tftp = record c.tftp { enabled = true } });
}

abbrev tftp_enabled : Config
tftp_enabled = record default_config { tftp = record default_config.tftp { enabled = true } }

config_is_loaded : load plain_host (codes "c.yaml") 0 ≡ (inr tftp_enabled, 1)
unfolding load
config_is_loaded = refl

load-IsServable_example : IsServable tftp_enabled
load-IsServable_example =
    load-IsServable plain_host (codes "c.yaml") 0 tftp_enabled 1 config_is_loaded

-- A log whose disk writes all it is given.
abbrev pub all_written : LogDisk ℕ
all_written = record {
  json_line = λ m. some m.text;
  mkdir_all = λ dir w. (true, w);
  open_append = λ dir w. (some 0, w);
  write_file = λ line w. ((length line, true), w);
  close_file = λ w. (true, w);
  rename_current = λ dir c w. (true, w + 1);
}

abbrev nearly_full : Store ℕ
nearly_full = record { dir = codes "log"; max_size = 8; compress = false; size = 6; world = 0 }

write_line-IsLimited_example :
    IsLimited 8 (length (codes "abcd")) (write_line all_written (codes "abcd") nearly_full).1.size
write_line-IsLimited_example =
    write_line-IsLimited all_written (λ line w. omega arith) (λ dir c w n r o. sym (some_inj o))
      (codes "abcd") nearly_full (omega arith)
