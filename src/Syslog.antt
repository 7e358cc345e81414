-- ===== src/Syslog.antt =====
-- internal/syslogsrv/parse.go. `time.Parse` and `time.Date` are the record `Times`; a slice out of range,
-- at which the program panics, is a result of its own.
pub mod Data
pub mod Bounds
use do_daemon.Prelude.{
  Bool, Bytes, List, Option, [], atoi, codes, drop, equal, false, if◌then◌else◌, index_byte,
  is_digit, itoa, length, ltb, negsuc, none, not, pos, some, suc, take, true, zero, ℕ, ℤ, ◌%◌, ◌&&◌,
  ◌++◌, ◌+◌, ◌-◌, ◌/◌, ◌==◌, ◌>>=◌, ◌||◌, ◌∷◌,
}

-- `parse_time` takes a layout and a text. `this_year` gives a parsed time the current year.
pub record Times : Type 0 where
  pub now : ℕ
  pub parse_time : Bytes → Bytes → Option ℕ
  pub this_year : ℕ → ℕ

pub data Format : Type 0 where
  rfc5424 rfc3164 unstructured : Format

pub record Message : Type 0 where
  pub time : ℕ
  pub facility : ℤ
  pub severity : ℤ
  pub hostname : Bytes
  pub app_name : Bytes
  pub proc_id : Bytes
  pub msg_id : Bytes
  pub structured_data : Bytes
  pub text : Bytes
  pub format : Format
  pub raw : Bytes
  pub remote_addr : Bytes

abbrev pub facility_names : List Bytes
facility_names =
    codes "kern"
    ∷ codes "user"
    ∷ codes "mail"
    ∷ codes "daemon"
    ∷ codes "auth"
    ∷ codes "syslog"
    ∷ codes "lpr"
    ∷ codes "news"
    ∷ codes "uucp"
    ∷ codes "cron"
    ∷ codes "authpriv"
    ∷ codes "ftp"
    ∷ codes "ntp"
    ∷ codes "security"
    ∷ codes "console"
    ∷ codes "solaris-cron"
    ∷ codes "local0"
    ∷ codes "local1"
    ∷ codes "local2"
    ∷ codes "local3"
    ∷ codes "local4"
    ∷ codes "local5"
    ∷ codes "local6"
    ∷ codes "local7"
    ∷ []

abbrev pub severity_names : List Bytes
severity_names =
    codes "emerg"
    ∷ codes "alert"
    ∷ codes "crit"
    ∷ codes "err"
    ∷ codes "warning"
    ∷ codes "notice"
    ∷ codes "info"
    ∷ codes "debug"
    ∷ []

-- The number of an `int`.
abbrev pub itoa_int : ℤ → Bytes
itoa_int (pos n) = itoa n
itoa_int (negsuc n) = b'-' ∷ itoa (n + 1)

-- The name at an index, if the table has one there.
unfoldable pub name_at : List Bytes → ℤ → Option Bytes
name_at names (negsuc n) = none
name_at [] (pos n) = none
name_at (name ∷ names) (pos zero) = some name
name_at (name ∷ names) (pos (suc n)) = name_at names (pos n)

abbrev pub or_number : ℤ → Option Bytes → Bytes
or_number i none = itoa_int i
or_number i (some name) = name

unfoldable pub facility_name : Message → Bytes
unfolding name_at
facility_name m = or_number m.facility (name_at facility_names m.facility)

unfoldable pub severity_name : Message → Bytes
unfolding name_at
severity_name m = or_number m.severity (name_at severity_names m.severity)

pub data Parsed (A : Type 0) : Type 0 where
  parsed : A → Parsed A
  malformed : Parsed A
  panicked : Parsed A

-- "\uFEFF" in UTF-8.
abbrev pub bom : Bytes
bom = 239 ∷ 187 ∷ 191 ∷ []

abbrev pub has_prefix : Bytes → Bytes → Bool
has_prefix s p = equal (take (length p) s) p

-- `strings.TrimPrefix`
abbrev pub trim_prefix : Bytes → Bytes → Bytes
trim_prefix s p = if has_prefix s p then drop (length p) s else s

-- `strings.TrimLeft(s, " ")`
unfoldable pub trim_left_space : Bytes → Bytes
trim_left_space [] = []
trim_left_space (c ∷ s) = let rest = trim_left_space s in if c == b' ' then rest else c ∷ s

abbrev pub all_digits : Bytes → Bool
all_digits [] = true
all_digits (c ∷ s) = is_digit c && all_digits s

unfoldable pub is_rfc5424 : Bytes → Bool
unfolding index_byte
is_rfc5424 rest = elim (index_byte b' ' rest) [
  | none ↦ false
  | some sp ↦ if sp == 0 then false else if ltb 2 sp then false else all_digits (take sp rest)
]

unfoldable pub split_n_space_fields : ℕ → Bytes → Option (List Bytes × Bytes)
unfolding index_byte
split_n_space_fields zero s = some ([], s)
split_n_space_fields (suc n) s = do
  idx ← index_byte b' ' s
  (fields, tail) ← split_n_space_fields n (drop (idx + 1) s)
  some (take idx s ∷ fields, tail)

abbrev pub nil_dash : Bytes → Bytes
nil_dash s = if equal s (codes "-") then [] else s

abbrev pub consume : Bytes → Option (Bytes × Bytes) → Option (Bytes × Bytes)
consume front none = none
consume front (some (sd, rest)) = some (front ++ sd, rest)

-- The inner loop, behind the "[": what it passes over and the rest; `none` where the index ends up
-- behind the end of the text.
unfoldable pub element_loop : Bool → Bytes → Option (Bytes × Bytes)
element_loop in_quotes [] = some ([], [])
element_loop in_quotes (c ∷ []) = if c == b'\\' then none else some (c ∷ [], [])
element_loop in_quotes (c ∷ d ∷ s) =
    let skipped = element_loop in_quotes s in
    let next = element_loop (if c == b'"' then not in_quotes else in_quotes) (d ∷ s) in
    if c == b'\\'
    then consume (c ∷ d ∷ []) skipped
    else if c == b']' && not in_quotes
    then some (c ∷ [], d ∷ s)
    else consume (c ∷ []) next

-- The outer loop, over elements; each takes a byte at least.
unfoldable pub elements_loop : ℕ → Bytes → Option (Bytes × Bytes)
unfolding element_loop
elements_loop zero s = some ([], s)
elements_loop (suc fuel) [] = some ([], [])
elements_loop (suc fuel) (c ∷ s) =
    if c == b'['
    then (do
      (element, rest) ← element_loop false s
      (more, tail) ← elements_loop fuel rest
      some (c ∷ element ++ more, tail))
    else some ([], c ∷ s)

-- `none` is the slice `s[:i]` with `i` behind the end.
unfoldable pub split_structured_data : Bytes → Option (Bytes × Bytes)
unfolding elements_loop
split_structured_data s =
    if has_prefix s (codes "- ")
    then some ([], drop 2 s)
    else if equal s (codes "-")
    then some ([], [])
    else if not (has_prefix s (codes "["))
    then some ([], s)
    else do (sd, rest) ← elements_loop (length s) s; some (sd, trim_prefix rest (codes " "))

module _ (times : Times) where
  abbrev pub time_of : Bytes → ℕ
  time_of timestamp =
      if equal timestamp (codes "-")
      then times.now
      else elim (times.parse_time (codes "2006-01-02T15:04:05.999999999Z07:00") timestamp) [
        | none ↦ times.now
        | some t ↦ t
      ]

  -- The message of an RFC 5424 header's fields; `Parse` fills in the rest.
  unfoldable pub rfc5424_message : List Bytes → Bytes × Bytes → Bytes → Parsed Message
  rfc5424_message (timestamp ∷ hostname ∷ app_name ∷ proc_id ∷ msg_id ∷ []) (sd, msg_text)
        remote_addr =
      parsed (record {
        time = time_of timestamp;
        facility = pos 0;
        severity = pos 0;
        hostname = nil_dash hostname;
        app_name = nil_dash app_name;
        proc_id = nil_dash proc_id;
        msg_id = nil_dash msg_id;
        structured_data = sd;
        text = trim_prefix msg_text bom;
        format = rfc5424;
        raw = [];
        remote_addr = remote_addr;
      })
  rfc5424_message _ split remote_addr = malformed

  -- Behind the version.
  unfoldable pub parse_header : Bytes → Bytes → Parsed Message
  unfolding split_n_space_fields split_structured_data rfc5424_message
  parse_header rest remote_addr = elim (split_n_space_fields 5 rest) [
    | none ↦ malformed
    | some (fields, tail) ↦ elim (split_structured_data tail) [
      | none ↦ panicked
      | some split ↦ rfc5424_message fields split remote_addr
    ]
  ]

  unfoldable pub parse_rfc5424 : Bytes → Bytes → Parsed Message
  unfolding parse_header index_byte
  parse_rfc5424 rest remote_addr = elim (index_byte b' ' rest) [
    | none ↦ parse_header rest remote_addr
    | some sp ↦ parse_header (drop (sp + 1) rest) remote_addr
  ]

  -- The loop over `bsdTimeLayouts`.
  abbrev pub bsd_time : Bytes → Option ℕ
  bsd_time candidate = elim (times.parse_time (codes "Jan _2 15:04:05") candidate) [
    | some t ↦ some (times.this_year t)
    | none ↦ elim (times.parse_time (codes "Jan 2 15:04:05") candidate) [
      | some t ↦ some (times.this_year t)
      | none ↦ none
    ]
  ]

  -- A name and what follows the space behind it, if it is not empty.
  unfoldable pub take_hostname : Bytes → Bytes × Bytes
  unfolding index_byte
  take_hostname rest = elim (index_byte b' ' rest) [
    | none ↦ ([], rest)
    | some sp ↦ if sp == 0 then ([], rest) else (take sp rest, drop (sp + 1) rest)
  ]

  abbrev pub ends_in_bracket : Bytes → Bool
  ends_in_bracket [] = false
  ends_in_bracket (c ∷ []) = c == b']'
  ends_in_bracket (c ∷ d ∷ s) = ends_in_bracket (d ∷ s)

  -- The name of the program and its id.
  unfoldable pub split_tag : Bytes → Bytes × Bytes
  unfolding index_byte
  split_tag tag = elim (index_byte b'[' tag) [
    | none ↦ (tag, [])
    | some lb ↦
        if ltb 0 lb && ends_in_bracket tag
        then (take lb tag, take (length tag - 1 - (lb + 1)) (drop (lb + 1) tag))
        else (tag, [])
  ]

  unfoldable pub take_tag : Bytes → (Bytes × Bytes) × Bytes
  unfolding split_tag
  take_tag rest = elim (index_byte b':' rest) [
    | none ↦ (([], []), rest)
    | some colon ↦
        if ltb 0 colon && ltb colon 64
        then (split_tag (take colon rest), trim_prefix (drop (colon + 1) rest) (codes " "))
        else (([], []), rest)
  ]

  -- A text without a time.
  abbrev pub plain : Bytes → Bytes → Message
  plain text remote_addr = record {
    time = times.now;
    facility = pos 0;
    severity = pos 0;
    hostname = [];
    app_name = [];
    proc_id = [];
    msg_id = [];
    structured_data = [];
    text = text;
    format = unstructured;
    raw = [];
    remote_addr = remote_addr;
  }

  unfoldable pub parse_rfc3164 : Bytes → Bytes → Message
  unfolding trim_left_space take_hostname take_tag
  parse_rfc3164 given remote_addr =
      let rest = trim_left_space given in
      elim (if ltb (length rest) 15 then none else bsd_time (take 15 rest)) [
        | none ↦ plain rest remote_addr
        | some t ↦
            let (hostname, behind) = take_hostname (trim_left_space (drop 15 rest)) in
            let ((app_name, proc_id), text) = take_tag behind in
            record {
              time = t;
              facility = pos 0;
              severity = pos 0;
              hostname = hostname;
              app_name = app_name;
              proc_id = proc_id;
              msg_id = [];
              structured_data = [];
              text = text;
              format = rfc3164;
              raw = [];
              remote_addr = remote_addr;
            }
      ]

  -- `msg.Facility, msg.Severity, msg.Raw = ...`
  abbrev pub with_pri : ℕ → Bytes → Parsed Message → Parsed Message
  with_pri pri orig (parsed m) =
      parsed (record m { facility = pos (pri / 8); severity = pos (pri % 8); raw = orig })
  with_pri pri orig malformed = malformed
  with_pri pri orig panicked = panicked

  unfoldable pub parse_pri : ℕ → Bytes → Bytes → Bytes → Parsed Message
  unfolding is_rfc5424 parse_rfc5424 parse_rfc3164
  parse_pri pri rest orig remote_addr = with_pri pri orig (
      if is_rfc5424 rest
      then parse_rfc5424 rest remote_addr
      else parsed (parse_rfc3164 rest remote_addr))

  -- `strconv.Atoi` of the number, and its range.
  abbrev pub valid_pri : Option ℤ → Option ℕ
  valid_pri none = none
  valid_pri (some (pos n)) = if ltb 191 n then none else some n
  valid_pri (some (negsuc n)) = none

  -- From the "<" on.
  unfoldable pub parse_tagged : Bytes → Bytes → Parsed Message
  unfolding parse_pri index_byte
  parse_tagged raw remote_addr = elim (index_byte b'>' raw) [
    | none ↦ malformed
    | some end ↦
        if ltb end 1 || ltb 4 end
        then malformed
        else elim (valid_pri (atoi (drop 1 (take end raw)))) [
          | none ↦ malformed
          | some pri ↦ parse_pri pri (drop (end + 1) raw) raw remote_addr
        ]
  ]

  unfoldable pub parse : Bytes → Bytes → Parsed Message
  unfolding parse_tagged
  parse given remote_addr =
      let raw = trim_prefix given bom in
      if not (has_prefix raw (codes "<"))
      then parsed
          (record (plain raw remote_addr) { facility = negsuc 0; severity = negsuc 0; raw = raw })
      else parse_tagged raw remote_addr
