-- ===== src/Tftp/Packet.antt =====
-- internal/tftp/protocol.go: the packets of RFC 1350 and RFC 2347. A function that returns an error
-- returns `errMalformedPacket` and no other, so its result is an Option.
pub mod Fields
pub mod RoundTrip
pub mod Sound
use do_daemon.Prelude.{
  Bytes, List, Option, [], codes, drop, equal, if◌then◌else◌, index_byte, itoa, leb, length, ltb,
  map, none, not, put_uint16, some, suc, take, uint16, zero, ℕ, ◌&&◌, ◌++◌, ◌+◌, ◌==◌, ◌>>=◌, ◌∷◌,
}

-- `opcode`
abbrev pub op_rrq : ℕ
op_rrq = 1

abbrev pub op_wrq : ℕ
op_wrq = 2

abbrev pub op_data : ℕ
op_data = 3

abbrev pub op_ack : ℕ
op_ack = 4

abbrev pub op_error : ℕ
op_error = 5

abbrev pub op_oack : ℕ
op_oack = 6

abbrev pub err_not_defined : ℕ
err_not_defined = 0

abbrev pub err_file_not_found : ℕ
err_file_not_found = 1

abbrev pub err_access_violation : ℕ
err_access_violation = 2

abbrev pub err_disk_full : ℕ
err_disk_full = 3

abbrev pub err_illegal_operation : ℕ
err_illegal_operation = 4

abbrev pub err_unknown_tid : ℕ
err_unknown_tid = 5

abbrev pub err_file_exists : ℕ
err_file_exists = 6

abbrev pub err_no_such_user : ℕ
err_no_such_user = 7

abbrev pub err_option_negotiate : ℕ
err_option_negotiate = 8

-- A Go map from string to string.
abbrev pub Options : Type 0
Options = List (Bytes × Bytes)

pub record Request : Type 0 where
  pub op : ℕ
  pub filename : Bytes
  pub mode : Bytes
  pub options : Options

-- `options[k] = v`
unfoldable pub set_option : Bytes → Bytes → Options → Options
set_option k v [] = (k, v) ∷ []
set_option k v ((j, w) ∷ m) = if equal j k then (k, v) ∷ m else (j, w) ∷ set_option k v m

-- `v, ok := options[k]`
unfoldable pub get_option : Bytes → Options → Option Bytes
get_option k [] = none
get_option k ((j, w) ∷ m) = if equal j k then some w else get_option k m

unfoldable pub lower_byte : ℕ → ℕ
lower_byte c = if leb b'A' c && leb c b'Z' then c + 32 else c

unfoldable pub normalize_option_name : Bytes → Bytes
unfolding lower_byte
normalize_option_name s = map lower_byte s

-- The loop, on fuel; a turn drops at least one byte, so `length b` turns are enough.
unfoldable pub split_loop : ℕ → Bytes → Option (List Bytes)
unfolding index_byte
split_loop fuel [] = some []
split_loop zero (c ∷ b) = none
split_loop (suc fuel) (c ∷ b) = do
  idx ← index_byte 0 (c ∷ b)
  out ← split_loop fuel (drop (suc idx) (c ∷ b))
  some (take idx (c ∷ b) ∷ out)

unfoldable pub split_nul_terminated : Bytes → Option (List Bytes)
unfolding split_loop
split_nul_terminated b = split_loop (length b) b

-- `for i := 0; i+1 < len(rest); i += 2`
unfoldable pub read_options : List Bytes → Options → Options
unfolding set_option normalize_option_name
read_options (name ∷ value ∷ rest) m =
    read_options rest (set_option (normalize_option_name name) value m)
read_options _ m = m

unfoldable pub request_of : ℕ → List Bytes → Option Request
unfolding read_options
request_of op (filename ∷ mode ∷ rest) =
    some (record { op = op; filename = filename; mode = mode; options = read_options rest [] })
request_of op _ = none

unfoldable pub parse_request : Bytes → Option Request
unfolding split_nul_terminated request_of
parse_request b =
    if ltb (length b) 4
    then none
    else (let op = uint16 b in
        if not (op == op_rrq) && not (op == op_wrq)
        then none
        else (do fields ← split_nul_terminated (drop 2 b); request_of op fields))

unfoldable pub encode_data : ℕ → Bytes → Bytes
encode_data block payload = put_uint16 op_data ++ (put_uint16 block ++ payload)

unfoldable pub encode_ack : ℕ → Bytes
encode_ack block = put_uint16 op_ack ++ put_uint16 block

unfoldable pub encode_error : ℕ → Bytes → Bytes
encode_error code msg = put_uint16 op_error ++ (put_uint16 code ++ (msg ++ (0 ∷ [])))

unfoldable pub encode_strings : List Bytes → Bytes
encode_strings [] = []
encode_strings (s ∷ ss) = s ++ (0 ∷ encode_strings ss)

unfoldable pub encode_oack : List Bytes → Bytes
unfolding encode_strings
encode_oack ordered_kv = put_uint16 op_oack ++ encode_strings ordered_kv

unfoldable pub parse_data : Bytes → Option (ℕ × Bytes)
parse_data b =
    if ltb (length b) 4
    then none
    else if not (uint16 b == op_data)
    then none
    else some (uint16 (drop 2 b), drop 4 b)

unfoldable pub parse_ack : Bytes → Option ℕ
parse_ack b =
    if ltb (length b) 4
    then none
    else if not (uint16 b == op_ack)
    then none
    else some (uint16 (drop 2 b))

-- `bytes.TrimRight(b, "\x00")`
unfoldable pub trim_right_nul : Bytes → Bytes
trim_right_nul [] = []
trim_right_nul (c ∷ b) = elim (trim_right_nul b) [
  | [] ↦ if c == 0 then [] else c ∷ []
  | x ∷ xs ↦ c ∷ x ∷ xs
]

unfoldable pub parse_error : Bytes → Option (ℕ × Bytes)
unfolding trim_right_nul
parse_error b =
    if ltb (length b) 4
    then none
    else if not (uint16 b == op_error)
    then none
    else some (uint16 (drop 2 b), trim_right_nul (drop 4 b))

unfoldable pub err_name : ℕ → Bytes
err_name code =
    if code == err_file_not_found
    then codes "file not found"
    else if code == err_access_violation
    then codes "access violation"
    else if code == err_disk_full
    then codes "disk full"
    else if code == err_illegal_operation
    then codes "illegal TFTP operation"
    else if code == err_unknown_tid
    then codes "unknown transfer ID"
    else if code == err_file_exists
    then codes "file already exists"
    else if code == err_no_such_user
    then codes "no such user"
    else if code == err_option_negotiate
    then codes "option negotiation failed"
    else codes "error " ++ itoa code
