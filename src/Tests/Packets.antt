-- ===== src/Tests/Packets.antt =====
-- Packets as they are on the wire.
use do_daemon.Prelude.{
  All, Bytes, List, [], arith, atoi, codes, drop, false, inl, int_limit, length, none, refl, some,
  uint16, ◌++◌, ◌∷◌, ◌≡◌, ◌≢◌, ◌≤◌,
}
use do_daemon.Tftp.Packet.{Request, encode_strings, get_option, op_rrq, parse_request, read_options}
use do_daemon.Tftp.Packet.RoundTrip.{
  encode_request, offered, option_fields, parse_request-encode_request,
}
use do_daemon.Syslog.{Times, panicked, parse, split_structured_data}
use do_daemon.Tftp.Netascii.Stream.{concat, from_packets, from_packets-to_netascii, held}
use do_daemon.Tftp.Packet.Sound.{IsRequestOp, parse_request_sound}
use do_daemon.Tftp.Netascii.{to_netascii}
use do_daemon.Tftp.Packet.Fields.{NulFree}
use do_daemon.Syslog.Data.{IsDivided, split_structured_data-IsDivided}
use do_daemon.Syslog.Bounds.{IsKept, parse-IsKept}

abbrev two_options : List (Bytes × Bytes)
two_options = (codes "BLKSIZE", codes "8") ∷ (codes "a", codes "1") ∷ []

names_are_free : All NulFree (codes "f" ∷ codes "o" ∷ option_fields two_options)
names_are_free = (
  (omega arith, tt),
  (
    (omega arith, tt),
    (
      (
        omega arith,
        (
          omega arith,
          (omega arith, (omega arith, (omega arith, (omega arith, (omega arith, tt))))),
        ),
      ),
      ((omega arith, tt), ((omega arith, tt), ((omega arith, tt), tt))),
    ),
  ),
)

parse_request-encode_request_example :
    (req : Request) × (parse_request (encode_request op_rrq (codes "f") (codes "o") two_options)
      ≡ some req)
    × (req.op ≡ op_rrq)
    × (req.filename ≡ codes "f")
    × (req.mode ≡ codes "o")
    × ((k : Bytes) → get_option k req.options ≡ offered k two_options)
parse_request-encode_request_example =
    parse_request-encode_request op_rrq (codes "f") (codes "o") two_options (inl refl)
      names_are_free

abbrev a_request : Bytes
a_request = 0 ∷ 2 ∷ b'f' ∷ 0 ∷ b'o' ∷ 0 ∷ []

abbrev the_request : Request
the_request = record { op = 2; filename = codes "f"; mode = codes "o"; options = [] }

the_request_is_parsed : parse_request a_request ≡ some the_request
unfolding parse_request
the_request_is_parsed = refl

parse_request_sound_example :
    (4 ≤ length a_request)
    × (the_request.op ≡ uint16 a_request)
    × IsRequestOp the_request.op
    × ((rest : List Bytes) × (drop 2 a_request
          ≡ encode_strings (the_request.filename ∷ the_request.mode ∷ rest))
        × All NulFree (the_request.filename ∷ the_request.mode ∷ rest)
        × (the_request.options ≡ read_options rest []))
parse_request_sound_example = parse_request_sound a_request the_request the_request_is_parsed

abbrev split_in_crlf : List Bytes
split_in_crlf = (b'a' ∷ b'\r' ∷ []) ∷ (b'\n' ∷ b'b' ∷ []) ∷ []

pieces_are_full : All (λ p. p ≢ []) split_in_crlf
pieces_are_full = ((λ e. cc), ((λ e. cc), tt))

pieces_are_sent : concat split_in_crlf ≡ to_netascii (b'a' ∷ b'\n' ∷ b'b' ∷ [])
unfolding to_netascii
pieces_are_sent = refl

from_packets-to_netascii_example :
    (from_packets split_in_crlf false).0 ++ held (from_packets split_in_crlf false).1
    ≡ b'a' ∷ b'\n' ∷ b'b' ∷ []
from_packets-to_netascii_example =
    from_packets-to_netascii (b'a' ∷ b'\n' ∷ b'b' ∷ []) split_in_crlf pieces_are_full
      pieces_are_sent

-- A record of times that reads no time.
abbrev pub no_times : Times
no_times = record { now = 5; parse_time = λ layout text. none; this_year = λ t. t }

parse-IsKept_example :
    IsKept (codes "<34>hello") (parse no_times (codes "<34>hello") (codes "10.0.0.1"))
parse-IsKept_example = parse-IsKept no_times (codes "<34>hello") (codes "10.0.0.1")

split_structured_data-IsDivided_example :
    IsDivided (codes "[a b] text") (split_structured_data (codes "[a b] text"))
split_structured_data-IsDivided_example = split_structured_data-IsDivided (codes "[a b] text")

-- A line that ends in a backslash within its structured data.
parse_panics : parse no_times (codes "<34>1 t h a p m [\\") [] ≡ panicked
unfolding parse atoi int_limit
parse_panics = refl
