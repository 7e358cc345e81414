-- ===== src/Tftp/Packet/RoundTrip.antt =====
-- Packets written and read back.
use do_daemon.Prelude.{
  All, Bytes, List, Option, [], arith, equal, equal_iff, if◌then◌else◌, inl, inr, length,
  length-append, le→ltb, none, put_uint16, refl, some, suc, uint16, ℕ, ◌++◌, ◌<◌, ◌∙◌, ◌∷◌, ◌≡◌,
  ◌≢◌, ◌≤◌, ◌⊎◌,
}
use do_daemon.Tftp.Packet.Fields.{NulFree, split_loop-encode_strings}
use do_daemon.Tftp.Packet.{
  Options, Request, encode_ack, encode_data, encode_error, encode_strings, get_option,
  normalize_option_name, op_rrq, op_wrq, parse_ack, parse_data, parse_error, parse_request,
  read_options, request_of, set_option, split_nul_terminated, trim_right_nul,
}

uint16-put_uint16 : (v : ℕ) (rest : Bytes) → v < 65536 → uint16 (put_uint16 v ++ rest) ≡ v
uint16-put_uint16 v rest h = omega arith

-- A DATA packet of a uint16 block number is read back, whatever its payload.
pub parse_data-encode_data :
    (block : ℕ) (payload : Bytes)
    → block < 65536
    → parse_data (encode_data block payload) ≡ some (block, payload)
unfolding parse_data encode_data
parse_data-encode_data block payload h = ground arith

pub parse_ack-encode_ack :
    (block : ℕ) (rest : Bytes) → block < 65536 → parse_ack (encode_ack block ++ rest) ≡ some block
unfolding parse_ack encode_ack
parse_ack-encode_ack block rest h = ground arith

-- The last byte of the text is not NUL.
abbrev pub EndsInText : Bytes → Type 0
EndsInText [] = Unit
EndsInText (c ∷ []) = c ≢ 0
EndsInText (c ∷ x ∷ b) = EndsInText (x ∷ b)

trim_right_nul-append : (msg : Bytes) → EndsInText msg → trim_right_nul (msg ++ (0 ∷ [])) ≡ msg
unfolding trim_right_nul
trim_right_nul-append [] h = refl
trim_right_nul-append (c ∷ []) h = ground arith
trim_right_nul-append (c ∷ x ∷ b) h = rw (trim_right_nul-append (x ∷ b) h, trim_right_nul)

-- An ERROR packet of a uint16 code is read back, if its text does not end in a NUL.
pub parse_error-encode_error :
    (code : ℕ) (msg : Bytes)
    → code < 65536
    → EndsInText msg
    → parse_error (encode_error code msg) ≡ some (code, msg)
unfolding parse_error encode_error
parse_error-encode_error code msg h t = ground (arith, trim_right_nul-append msg t)

-- What the wire format of a request is (RFC 1350 and RFC 2347): the opcode, and NUL-terminated
-- fields, an option's name and its value each one.
abbrev pub option_fields : List (Bytes × Bytes) → List Bytes
option_fields [] = []
option_fields ((name, value) ∷ kvs) = name ∷ value ∷ option_fields kvs

abbrev pub encode_request : ℕ → Bytes → Bytes → List (Bytes × Bytes) → Bytes
encode_request op filename mode kvs =
    put_uint16 op ++ encode_strings (filename ∷ mode ∷ option_fields kvs)

-- The last value offered under a name, upper and lower case being one.
abbrev pub offered : Bytes → List (Bytes × Bytes) → Option Bytes
offered k [] = none
offered k ((name, value) ∷ kvs) = elim (offered k kvs) [
  | some v ↦ some v
  | none ↦ if equal (normalize_option_name name) k then some value else none
]

pub get_option-set_option :
    (j k v : Bytes) (m : Options)
    → get_option j (set_option k v m) ≡ (if equal k j then some v else get_option j m)
unfolding get_option set_option
get_option-set_option j k v [] = refl
get_option-set_option j k v ((i, w) ∷ m) =
    ground (arith, equal_iff k j, equal_iff i k, equal_iff i j, get_option-set_option j k v m)

get_option-read_options :
    (k : Bytes) (kvs : List (Bytes × Bytes)) (m : Options)
    → get_option k (read_options (option_fields kvs) m)
      ≡ elim (offered k kvs) [ some v ↦ some v | none ↦ get_option k m ]
unfolding read_options
get_option-read_options k [] m = refl
get_option-read_options k ((name, value) ∷ kvs) m = ground (
  arith,
  get_option-read_options k kvs (set_option (normalize_option_name name) value m),
  get_option-set_option k (normalize_option_name name) value m,
)

encode_strings_long : (f g : Bytes) (rest : List Bytes) → 2 ≤ length (encode_strings (f ∷ g ∷ rest))
unfolding encode_strings
encode_strings_long f g rest = omega (
  arith,
  length-append f (0 ∷ (g ++ (0 ∷ encode_strings rest))),
  length-append g (0 ∷ encode_strings rest),
)

parse_request-of_fields :
    (op : ℕ) (filename mode : Bytes) (rest : List Bytes)
    → (op ≡ op_rrq) ⊎ (op ≡ op_wrq)
    → All NulFree (filename ∷ mode ∷ rest)
    → parse_request (put_uint16 op ++ encode_strings (filename ∷ mode ∷ rest))
      ≡ request_of op (filename ∷ mode ∷ rest)
unfolding parse_request split_nul_terminated
parse_request-of_fields op filename mode rest h free =
    let fs : List Bytes = filename ∷ mode ∷ rest in
    let split = split_loop-encode_strings fs (length (encode_strings fs)) free (omega arith) in
    let long =
      le→ltb (suc (suc (length (encode_strings fs)))) 4
        (omega (arith, encode_strings_long filename mode rest)) in
    elim h [ inl e ↦ rw (long, e, split) refl | inr e ↦ rw (long, e, split) refl ]

-- A well-formed request is parsed: its opcode, file name and mode as sent, and under every name the
-- value offered last under it, names taken in lower case.
pub parse_request-encode_request :
    (op : ℕ) (filename mode : Bytes) (kvs : List (Bytes × Bytes))
    → (op ≡ op_rrq) ⊎ (op ≡ op_wrq)
    → All NulFree (filename ∷ mode ∷ option_fields kvs)
    → (req : Request) × (parse_request (encode_request op filename mode kvs) ≡ some req)
      × (req.op ≡ op)
      × (req.filename ≡ filename)
      × (req.mode ≡ mode)
      × ((k : Bytes) → get_option k req.options ≡ offered k kvs)
parse_request-encode_request op filename mode kvs h free = (
  record {
    op = op;
    filename = filename;
    mode = mode;
    options = read_options (option_fields kvs) [];
  },
  parse_request-of_fields op filename mode (option_fields kvs) h free ∙ unfold request_of in refl,
  refl,
  refl,
  refl,
  λ k. get_option-read_options k kvs [] ∙ offered_back k (offered k kvs),
)
  where
    offered_back :
        (k : Bytes) (o : Option Bytes) → elim o [ some v ↦ some v | none ↦ get_option k [] ] ≡ o
    offered_back k none = unfold get_option in refl
    offered_back k (some v) = refl
