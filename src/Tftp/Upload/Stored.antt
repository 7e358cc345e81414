-- ===== src/Tftp/Upload/Stored.antt =====
-- What an upload leaves in the file.
use do_daemon.Prelude.{
  ==_refl, Bool, Bytes, List, Option, [], ap, append_assoc, arith, drop, false, if◌then◌else◌,
  length, length-drop, length-take, le→ltb, lt→ltb, ne→==, refl, some, suc, sym, take,
  take-append-drop, take-length, true, zero, ℕ, ◌%◌, ◌++◌, ◌+◌, ◌<◌, ◌∙◌, ◌∷◌, ◌≡◌, ◌≢◌, ◌≤◌,
}
use do_daemon.Tftp.Link.{Env, Net, Notice, Reply, arrived, publish, upload_complete, write}
use do_daemon.Tftp.Netascii.Stream.{decode, decode-append, from_netascii-decode, held}
use do_daemon.Tftp.Download.{next_block}
use do_daemon.Tftp.Packet.{encode_ack, encode_data}
use do_daemon.Tftp.Upload.{
  Receiving, acknowledge, continued, decode_payload, finished, next_receiving, on_data, on_packet,
  store, upload_loop, upload_turn,
}
use do_daemon.Tftp.Netascii.{from_netascii}
use do_daemon.Tftp.Packet.RoundTrip.{parse_data-encode_data}
use do_daemon.Tftp.Download.Blocks.{next_block-lt}

-- A client that sends the blocks of `ahead` from block `b` on: each block in its turn, and before it
-- any number of DATA packets of other blocks, such as copies of the last one.
pub data Sends (blksize : ℕ) : ℕ → Bytes → List Reply → Type 0 where
  last :
      {b : ℕ} {ahead : Bytes} {rest : List Reply}
      → length ahead < blksize
      → Sends blksize b ahead (arrived (encode_data b ahead) ∷ rest)
  more :
      {b : ℕ} {ahead : Bytes} {rest : List Reply}
      → blksize ≤ length ahead
      → Sends blksize (next_block b) (drop blksize ahead) rest
      → Sends blksize b ahead (arrived (encode_data b (take blksize ahead)) ∷ rest)
  stale :
      {b : ℕ} {ahead : Bytes} {rest : List Reply} (block : ℕ) (payload : Bytes)
      → block < 65536
      → block ≢ b
      → Sends blksize b ahead rest
      → Sends blksize b ahead (arrived (encode_data block payload) ∷ rest)

-- The bytes that belong in the file. In netascii a CR is held back until the byte behind it is known.
abbrev pub decoded_file : Bool → Bool → Bytes → Bytes
decoded_file netascii carry_cr ahead = if netascii then (decode carry_cr ahead).0 else ahead

length-decode : (cr : Bool) (b : Bytes) → length (decode cr b).0 ≤ length (held cr) + length b
unfolding decode
length-decode true [] = omega arith
length-decode false [] = omega arith
length-decode true (c ∷ b) = ground (arith, length-decode true b, length-decode false b)
length-decode false (c ∷ b) = ground (arith, length-decode true b, length-decode false b)

-- One payload, and the rest of the file behind it.
decode_payload-decoded_file :
    (netascii carry_cr : Bool) (payload rest : Bytes)
    → 0 < length payload
    → (decode_payload netascii payload carry_cr).0
        ++ decoded_file netascii (decode_payload netascii payload carry_cr).1 rest
      ≡ decoded_file netascii carry_cr (payload ++ rest)
unfolding decode_payload
decode_payload-decoded_file netascii carry_cr [] rest h = absurd (omega arith)
decode_payload-decoded_file false carry_cr (c ∷ payload) rest h = refl
decode_payload-decoded_file true carry_cr (c ∷ payload) rest h =
    rw (from_netascii-decode c payload carry_cr, decode-append carry_cr (c ∷ payload) rest) refl

decode_payload_last :
    (netascii carry_cr : Bool) (payload : Bytes)
    → (decode_payload netascii payload carry_cr).0 ≡ decoded_file netascii carry_cr payload
unfolding decode_payload
decode_payload_last false carry_cr payload = refl
decode_payload_last true carry_cr [] = unfold from_netascii decode in refl
decode_payload_last true carry_cr (c ∷ payload) = rw (from_netascii-decode c payload carry_cr) refl

length-decode_payload :
    (netascii carry_cr : Bool) (payload : Bytes)
    → length (decode_payload netascii payload carry_cr).0 ≤ length payload + 1
length-decode_payload netascii carry_cr payload =
    rw (decode_payload_last netascii carry_cr payload) (bound netascii carry_cr)
  where
    bound : (n cr : Bool) → length (decoded_file n cr payload) ≤ length payload + 1
    bound false cr = omega arith
    bound true true = omega (arith, length-decode true payload)
    bound true false = omega (arith, length-decode false payload)

module _ (env : Env) (blksize total : ℕ) (netascii : Bool) where
  -- The disk takes the payload.
  store_last :
      (s : Receiving) (payload : Bytes) (d : Bytes × Bool) (net : Net) (file : Bytes)
      → length d.0 ≤ env.room file
      → length payload < blksize
      → store env blksize total s payload d net file
        ≡ finished (publish upload_complete (acknowledge env total s payload net).0) (file ++ d.0)
  unfolding store
  store_last s payload d net file fits short =
      rw
        (
          le→ltb (env.room file) (length d.0) fits,
          lt→ltb (length payload) blksize short,
          take-length (env.room file) d.0 fits,
        )
        refl

  store_more :
      (s : Receiving) (payload : Bytes) (d : Bytes × Bool) (net : Net) (file : Bytes)
      → length d.0 ≤ env.room file
      → blksize ≤ length payload
      → store env blksize total s payload d net file
        ≡ continued
            (next_receiving s payload d.1 (acknowledge env total s payload net).1)
            (acknowledge env total s payload net).0
            (file ++ d.0)
  unfolding store
  store_more s payload d net file fits long =
      rw
        (
          le→ltb (env.room file) (length d.0) fits,
          le→ltb (length payload) blksize long,
          take-length (env.room file) d.0 fits,
        )
        refl

  acknowledge_replies :
      (s : Receiving) (payload : Bytes) (net : Net)
      → (acknowledge env total s payload net).0.replies ≡ net.replies
  unfolding acknowledge
  acknowledge_replies s payload net = ground arith

  on_data_expected :
      (s : Receiving) (payload : Bytes) (net : Net) (file : Bytes)
      → on_data env blksize total netascii s (s.expected, payload) net file
        ≡ store env blksize total s payload (decode_payload netascii payload s.carry_cr) net file
  unfolding on_data
  on_data_expected s payload net file = rw (==_refl s.expected) refl

  on_data_stale :
      (s : Receiving) (block : ℕ) (payload : Bytes) (net : Net) (file : Bytes)
      → block ≢ s.expected
      → on_data env blksize total netascii s (block, payload) net file
        ≡ continued
            (record s { first = false })
            (write env (encode_ack ((s.expected + 65535) % 65536)) net)
            file
  unfolding on_data
  on_data_stale s block payload net file ne = rw (ne→== block s.expected ne) refl

  packet_data :
      (s : Receiving) (block : ℕ) (payload : Bytes) (net : Net) (file : Bytes)
      → block < 65536
      → on_packet env blksize total netascii s (encode_data block payload) net file
        ≡ on_data env blksize total netascii s (block, payload) net file
  unfolding on_packet
  packet_data s block payload net file lt =
      rw (parse_data-encode_data block payload lt, on_packet) refl

  turn_data :
      (kvs : List Bytes) (s : Receiving) (block : ℕ) (payload : Bytes) (net : Net) (file : Bytes)
      (rs : List Reply)
      → block < 65536
      → env.cancelled net.replies ≡ false
      → net.replies ≡ arrived (encode_data block payload) ∷ rs
      → upload_turn env blksize total netascii kvs s net file
        ≡ on_data env blksize total netascii s (block, payload) (record net { replies = rs }) file
  unfolding upload_turn
  turn_data kvs s block payload net file rs lt live e =
      rw (live, e) (packet_data s block payload (record net { replies = rs }) file lt)

  loop_finished :
      (kvs : List Bytes) (fuel : ℕ) (s : Receiving) (net net' : Net) (file file' : Bytes)
      → upload_turn env blksize total netascii kvs s net file ≡ finished net' file'
      → upload_loop env blksize total netascii kvs (suc fuel) s net file ≡ some (net', file')
  unfolding upload_loop
  loop_finished kvs fuel s net net' file file' e = rw (e, upload_loop) refl

  loop_continued :
      (kvs : List Bytes) (fuel : ℕ) (s s' : Receiving) (net net' : Net) (file file' : Bytes)
      → upload_turn env blksize total netascii kvs s net file ≡ continued s' net' file'
      → upload_loop env blksize total netascii kvs (suc fuel) s net file
        ≡ upload_loop env blksize total netascii kvs fuel s' net' file'
  unfolding upload_loop
  loop_continued kvs fuel s s' net net' file file' e = rw (e, upload_loop) refl

  -- How a run ends: with the bytes of `ahead` behind those that the file had, and reported complete.
  abbrev pub Completes : Option (Net × Bytes) → Bytes → Type 0
  Completes o file =
      (net' : Net) × (ns : List Notice) × (o ≡ some (net', file))
      × (net'.notices ≡ ns ++ (upload_complete ∷ []))

  module _ (live : (rs : List Reply) → env.cancelled rs ≡ false) (pos_blksize : 0 < blksize)
      (kvs : List Bytes) where
    pub upload_loop-Completes :
        (fuel : ℕ) (s : Receiving) (net : Net) (file : Bytes) {b : ℕ} {ahead : Bytes}
        {rs : List Reply}
        → Sends blksize b ahead rs
        → s.expected ≡ b
        → net.replies ≡ rs
        → s.expected < 65536
        → ((written : Bytes) → length ahead + 1 ≤ env.room written)
        → length rs < fuel
        → Completes
            (upload_loop env blksize total netascii kvs fuel s net file)
            (file ++ decoded_file netascii s.carry_cr ahead)
    upload_loop-Completes zero s net file x b e lt room enough = absurd (omega arith)
    upload_loop-Completes (suc fuel) s net file (last {ahead = ahead} {rest = rest} short) b e lt
          room enough =
        let d = decode_payload netascii ahead s.carry_cr in
        let net1 : Net = record net { replies = rest } in
        let fits : length d.0 ≤ env.room file =
          omega (arith, length-decode_payload netascii s.carry_cr ahead, room file) in
        let turn =
          turn_data kvs s s.expected ahead net file rest lt (live net.replies)
            (e ∙ ap (λ k. arrived (encode_data k ahead) ∷ rest) (sym b))
          ∙ on_data_expected s ahead net1 file
          ∙ store_last s ahead d net1 file fits short in
        let done = (acknowledge env total s ahead net1).0 in
        (
          publish upload_complete done,
          done.notices,
          loop_finished kvs fuel s net (publish upload_complete done) file (file ++ d.0) turn
              ∙ ap (λ out. some (publish upload_complete done, file ++ out))
                  (decode_payload_last netascii s.carry_cr ahead),
          refl,
        )
    upload_loop-Completes (suc fuel) s net file (more {ahead = ahead} {rest = rest} full x) b e lt
          room enough =
        let payload = take blksize ahead in
        let d = decode_payload netascii payload s.carry_cr in
        let net1 : Net = record net { replies = rest } in
        let size : length payload ≡ blksize = omega (arith, length-take blksize ahead) in
        let fits : length d.0 ≤ env.room file =
          omega (arith, length-decode_payload netascii s.carry_cr payload, room file) in
        let a = acknowledge env total s payload net1 in
        let turn =
          turn_data kvs s s.expected payload net file rest lt (live net.replies)
            (e ∙ ap (λ k. arrived (encode_data k payload) ∷ rest) (sym b))
          ∙ on_data_expected s payload net1 file
          ∙ store_more s payload d net1 file fits (omega (arith, size)) in
        let s' : Receiving = next_receiving s payload d.1 a.1 in
        let later =
          upload_loop-Completes fuel s' a.0 (file ++ d.0) x (ap next_block b)
            (acknowledge_replies s payload net1) (next_block-lt s.expected)
            (λ w. omega (arith, room w, length-drop blksize ahead)) (omega arith) in
        let whole : (file ++ d.0) ++ decoded_file netascii d.1 (drop blksize ahead)
            ≡ file ++ decoded_file netascii s.carry_cr ahead =
          append_assoc file d.0 _
          ∙ ap (λ out. file ++ out)
              (decode_payload-decoded_file netascii s.carry_cr payload (drop blksize ahead)
                  (omega (arith, size, pos_blksize))
                ∙ ap (decoded_file netascii s.carry_cr) (take-append-drop blksize ahead)) in
        (
          later.0,
          later.1,
          loop_continued kvs fuel s s' net a.0 file (file ++ d.0) turn
              ∙ later.2
              ∙ ap (λ out. some (later.0, out)) whole,
          later.3,
        )
    upload_loop-Completes (suc fuel) s net file (stale {rest = rest} block payload lt' ne x) b e lt
          room enough =
        let net1 : Net = record net { replies = rest } in
        let net2 = write env (encode_ack ((s.expected + 65535) % 65536)) net1 in
        let turn =
          turn_data kvs s block payload net file rest lt' (live net.replies) e
          ∙ on_data_stale s block payload net1 file (λ h. ne (h ∙ b)) in
        let later =
          upload_loop-Completes fuel (record s { first = false }) net2 file x b (ground arith) lt
            room (omega arith) in
        (later.0, later.1, loop_continued kvs fuel s _ net net2 file file turn ∙ later.2, later.3)
