-- ===== src/Kcp/Segment/RoundTrip.antt =====
-- Segments written and read back.
use reflex.Prelude.{
  ℕ, suc, ◌+◌, ◌*◌, ◌/◌, ◌%◌, ◌^◌, ◌≤◌, ◌<◌, ◌≡◌, ◌≢◌, refl, sym, ap, ◌∙◌, false, some, List, [],
  ◌∷◌, ◌++◌, length, ◌==◌, All, arith, ge→ltb, append_assoc, length-append, take-length,
  drop-length, take_all,
}
use reflex.Prelude.Bytes.{
  Bytes, uint, put_uint, uint_from, uint-field, drop-field, length-field, length-put_uint,
}
use reflex.Kcp.Segment.{
  Segment, data_segment, ack_segment, cmd_segment, command_data, command_ack, buffer_size,
  put_numbers, serialize, byte_size, parse_data, take_numbers, ack_numbers, parse_ack, parse_cmd,
  parse_command, read_segment,
}

-- The receiver's view: the sender's notes are not on the wire.
abbrev pub received : Segment → Segment
received (data_segment s) = data_segment (record s { timeout = 0; transmit = 0 })
received (ack_segment s) = ack_segment s
received (cmd_segment s) = cmd_segment s

abbrev Word : ℕ → Type 0
Word n = n < 2 ^ 32

-- Fields that fit their bytes. A data segment has a payload, of one buffer at most; a segment with a
-- command alone has neither of the other two commands.
abbrev pub FitsSegment : Segment → Type 0
FitsSegment (data_segment s) =
    (s.conv < 2 ^ 16)
    × Word s.timestamp
    × Word s.number
    × Word s.sending_next
    × (0 < length s.payload)
    × (length s.payload ≤ buffer_size)
FitsSegment (ack_segment s) =
    (s.conv < 2 ^ 16)
    × Word s.receiving_window
    × Word s.receiving_next
    × Word s.timestamp
    × (length s.number_list < 256)
    × All Word s.number_list
FitsSegment (cmd_segment s) =
    (s.conv < 2 ^ 16)
    × (s.cmd ≢ command_data)
    × (s.cmd ≢ command_ack)
    × Word s.sending_next
    × Word s.receiving_next
    × Word s.peer_rto

length-put_numbers : (ns : List ℕ) → length (put_numbers ns) ≡ length ns * 4
unfolding put_numbers
length-put_numbers [] = refl
length-put_numbers (n ∷ ns) =
    omega (arith, length-field 4 n (put_numbers ns), length-put_numbers ns)

take_numbers-put :
    (ns : List ℕ) (rest : Bytes)
    → All Word ns
    → take_numbers (length ns) (put_numbers ns ++ rest) ≡ ns
unfolding take_numbers put_numbers
take_numbers-put [] rest h = refl
take_numbers-put (n ∷ ns) rest (h, hs) =
    rw
      (
        append_assoc (put_uint 4 n) (put_numbers ns) rest,
        uint-field 4 n (put_numbers ns ++ rest) h,
        drop-field 4 n (put_numbers ns ++ rest),
      )
      (ap (◌∷◌ n) (take_numbers-put ns rest hs))

parse_cmd-serialize :
    (conv cmd opt a b d : ℕ) (rest : Bytes)
    → Word a
    → Word b
    → Word d
    → parse_cmd conv cmd opt (put_uint 4 a ++ (put_uint 4 b ++ (put_uint 4 d ++ rest)))
      ≡ some (
        cmd_segment (record {
          conv = conv;
          cmd = cmd;
          option = opt;
          sending_next = a;
          receiving_next = b;
          peer_rto = d;
        }),
        rest,
      )
unfolding parse_cmd
parse_cmd-serialize conv cmd opt a b d rest ha hb hd = rw (
  drop-field 4 a (put_uint 4 b ++ (put_uint 4 d ++ rest)),
  drop-field 4 b (put_uint 4 d ++ rest),
  drop-field 4 d rest,
  uint-field 4 a (put_uint 4 b ++ (put_uint 4 d ++ rest)) ha,
  uint-field 4 b (put_uint 4 d ++ rest) hb,
  uint-field 4 d rest hd,
  length-field 4 a (put_uint 4 b ++ (put_uint 4 d ++ rest)),
  length-field 4 b (put_uint 4 d ++ rest),
  length-field 4 d rest,
  ge→ltb (4 + (4 + (4 + length rest))) 12 (omega arith),
)

parse_data-serialize :
    (conv opt a b d : ℕ) (payload rest : Bytes)
    → Word a
    → Word b
    → Word d
    → 0 < length payload
    → length payload ≤ buffer_size
    → parse_data conv opt (
        put_uint 4 a
        ++ (put_uint 4 b ++ (put_uint 4 d ++ (put_uint 2 (length payload) ++ (payload ++ rest)))))
      ≡ some (
        data_segment (record {
          conv = conv;
          option = opt;
          timestamp = a;
          number = b;
          sending_next = d;
          payload = payload;
          timeout = 0;
          transmit = 0;
        }),
        rest,
      )
unfolding parse_data
parse_data-serialize conv opt a b d payload rest ha hb hd some_data fits =
    let behind_d = put_uint 2 (length payload) ++ (payload ++ rest) in
    rw (
      drop-field 4 a (put_uint 4 b ++ (put_uint 4 d ++ behind_d)),
      drop-field 4 b (put_uint 4 d ++ behind_d),
      drop-field 4 d behind_d,
      uint-field 4 a (put_uint 4 b ++ (put_uint 4 d ++ behind_d)) ha,
      uint-field 4 b (put_uint 4 d ++ behind_d) hb,
      uint-field 4 d behind_d hd,
      uint-field 2 (length payload) (payload ++ rest) (omega arith),
      drop-field 2 (length payload) (payload ++ rest),
      take-length payload rest (length payload) refl,
      drop-length payload rest (length payload) refl,
      take_all payload buffer_size fits,
      length-field 4 a (put_uint 4 b ++ (put_uint 4 d ++ behind_d)),
      length-field 4 b (put_uint 4 d ++ behind_d),
      length-field 4 d behind_d,
      length-field 2 (length payload) (payload ++ rest),
      length-append payload rest,
      ge→ltb (4 + (4 + (4 + (2 + (length payload + length rest))))) 15 (omega arith),
      ge→ltb (length payload + length rest) (length payload) (omega arith),
    )

parse_ack-serialize :
    (conv opt a b d : ℕ) (ns : List ℕ) (rest : Bytes)
    → Word a
    → Word b
    → Word d
    → length ns < 256
    → All Word ns
    → parse_ack conv opt (
        put_uint 4 a
        ++ (put_uint 4 b ++ (put_uint 4 d ++ ((length ns % 256) ∷ (put_numbers ns ++ rest)))))
      ≡ some (
        ack_segment (record {
          conv = conv;
          option = opt;
          receiving_window = a;
          receiving_next = b;
          timestamp = d;
          number_list = ns;
        }),
        rest,
      )
unfolding parse_ack ack_numbers
parse_ack-serialize conv opt a b d ns rest ha hb hd few words =
    let behind_d = (length ns % 256) ∷ (put_numbers ns ++ rest) in
    rw (
      drop-field 4 a (put_uint 4 b ++ (put_uint 4 d ++ behind_d)),
      drop-field 4 b (put_uint 4 d ++ behind_d),
      drop-field 4 d behind_d,
      drop-field 4 a (put_uint 4 b ++ (put_uint 4 d ++ behind_d)),
      drop-field 4 b (put_uint 4 d ++ behind_d),
      uint-field 4 a (put_uint 4 b ++ (put_uint 4 d ++ behind_d)) ha,
      uint-field 4 b (put_uint 4 d ++ behind_d) hb,
      uint-field 4 d behind_d hd,
      length-field 4 a (put_uint 4 b ++ (put_uint 4 d ++ behind_d)),
      length-field 4 b (put_uint 4 d ++ behind_d),
      length-field 4 d behind_d,
      ge→ltb (4 + (4 + (4 + suc (length (put_numbers ns ++ rest))))) 13 (omega arith),
      small,
      length-append (put_numbers ns) rest,
      length-put_numbers ns,
      ge→ltb (length ns * 4 + length rest) (length ns * 4) (omega arith),
      take_numbers-put ns rest words,
      drop-length (put_numbers ns) rest (length ns * 4) (sym (length-put_numbers ns)),
    )
  where
    small : length ns % 256 ≡ length ns
    small = omega (arith, few)

not_command : (cmd command : ℕ) → cmd ≢ command → (cmd == command) ≡ false
not_command cmd command h = ground arith

conv_read : (conv : ℕ) → conv < 2 ^ 16 → uint ((conv / 256 % 256) ∷ (conv % 256) ∷ []) ≡ conv
unfolding uint_from
conv_read conv h = omega arith

read_segment-head :
    (conv cmd opt : ℕ) (buf : Bytes)
    → conv < 2 ^ 16
    → read_segment (put_uint 2 conv ++ (cmd ∷ opt ∷ buf)) ≡ parse_command conv cmd opt buf
unfolding read_segment put_uint
read_segment-head conv cmd opt buf h =
    ap (λ (k : ℕ). parse_command k cmd opt buf) (conv_read conv h)

-- What `Serialize` writes of a segment with fields that fit, `ReadSegment` reads back, up to the
-- sender's notes, and it leaves the bytes behind it.
pub read_segment-serialize :
    (seg : Segment) (rest : Bytes)
    → FitsSegment seg
    → read_segment (serialize seg ++ rest) ≡ some (received seg, rest)
unfolding serialize parse_command
read_segment-serialize (data_segment s) rest (conv, a, b, d, some_data, fits) = simp append_assoc (
    read_segment-head s.conv command_data s.option _ conv
    ∙ parse_data-serialize s.conv s.option s.timestamp s.number s.sending_next s.payload rest a b d
        some_data fits)
read_segment-serialize (ack_segment s) rest (conv, a, b, d, few, words) = simp append_assoc (
    read_segment-head s.conv command_ack s.option _ conv
    ∙ parse_ack-serialize s.conv s.option s.receiving_window s.receiving_next s.timestamp
        s.number_list rest a b d few words)
read_segment-serialize (cmd_segment s) rest (conv, no_data, no_ack, a, b, d) = simp append_assoc (
    read_segment-head s.conv s.cmd s.option _ conv
    ∙ rw (not_command s.cmd command_data no_data, not_command s.cmd command_ack no_ack)
        (parse_cmd-serialize s.conv s.cmd s.option s.sending_next s.receiving_next s.peer_rto rest a
          b d))

-- `Serialize` fills exactly the room that `ByteSize` asks for.
pub length-serialize : (seg : Segment) → length (serialize seg) ≡ byte_size seg
unfolding serialize byte_size
length-serialize (data_segment s) =
    rw
      (
        length-field 2 s.conv _,
        length-field 4 s.timestamp _,
        length-field 4 s.number _,
        length-field 4 s.sending_next _,
        length-field 2 (length s.payload) s.payload,
      )
      (omega arith)
length-serialize (ack_segment s) =
    rw
      (
        length-field 2 s.conv _,
        length-field 4 s.receiving_window _,
        length-field 4 s.receiving_next _,
        length-field 4 s.timestamp _,
        length-put_numbers s.number_list,
      )
      (omega arith)
length-serialize (cmd_segment s) = rw (
  length-field 2 s.conv _,
  length-field 4 s.sending_next _,
  length-field 4 s.receiving_next _,
  length-put_uint 4 s.peer_rto,
)
