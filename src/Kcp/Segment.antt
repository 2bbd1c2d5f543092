-- ===== src/Kcp/Segment.antt =====
-- transport/internet/kcp/segment.go: the three kinds of segments, and their bytes. A payload is the
-- content of its buffer; the pointer that `Detach` empties is not seen.
pub mod RoundTrip
use reflex.Prelude.{
  ℕ, zero, suc, ◌+◌, ◌-◌, ◌*◌, ◌%◌, ◌^◌, Bool, true, false, Option, none, some, List, [], ◌∷◌, ◌++◌,
  length, take, drop, ltb, ◌==◌, if◌then◌else◌,
}
use reflex.Prelude.Bytes.{Bytes, uint, put_uint}
use reflex.Kcp.Words.{sub32}

abbrev pub command_ack : ℕ
command_ack = 0

abbrev pub command_data : ℕ
command_data = 1

abbrev pub segment_option_close : ℕ
segment_option_close = 1

-- `buf.Size`, the room of a payload's buffer.
abbrev pub buffer_size : ℕ
buffer_size = 8192

-- `timeout` and `transmit` are the sender's notes, which are not on the wire.
pub record DataSegment : Type 0 where
  pub conv : ℕ
  pub option : ℕ
  pub timestamp : ℕ
  pub number : ℕ
  pub sending_next : ℕ
  pub payload : Bytes
  pub timeout : ℕ
  pub transmit : ℕ

pub record AckSegment : Type 0 where
  pub conv : ℕ
  pub option : ℕ
  pub receiving_window : ℕ
  pub receiving_next : ℕ
  pub timestamp : ℕ
  pub number_list : List ℕ

pub record CmdOnlySegment : Type 0 where
  pub conv : ℕ
  pub cmd : ℕ
  pub option : ℕ
  pub sending_next : ℕ
  pub receiving_next : ℕ
  pub peer_rto : ℕ

pub data Segment : Type 0 where
  data_segment : DataSegment → Segment
  ack_segment : AckSegment → Segment
  cmd_segment : CmdOnlySegment → Segment

abbrev pub ack_number_limit : ℕ
ack_number_limit = 128

abbrev pub new_ack_segment : AckSegment
new_ack_segment = record {
  conv = 0;
  option = 0;
  receiving_window = 0;
  receiving_next = 0;
  timestamp = 0;
  number_list = [];
}

-- The timestamp moves forward only.
unfoldable pub put_timestamp : ℕ → AckSegment → AckSegment
put_timestamp timestamp s =
    if ltb (sub32 timestamp s.timestamp) 0x7FFFFFFF then record s { timestamp = timestamp } else s

abbrev pub put_number : ℕ → AckSegment → AckSegment
put_number number s = record s { number_list = s.number_list ++ (number ∷ []) }

abbrev pub is_full : AckSegment → Bool
is_full s = length s.number_list == ack_number_limit

put_numbers : List ℕ → Bytes
put_numbers [] = []
put_numbers (n ∷ ns) = put_uint 4 n ++ put_numbers ns

unfoldable pub serialize_data : DataSegment → Bytes
serialize_data s =
    put_uint 2 s.conv
    ++ (command_data
        ∷ s.option
        ∷ (put_uint 4 s.timestamp
            ++ (put_uint 4 s.number
                ++ (put_uint 4 s.sending_next ++ (put_uint 2 (length s.payload) ++ s.payload)))))

unfoldable pub serialize_ack : AckSegment → Bytes
unfolding put_numbers
serialize_ack s =
    put_uint 2 s.conv
    ++ (command_ack
        ∷ s.option
        ∷ (put_uint 4 s.receiving_window
            ++ (put_uint 4 s.receiving_next
                ++ (put_uint 4 s.timestamp
                    ++ ((length s.number_list % 256) ∷ put_numbers s.number_list)))))

unfoldable pub serialize_cmd : CmdOnlySegment → Bytes
serialize_cmd s =
    put_uint 2 s.conv
    ++ (s.cmd
        ∷ s.option
        ∷ (put_uint 4 s.sending_next ++ (put_uint 4 s.receiving_next ++ put_uint 4 s.peer_rto)))

-- The bytes that `Serialize` writes.
unfoldable pub serialize : Segment → Bytes
unfolding serialize_data serialize_ack serialize_cmd
serialize (data_segment s) = serialize_data s
serialize (ack_segment s) = serialize_ack s
serialize (cmd_segment s) = serialize_cmd s

unfoldable pub byte_size : Segment → ℕ
byte_size (data_segment s) = 18 + length s.payload
byte_size (ack_segment s) = 17 + length s.number_list * 4
byte_size (cmd_segment s) = 16

-- `(*DataSegment).parse`. The buffer of the payload takes its first 8192 bytes.
parse_data : ℕ → ℕ → Bytes → Option (Segment × Bytes)
parse_data conv opt buf =
    let buf1 = drop 4 buf in
    let buf2 = drop 4 buf1 in
    let buf3 = drop 4 buf2 in
    let data_len = uint (take 2 buf3) in
    let buf4 = drop 2 buf3 in
    if ltb (length buf) 15
    then none
    else if ltb (length buf4) data_len
    then none
    else some (
      data_segment (record {
        conv = conv;
        option = opt;
        timestamp = uint (take 4 buf);
        number = uint (take 4 buf1);
        sending_next = uint (take 4 buf2);
        payload = take buffer_size (take data_len buf4);
        timeout = 0;
        transmit = 0;
      }),
      drop data_len buf4,
    )

-- `count` numbers off the front.
take_numbers : ℕ → Bytes → List ℕ
take_numbers zero buf = []
take_numbers (suc count) buf = uint (take 4 buf) ∷ take_numbers count (drop 4 buf)

ack_numbers : ℕ → ℕ → Bytes → Bytes → Option (Segment × Bytes)
unfolding take_numbers
ack_numbers conv opt buf [] = none
ack_numbers conv opt buf (count ∷ buf4) =
    if ltb (length buf4) (count * 4)
    then none
    else some (
      ack_segment (record {
        conv = conv;
        option = opt;
        receiving_window = uint (take 4 buf);
        receiving_next = uint (take 4 (drop 4 buf));
        timestamp = uint (take 4 (drop 4 (drop 4 buf)));
        number_list = take_numbers count buf4;
      }),
      drop (count * 4) buf4,
    )

-- `(*AckSegment).parse`.
parse_ack : ℕ → ℕ → Bytes → Option (Segment × Bytes)
unfolding ack_numbers
parse_ack conv opt buf =
    if ltb (length buf) 13 then none else ack_numbers conv opt buf (drop 4 (drop 4 (drop 4 buf)))

-- `(*CmdOnlySegment).parse`.
parse_cmd : ℕ → ℕ → ℕ → Bytes → Option (Segment × Bytes)
parse_cmd conv cmd opt buf =
    let buf1 = drop 4 buf in
    let buf2 = drop 4 buf1 in
    if ltb (length buf) 12
    then none
    else some (
      cmd_segment (record {
        conv = conv;
        cmd = cmd;
        option = opt;
        sending_next = uint (take 4 buf);
        receiving_next = uint (take 4 buf1);
        peer_rto = uint (take 4 buf2);
      }),
      drop 4 buf2,
    )

parse_command : ℕ → ℕ → ℕ → Bytes → Option (Segment × Bytes)
unfolding parse_data parse_ack parse_cmd
parse_command conv cmd opt buf =
    if cmd == command_data
    then parse_data conv opt buf
    else if cmd == command_ack
    then parse_ack conv opt buf
    else parse_cmd conv cmd opt buf

-- A segment and the bytes behind it, or none.
unfoldable pub read_segment : Bytes → Option (Segment × Bytes)
unfolding parse_command
read_segment [] = none
read_segment (a ∷ []) = none
read_segment (a ∷ b ∷ []) = none
read_segment (a ∷ b ∷ c ∷ []) = none
read_segment (a ∷ b ∷ cmd ∷ opt ∷ buf) = parse_command (uint (a ∷ b ∷ [])) cmd opt buf
