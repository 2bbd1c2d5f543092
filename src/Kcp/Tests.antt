-- ===== src/Kcp/Tests.antt =====
-- Connections at concrete inputs.
use reflex.Prelude.{
  ℕ, ◌%◌, ◌≡◌, ◌≢◌, refl, none, some, true, false, Bool, List, [], ◌∷◌, ◌++◌, ◌+◌, map, not, take,
  ◌≤◌, ◌==◌, length, arith,
}
use reflex.Prelude.Bytes.{Bytes, put_uint}
use reflex.MultiBuffer.{bytes_of}
use reflex.Kcp.Segment.{Segment, data_segment, cmd_segment, DataSegment, serialize}
use reflex.Kcp.Segment.RoundTrip.{FitsSegment, read_segment-serialize}
use reflex.Kcp.Auth.{seal, seal_in}
use reflex.Kcp.Packet.{read_packet, write_packet, with_header}
use reflex.Kcp.Packet.Delivery.{serialize_all, header_room}
use reflex.Kcp.Packet.Simple.{simple_authenticator, read_packet-simple}
use reflex.Kcp.Acks.{AckList, new_ack_list, add}
use reflex.Kcp.Acks
use reflex.Kcp.Acks.Flush.{Sent, due, waiting, flush-Sent}
use reflex.Kcp.Receiving.{
  ReceivingWorker, new_receiving_worker, process_segment, read_multi_buffer, has, set, find,
  without,
}
use reflex.Kcp.Receiving
use reflex.Kcp.Receiving.Order.{stream}
use reflex.Kcp.Receiving.Stream.{Run, start, arrive, read_buffers, left, taken}
use reflex.Kcp.Receiving.Row.{InRow, read_multi_buffer-InRow, read_multi_buffer_others}
use reflex.Kcp.Words.{add32}
use reflex.Kcp.Sending.{
  SendingWindow, SendingWorker, new_sending_worker, push, flush, remove, push_back, is_waiting,
  visit, go_on, flush_window, sent_again,
}
use reflex.Kcp.Sending
use reflex.Kcp.Sending.Window.{keep, holds_number, Ascending, remove-keep}
use reflex.Kcp.Sending.Flush.{flush_window-written}
use reflex.Kcp.Sending.Flush
use reflex.Kcp.Sending.Control.{Limited, flush-Limited}
use reflex.Kcp.Sending.History.{SendRun, pushed, accept, flush_some}
use reflex.Kcp.Sending.History
use reflex.Kcp.Timing.{RoundTripInfo, update}
use reflex.Kcp.Timing.Bounds.{Settled, timeout_lem}
use reflex.Kcp.Connection.{
  Connection, terminated, new_connection, Sizes, input, close, write, ready_to_close,
}
use reflex.Kcp.Connection
use reflex.Kcp.Connection.States.{Forward, state-Forward}
use reflex.Kcp.Connection.Arrivals.{arrivals}
use reflex.Kcp.Connection.Ending.{closed-ends}
use reflex.Kcp.Connection.Writing.{queue_of, Wrote, write-Wrote}
use reflex.Kcp.Link.{FromNetwork, link-stream}

abbrev ping_segment : Segment
ping_segment =
    cmd_segment (record {
      conv = 5;
      cmd = 3;
      option = 0;
      sending_next = 1;
      receiving_next = 2;
      peer_rto = 100;
    })

abbrev seven : Bytes → ℕ
seven b = 7

abbrev pings : List Segment
pings = ping_segment ∷ ping_segment ∷ []

-- The packet of two pings.
ping_packet_goes_out :
    write_packet none (some (simple_authenticator seven)) [] (serialize_all pings)
    ≡ some (seal seven (serialize_all pings))
unfolding write_packet serialize_all serialize put_uint seal seal_in
ping_packet_goes_out = refl

ping_fits : FitsSegment ping_segment
ping_fits = (omega arith, (λ e. no_data e), (λ e. no_ack e), omega arith, omega arith, omega arith)
  where
    no_data : ◌≢◌ {A = ℕ} 3 1
    no_data = omega arith

    no_ack : ◌≢◌ {A = ℕ} 3 0
    no_ack = omega arith

some_pings : pings ≢ []
some_pings e = cc

read_packet-simple_example :
    (packet : Bytes) × (write_packet none
        (some (simple_authenticator seven))
        []
        (serialize_all pings)
      ≡ some packet)
    × (read_packet (header_room none) (some (simple_authenticator seven)) packet ≡ pings)
read_packet-simple_example =
    read_packet-simple seven none [] pings (λ p. omega arith) (unfold with_header in refl)
      (ping_fits, (ping_fits, tt)) some_pings
      (unfold serialize_all serialize put_uint in omega arith)

-- Three numbers of which two are due.
abbrev three_numbers : AckList
three_numbers = record {
  entries =
      record { number = 4; timestamp = 90; next_flush = 100 }
      ∷ record { number = 5; timestamp = 95; next_flush = 300 }
      ∷ record { number = 6; timestamp = 95; next_flush = 0 }
      ∷ [];
  dirty = true;
}

flush-Sent_example :
    Sent
      (Acks.flush 200 100 three_numbers).1
      (due 200 three_numbers.entries)
      (take 128 (waiting 200 three_numbers.entries))
flush-Sent_example = flush-Sent 200 100 three_numbers

abbrev segment_of : ℕ → Bytes → DataSegment
segment_of number b = record {
  conv = 5;
  option = 0;
  timestamp = 100;
  number = number;
  sending_next = 0;
  payload = b;
  timeout = 0;
  transmit = 0;
}

-- The segment that the receiver waits for, and one behind a gap.
abbrev two_waiting : ReceivingWorker
two_waiting =
    process_segment (segment_of 2 (9 ∷ []))
      (process_segment (segment_of 0 (7 ∷ [])) (new_receiving_worker 8))

nothing_left : two_waiting.left_over ≡ none
unfolding process_segment
nothing_left = refl

read_multi_buffer-InRow_example :
    InRow two_waiting.window two_waiting.next_number (read_multi_buffer two_waiting).1
    × ((read_multi_buffer two_waiting).0.next_number
        ≡ add32 two_waiting.next_number (length (read_multi_buffer two_waiting).1))
read_multi_buffer-InRow_example =
    read_multi_buffer-InRow two_waiting nothing_left (unfold process_segment in omega arith)
      (unfold process_segment set has in omega arith)

read_multi_buffer_others_example :
    find (add32 two_waiting.next_number 2) (read_multi_buffer two_waiting).0.window
    ≡ find (add32 two_waiting.next_number 2) two_waiting.window
unfolding Receiving.remove
read_multi_buffer_others_example =
    read_multi_buffer_others two_waiting 2 nothing_left (unfold process_segment in omega arith)
      (unfold process_segment set has in omega arith)
      (unfold read_multi_buffer process_segment set has find without in omega arith) (omega arith)

abbrev three_sent : SendingWindow
three_sent = record {
  cache = segment_of 3 (7 ∷ []) ∷ segment_of 4 (8 ∷ []) ∷ segment_of 6 (9 ∷ []) ∷ [];
  total_in_flight_size = 3;
}

remove-keep_example :
    ((remove 4 three_sent).0.cache
      ≡ keep (λ (s : DataSegment). not (s.number == 4)) three_sent.cache)
    × ((remove 4 three_sent).1 ≡ holds_number 4 three_sent.cache)
remove-keep_example =
    remove-keep 4 three_sent
      (unfold Ascending in ((omega arith, (omega arith, tt)), ((omega arith, tt), (tt, tt))))

flush_window-written_example :
    (flush_window 200 100 2 (λ s. s) three_sent).1
    ≡ map (sent_again 200 100 (λ s. s)) (take 2 (Flush.due 200 three_sent.cache))
flush_window-written_example = flush_window-written 200 100 2 (λ s. s) three_sent (omega arith)

abbrev sent_bytes : ℕ → Bytes
sent_bytes i = i % 256 ∷ []

abbrev loaded : SendingWorker
loaded = (push (sent_bytes 0) (new_sending_worker 8 4)).0

flush-Limited_example : Limited 8 (flush 5 false 100 true 8 100 loaded)
flush-Limited_example =
    flush-Limited 5 false 100 true 8 100 loaded (omega arith) (omega arith)
      (unfold push in (omega arith, omega arith)) (unfold push push_back in omega arith)

abbrev estimate : RoundTripInfo
estimate = record { variation = 20; srtt = 60; rto = 100; min_rtt = 50; updated_timestamp = 7 }

timeout_lem_example :
    Settled (update 90 200 estimate)
    × ((update 90 200 estimate).srtt ≤ (update 90 200 estimate).rto)
    × ((update 90 200 estimate).rto ≤ 12500)
    × ((update 90 200 estimate).updated_timestamp ≡ 200)
timeout_lem_example =
    timeout_lem 90 200 estimate (omega arith)
      (record { variation = omega arith; srtt = omega arith; min_rtt = omega arith })

abbrev sizes : Sizes
sizes = record {
  mtu = 1350;
  tti = 50;
  overhead = 6;
  sending_in_flight = 194;
  sending_buffer = 1553;
  receiving_in_flight = 776;
}

abbrev fresh : Connection
fresh = new_connection 5 false sizes

state-Forward_example :
    Forward fresh.state (input 40000 pings fresh).state
    × Forward fresh.state (close 40000 fresh).0.state
    × Forward fresh.state (Connection.flush 40000 fresh).0.state
state-Forward_example = state-Forward 40000 pings fresh

abbrev closing : Connection
closing = record fresh { state = ready_to_close; state_begin_time = 1000 }

closed-ends_example :
    (Connection.flush 30000 (
      arrivals
        ((25000, pings) ∷ [])
        (Connection.flush 20000 (arrivals ((3000, pings) ∷ []) closing)).0)).0.state
    ≡ terminated
closed-ends_example =
    closed-ends 20000 30000 closing ((3000, pings) ∷ []) ((25000, pings) ∷ []) refl (omega arith)
      (omega arith) (omega arith) (omega arith, tt)

write-Wrote_example : Wrote (queue_of fresh) (1 ∷ 2 ∷ 3 ∷ []) (write (1 ∷ 2 ∷ 3 ∷ []) fresh)
write-Wrote_example =
    write-Wrote (1 ∷ 2 ∷ 3 ∷ []) fresh (unfold new_connection in refl)
      (unfold new_connection in omega arith)

-- One payload goes over to the reader.
abbrev sender : SendingWorker × List DataSegment × Bool
sender = flush 5 false 100 false 8 100 loaded

abbrev first_segment : DataSegment
first_segment = record {
  conv = 5;
  option = 0;
  timestamp = 100;
  number = 0;
  sending_next = 0;
  payload = 0 ∷ [];
  timeout = 200;
  transmit = 1;
}

abbrev receiver : ReceivingWorker
receiver = process_segment (segment_of 0 (0 ∷ [])) (new_receiving_worker 8)

first_fits : FitsSegment (data_segment first_segment)
first_fits = (omega arith, omega arith, omega arith, omega arith, omega arith, omega arith)

first_arrives : FromNetwork ([] ++ sender.1) 8 0 (segment_of 0 (0 ∷ []))
first_arrives = (
  [],
  first_segment,
  [],
  (unfold flush push push_back Sending.write sent_again is_waiting flush_window visit go_on in
      refl),
  first_fits,
  [],
  read_segment-serialize (data_segment first_segment) [] first_fits,
  omega arith,
)

sends :
    SendRun sent_bytes 8 4 sender.0
      (pushed 0 (push (sent_bytes 0) (new_sending_worker 8 4)))
      ([] ++ sender.1)
sends = flush_some 5 false 100 false 100 (accept History.start)

receives :
    Run
      (FromNetwork ([] ++ sender.1) 8)
      8
      (read_multi_buffer receiver).0
      (0 + taken receiver)
      ([] ++ bytes_of (read_multi_buffer receiver).1)
receives = read_buffers (arrive (segment_of 0 (0 ∷ [])) start first_arrives)

link-stream_example :
    ([] ++ bytes_of (read_multi_buffer receiver).1) ++ left (read_multi_buffer receiver).0.left_over
    ≡ stream sent_bytes 8 (0 + taken receiver)
link-stream_example =
    link-stream sent_bytes 8 (omega arith) 8 4
      (pushed 0 (push (sent_bytes 0) (new_sending_worker 8 4))) (0 + taken receiver) sender.0
      ([] ++ sender.1) (read_multi_buffer receiver).0
      ([] ++ bytes_of (read_multi_buffer receiver).1) sends (unfold push in omega arith) receives
