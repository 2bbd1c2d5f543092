-- ===== src/Kcp/Connection.antt =====
-- transport/internet/kcp/connection.go: a connection, from the segments that come in and the calls of its
-- user to the segments that go out. The time since the connection began is an argument (`Elapsed`), and
-- the segments that go to `output` are results. The deadlines, the addresses and what runs in other
-- goroutines stay out; that they were woken is kept.
pub mod States
pub mod Arrivals
pub mod Flushes
pub mod Ending
pub mod Writing
use reflex.Prelude.{
  ℕ, zero, suc, ◌+◌, ◌-◌, ◌*◌, ◌/◌, ◌%◌, ◌^◌, Bool, true, false, not, ◌&&◌, ◌||◌, Option, none,
  some, List, [], ◌∷◌, ◌++◌, length, take, drop, ltb, leb, ◌==◌, if◌then◌else◌,
}
use reflex.Prelude.Bytes.{Bytes}
use reflex.MultiBuffer.{MultiBuffer}
use reflex.MultiBuffer
use reflex.Kcp.Words.{sub32}
use reflex.Kcp.Segment.{
  Segment, data_segment, ack_segment, cmd_segment, DataSegment, AckSegment, CmdOnlySegment,
  segment_option_close,
}
use reflex.Kcp.Timing.{RoundTripInfo, update, update_peer_rto}
use reflex.Kcp.Receiving.{ReceivingWorker, new_receiving_worker}
use reflex.Kcp.Receiving
use reflex.Kcp.Sending.{SendingWorker, new_sending_worker}
use reflex.Kcp.Sending

pub data State : Type 0 where
  active : State
  ready_to_close : State
  peer_closed : State
  terminating : State
  peer_terminating : State
  terminated : State

unfoldable pub is : State → State → Bool
is active active = true
is ready_to_close ready_to_close = true
is peer_closed peer_closed = true
is terminating terminating = true
is peer_terminating peer_terminating = true
is terminated terminated = true
is s t = false

pub record Connection : Type 0 where
  pub conversation : ℕ
  pub congestion : Bool
  pub in_flight_size : ℕ
  pub state : State
  pub state_begin_time : ℕ
  pub last_incoming_time : ℕ
  pub last_ping_time : ℕ
  pub mss : ℕ
  pub round_trip : RoundTripInfo
  pub receiving_worker : ReceivingWorker
  pub sending_worker : SendingWorker
  pub data_input : Bool
  pub data_output : Bool
  pub data_woken : Bool
  pub ping_woken : Bool
  pub ping_interval : ℕ
  pub terminate_begun : Bool

-- What `NewConnection` takes from the settings and from the packet writer.
pub record Sizes : Type 0 where
  pub mtu : ℕ
  pub tti : ℕ
  pub overhead : ℕ
  pub sending_in_flight : ℕ
  pub sending_buffer : ℕ
  pub receiving_in_flight : ℕ

unfoldable pub new_connection : ℕ → Bool → Sizes → Connection
new_connection conversation congestion sizes = record {
  conversation = conversation;
  congestion = congestion;
  in_flight_size = sizes.sending_in_flight;
  state = active;
  state_begin_time = 0;
  last_incoming_time = 0;
  last_ping_time = 0;
  mss = sub32 (sub32 sizes.mtu sizes.overhead) 18;
  round_trip = record {
    variation = 0;
    srtt = 0;
    rto = 100;
    min_rtt = sizes.tti;
    updated_timestamp = 0;
  };
  receiving_worker = new_receiving_worker sizes.receiving_in_flight;
  sending_worker = new_sending_worker sizes.sending_in_flight sizes.sending_buffer;
  data_input = false;
  data_output = false;
  data_woken = false;
  ping_woken = true;
  ping_interval = 5000;
  terminate_begun = false;
}

close_write : Connection → Connection
close_write c = record c { sending_worker = Sending.close_write c.sending_worker }

-- What `SetState` does in the new state. `CloseRead` does nothing.
entered : State → Connection → Connection
unfolding close_write
entered peer_closed c = close_write c
entered terminating c = record (close_write c) { ping_interval = 1000 }
entered peer_terminating c = record (close_write c) { ping_interval = 1000 }
entered terminated c = record (close_write c) {
  ping_interval = 1000;
  data_woken = true;
  ping_woken = true;
  terminate_begun = true;
}
entered state c = c

unfoldable pub set_state : ℕ → State → Connection → Connection
unfolding entered
set_state current state c = entered state (record c { state = state; state_begin_time = current })

signal_both : Connection → Connection
signal_both c = record c { data_input = true; data_output = true }

closed_from : ℕ → State → Connection → Connection × Bool
closed_from current active c = (set_state current ready_to_close c, true)
closed_from current peer_closed c = (set_state current terminating c, true)
closed_from current peer_terminating c = (set_state current terminated c, true)
closed_from current state c = (c, false)

-- `Close`; false is the error of a connection that is closed.
unfoldable pub close : ℕ → Connection → Connection × Bool
unfolding closed_from signal_both
close current c = closed_from current c.state (signal_both c)

-- What `Terminate` does in its goroutine, but for the closer of the socket.
unfoldable pub terminate : Connection → Connection
unfolding signal_both
terminate c = record (signal_both c) {
  sending_worker = Sending.release c.sending_worker;
  receiving_worker = record c.receiving_worker { left_over = none };
}

peer_closed_from : ℕ → State → Connection → Connection
peer_closed_from current ready_to_close c = set_state current terminating c
peer_closed_from current active c = set_state current peer_closed c
peer_closed_from current state c = c

unfoldable pub on_peer_closed : ℕ → Connection → Connection
unfolding peer_closed_from
on_peer_closed current c = peer_closed_from current c.state c

unfoldable pub handle_option : ℕ → ℕ → Connection → Connection
handle_option current opt c =
    if opt % 2 == segment_option_close then on_peer_closed current c else c

terminated_from : ℕ → State → Connection → Connection
terminated_from current active c = set_state current peer_terminating c
terminated_from current peer_closed c = set_state current peer_terminating c
terminated_from current ready_to_close c = set_state current terminating c
terminated_from current terminating c = set_state current terminated c
terminated_from current state c = c

-- The peer's `CommandTerminate`.
on_terminate : ℕ → Connection → Connection
unfolding terminated_from
on_terminate current c = terminated_from current c.state c

receive_data : DataSegment → Connection → Connection
receive_data seg c =
    let w = Receiving.process_segment seg c.receiving_worker in
    record c {
      receiving_worker = w;
      data_input = Receiving.is_data_available w || c.data_input;
      data_woken = true;
    }

with_sample : ℕ → Option ℕ → RoundTripInfo → RoundTripInfo
with_sample current none info = info
with_sample current (some rtt) info = update rtt current info

receive_ack : ℕ → AckSegment → Connection → Connection
unfolding with_sample
receive_ack current seg c =
    let (w, sample) = Sending.process_segment current seg c.round_trip.rto c.sending_worker in
    record c {
      sending_worker = w;
      round_trip = with_sample current sample c.round_trip;
      data_output = true;
      data_woken = true;
    }

abbrev pub command_terminate : ℕ
command_terminate = 2

abbrev pub command_ping : ℕ
command_ping = 3

signal_end : CmdOnlySegment → Connection → Connection
unfolding signal_both
signal_end seg c =
    if seg.option == segment_option_close || seg.cmd == command_terminate then signal_both c else c

receive_numbers : ℕ → CmdOnlySegment → Connection → Connection
receive_numbers current seg c = record c {
  sending_worker = Sending.process_receiving_next seg.receiving_next c.sending_worker;
  receiving_worker = Receiving.process_sending_next seg.sending_next c.receiving_worker;
  round_trip = update_peer_rto seg.peer_rto current c.round_trip;
}

receive_cmd : ℕ → CmdOnlySegment → Connection → Connection
unfolding receive_numbers signal_end on_terminate
receive_cmd current seg c =
    receive_numbers current seg
      (signal_end seg (if seg.cmd == command_terminate then on_terminate current c else c))

conversation_of : Segment → ℕ
conversation_of (data_segment s) = s.conv
conversation_of (ack_segment s) = s.conv
conversation_of (cmd_segment s) = s.conv

receive_one : ℕ → Segment → Connection → Connection
unfolding receive_cmd receive_ack receive_data
receive_one current (data_segment s) c = receive_data s (handle_option current s.option c)
receive_one current (ack_segment s) c = receive_ack current s (handle_option current s.option c)
receive_one current (cmd_segment s) c = receive_cmd current s (handle_option current s.option c)

-- The first segment of another conversation ends the loop.
receive_all : ℕ → List Segment → Connection → Connection
unfolding receive_one conversation_of
receive_all current [] c = c
receive_all current (seg ∷ segs) c =
    if conversation_of seg == c.conversation
    then receive_all current segs (receive_one current seg c)
    else c

unfoldable pub input : ℕ → List Segment → Connection → Connection
unfolding receive_all
input current segs c = receive_all current segs (record c { last_incoming_time = current })

-- `Ping`: the segment that goes out.
unfoldable pub ping : ℕ → ℕ → Connection → Connection × List Segment
ping current cmd c = (
  record c { last_ping_time = current },
  cmd_segment (record {
    conv = c.conversation;
    cmd = cmd;
    option = if is c.state ready_to_close then segment_option_close else 0;
    sending_next = c.sending_worker.first_unacknowledged;
    receiving_next = c.receiving_worker.next_number;
    peer_rto = c.round_trip.rto;
  })
      ∷ [],
)

ping_if : Bool → ℕ → Connection × List Segment → Connection × List Segment
ping_if false current (c, out) = (c, out)
ping_if true current (c, out) = let (c', more) = ping current command_ping c in (c', out ++ more)

data_segments : List DataSegment → List Segment
data_segments [] = []
data_segments (seg ∷ segs) = data_segment seg ∷ data_segments segs

ack_segments : List AckSegment → List Segment
ack_segments [] = []
ack_segments (seg ∷ segs) = ack_segment seg ∷ ack_segments segs

-- The two workers' flushes.
flush_workers : ℕ → Connection → Connection × List Segment
unfolding ping_if data_segments ack_segments
flush_workers current c =
    let closing = is c.state ready_to_close in
    let (receiving, acks) =
      Receiving.flush_acks c.conversation closing current c.round_trip.rto c.receiving_worker in
    let (sending, segs, updated) =
      Sending.flush c.conversation closing current c.congestion c.in_flight_size c.round_trip.rto
        c.sending_worker in
    ping_if updated current (
      record c { receiving_worker = receiving; sending_worker = sending },
      ack_segments acks ++ data_segments segs,
    )

ping_when_old : ℕ → Connection × List Segment → Connection × List Segment
unfolding ping_if
ping_when_old current (c, out) =
    ping_if (leb 3000 (sub32 current c.last_ping_time)) current (c, out)

idle_closed : ℕ → Connection → Connection
idle_closed current c =
    if is c.state active && leb 30000 (sub32 current c.last_incoming_time)
    then (close current c).0
    else c

drained_closed : ℕ → Connection → Connection
drained_closed current c =
    if is c.state ready_to_close && Sending.is_empty c.sending_worker
    then set_state current terminating c
    else c

-- In `StateTerminating`, for more than 8 seconds at last.
unfoldable pub flush_terminating : ℕ → Connection → Connection × List Segment
flush_terminating current c =
    let (c', out) = ping current command_terminate c in
    (
      (if ltb 8000 (sub32 current c'.state_begin_time)
          then set_state current terminated c'
          else c'),
      out,
    )

-- A state that has lasted for longer than a limit goes over to `StateTerminating`.
timed_out : State → ℕ → ℕ → Connection → Connection
timed_out state limit current c =
    if is c.state state && ltb limit (sub32 current c.state_begin_time)
    then set_state current terminating c
    else c

flush_open : ℕ → Connection → Connection × List Segment
unfolding timed_out ping_when_old flush_workers
flush_open current c = ping_when_old current (
    flush_workers current
      (timed_out ready_to_close 15000 current (timed_out peer_terminating 4000 current c)))

flush_live : ℕ → Connection → Connection × List Segment
unfolding flush_open flush_terminating
flush_live current c =
    if is c.state terminating then flush_terminating current c else flush_open current c

unfoldable pub flush : ℕ → Connection → Connection × List Segment
unfolding flush_live drained_closed idle_closed
flush current c =
    if is c.state terminated
    then (c, [])
    else flush_live current (drained_closed current (idle_closed current c))

-- How a call of the reader or the writer comes back, or that it waits.
pub data Outcome (A : Type 0) : Type 0 where
  done : A → Outcome A
  refused : Outcome A
  waits : A → Outcome A

cannot_read : State → Bool
cannot_read s = is s ready_to_close || is s terminating || is s terminated

-- A round of the loop of `ReadMultiBuffer`; refused is `io.EOF`.
unfoldable pub read_multi_buffer : Connection → Connection × Outcome MultiBuffer
unfolding cannot_read
read_multi_buffer c =
    if cannot_read c.state
    then (c, refused)
    else let (w, mb) = Receiving.read_multi_buffer c.receiving_worker in
      if not (MultiBuffer.is_empty mb)
      then (record c { receiving_worker = w; data_woken = true }, done mb)
      else if is c.state peer_terminating
      then (record c { receiving_worker = w }, refused)
      else (record c { receiving_worker = w }, waits [])

-- A round of the loop of `Read` into `n` bytes.
unfoldable pub read : ℕ → Connection → Connection × Outcome Bytes
unfolding cannot_read
read n c =
    if cannot_read c.state
    then (c, refused)
    else let (w, got) = Receiving.read n c.receiving_worker in
      if ltb 0 (length got)
      then (record c { receiving_worker = w; data_woken = true }, done got)
      else (record c { receiving_worker = w }, waits [])

-- The largest payload: a buffer's room or what the packets leave.
payload_room : Connection → ℕ
payload_room c = if ltb 8192 c.mss then 8192 else c.mss

pushed_to :
    Connection
    → Bytes
    → SendingWorker × Bool
    → (Connection → Connection × Outcome Bytes)
    → Connection × Outcome Bytes
pushed_to c b (w, true) later = later (record c { sending_worker = w; data_woken = true })
pushed_to c b (w, false) later = (c, waits b)

-- The inner loop of `writeMultiBufferInternal`, with fuel for the bytes: refused is `io.ErrClosedPipe`,
-- and a writer waits with the bytes that the window has no room for.
write_loop : ℕ → Bytes → Connection → Connection × Outcome Bytes
unfolding pushed_to payload_room
write_loop zero b c = (c, waits b)
write_loop (suc fuel) b c =
    if not (is c.state active)
    then (c, refused)
    else if length (take (payload_room c) b) == 0
    then (c, done [])
    else pushed_to c b (Sending.push (take (payload_room c) b) c.sending_worker)
        (λ c'. write_loop fuel (drop (payload_room c) b) c')

-- What a `Write` does before it waits, and again after each wait.
unfoldable pub write : Bytes → Connection → Connection × Outcome Bytes
unfolding write_loop
write b c = write_loop (suc (length b)) b c
