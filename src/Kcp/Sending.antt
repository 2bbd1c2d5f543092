-- ===== src/Kcp/Sending.antt =====
-- transport/internet/kcp/sending.go: the window of segments that wait for an acknowledgement, and the
-- worker around it. Each call of the worker holds its lock. What the worker asks of its connection is
-- an argument: the settings, the timeout, the number of the conversation and whether it is closing.
pub mod Window
pub mod Flush
pub mod History
pub mod Control
use reflex.Prelude.{
  ℕ, zero, suc, ◌+◌, ◌-◌, ◌*◌, ◌/◌, ◌%◌, ◌^◌, Bool, true, false, not, ◌&&◌, ◌||◌, Option, none,
  some, List, [], ◌∷◌, ◌++◌, length, ltb, leb, ◌==◌, if◌then◌else◌,
}
use reflex.Prelude.Bytes.{Bytes}
use reflex.Kcp.Words.{add32, sub32, mul32}
use reflex.Kcp.Segment.{DataSegment, AckSegment, segment_option_close}

-- `cache` is a linked list of pointers, so that what a visitor changes stays in the window.
pub record SendingWindow : Type 0 where
  pub cache : List DataSegment
  pub total_in_flight_size : ℕ

abbrev pub new_sending_window : SendingWindow
new_sending_window = record { cache = []; total_in_flight_size = 0 }

abbrev pub no_segments : SendingWindow → Bool
no_segments sw = length sw.cache == 0

-- `Push` of the window.
unfoldable pub push_back : ℕ → Bytes → SendingWindow → SendingWindow
push_back number b sw = record sw {
  cache =
      sw.cache
      ++ (record {
        conv = 0;
        option = 0;
        timestamp = 0;
        number = number;
        sending_next = 0;
        payload = b;
        timeout = 0;
        transmit = 0;
      }
          ∷ []);
}

unfoldable pub clear_below : ℕ → List DataSegment → List DataSegment
clear_below una [] = []
clear_below una (seg ∷ segs) = if leb una seg.number then seg ∷ segs else clear_below una segs

-- `Clear` of the window.
abbrev pub clear : ℕ → SendingWindow → SendingWindow
clear una sw = record sw { cache = clear_below una sw.cache }

module _ {S : Type 0} where
  unfoldable pub go_on :
      DataSegment × S × Bool → List DataSegment → (S → List DataSegment × S) → List DataSegment × S
  go_on (seg, s, true) segs later = let (segs', s') = later s in (seg ∷ segs', s')
  go_on (seg, s, false) segs later = (seg ∷ segs, s)

  -- `Visit`, with the variables that the visitor changes.
  unfoldable pub visit :
      (DataSegment → S → DataSegment × S × Bool) → List DataSegment → S → List DataSegment × S
  visit visitor [] s = ([], s)
  visit visitor (seg ∷ segs) s = go_on (visitor seg s) segs (λ s'. visit visitor segs s')

-- The visitor of `HandleFastAck`.
fast_ack : ℕ → ℕ → DataSegment → Unit {0} → DataSegment × Unit {0} × Bool
fast_ack number rto seg s =
    if number == seg.number || ltb 0x7FFFFFFF (sub32 number seg.number) then (seg, tt, false) else (
      (if ltb 0 seg.transmit && ltb (rto / 3) seg.timeout
          then record seg { timeout = seg.timeout - rto / 3 }
          else seg),
      tt,
      true,
    )

handle_fast_ack : ℕ → ℕ → SendingWindow → SendingWindow
unfolding visit fast_ack
handle_fast_ack number rto sw = record sw { cache = (visit (fast_ack number rto) sw.cache tt).0 }

-- What the visitor of `Flush` changes, with the segments that are written.
pub record Flushing : Type 0 where
  pub total : ℕ
  pub lost : ℕ
  pub in_flight : ℕ
  pub written : List DataSegment

unfoldable pub is_waiting : ℕ → DataSegment → Bool
is_waiting current seg = leb 0x7FFFFFFF (sub32 current seg.timeout)

-- A segment as it goes out; `write` is what the worker's `Write` sets in it.
unfoldable pub sent_again : ℕ → ℕ → (DataSegment → DataSegment) → DataSegment → DataSegment
sent_again current rto write seg = write (record seg {
  timeout = add32 current rto;
  timestamp = current;
  transmit = add32 seg.transmit 1;
})

flush_one :
    ℕ → ℕ → ℕ → (DataSegment → DataSegment) → DataSegment → Flushing → DataSegment × Flushing × Bool
unfolding is_waiting sent_again
flush_one current rto max_in_flight write seg f =
    if is_waiting current seg
    then (seg, f, true)
    else let first = seg.transmit == 0 in
      let sent = sent_again current rto write seg in
      (
        sent,
        record {
          total = if first then add32 f.total 1 else f.total;
          lost = if first then f.lost else add32 f.lost 1;
          in_flight = add32 f.in_flight 1;
          written = f.written ++ (sent ∷ []);
        },
        ltb (add32 f.in_flight 1) max_in_flight,
      )

-- The rate that `onPacketLoss` is called with, if it is.
loss_rate : Flushing → Option ℕ
loss_rate f =
    if ltb 0 f.in_flight && not (f.total == 0) then some (mul32 f.lost 100 / f.total) else none

window_of : List DataSegment × Flushing → SendingWindow × List DataSegment × Option ℕ
unfolding loss_rate
window_of (cache, f) =
    (record { cache = cache; total_in_flight_size = f.total }, f.written, loss_rate f)

-- `Flush` of the window: the segments that are written and the rate of those that were lost.
unfoldable pub flush_window :
    ℕ
    → ℕ
    → ℕ
    → (DataSegment → DataSegment)
    → SendingWindow
    → SendingWindow × List DataSegment × Option ℕ
unfolding window_of visit flush_one
flush_window current rto max_in_flight write sw = window_of (
    visit (flush_one current rto max_in_flight write) sw.cache
      (record { total = sw.total_in_flight_size; lost = 0; in_flight = 0; written = [] }))

cons_to : DataSegment → List DataSegment × Bool → List DataSegment × Bool
cons_to seg (segs, removed) = (seg ∷ segs, removed)

remove_from : ℕ → List DataSegment → List DataSegment × Bool
unfolding cons_to
remove_from number [] = ([], false)
remove_from number (seg ∷ segs) =
    if ltb number seg.number
    then (seg ∷ segs, false)
    else if seg.number == number
    then (segs, true)
    else cons_to seg (remove_from number segs)

-- `Remove` of the window.
unfoldable pub remove : ℕ → SendingWindow → SendingWindow × Bool
unfolding remove_from
remove number sw =
    let (cache, removed) = remove_from number sw.cache in
    (
      record {
        cache = cache;
        total_in_flight_size =
            if removed && ltb 0 sw.total_in_flight_size
            then sw.total_in_flight_size - 1
            else sw.total_in_flight_size;
      },
      removed,
    )

-- `fastResend` is set and never read.
pub record SendingWorker : Type 0 where
  pub window : SendingWindow
  pub first_unacknowledged : ℕ
  pub next_number : ℕ
  pub remote_next_number : ℕ
  pub control_window : ℕ
  pub window_size : ℕ
  pub first_unacknowledged_updated : Bool
  pub closed : Bool

-- With the two sizes that the settings give.
abbrev pub new_sending_worker : ℕ → ℕ → SendingWorker
new_sending_worker in_flight_size buffer_size = record {
  window = new_sending_window;
  first_unacknowledged = 0;
  next_number = 0;
  remote_next_number = 32;
  control_window = in_flight_size;
  window_size = buffer_size;
  first_unacknowledged_updated = false;
  closed = false;
}

unfoldable pub release : SendingWorker → SendingWorker
release w = record w { window = record w.window { cache = [] }; closed = true }

first_of : List DataSegment → ℕ → ℕ
first_of [] next = next
first_of (seg ∷ segs) next = seg.number

unfoldable pub find_first_unacknowledged : SendingWorker → SendingWorker
unfolding first_of
find_first_unacknowledged w =
    let first = first_of w.window.cache w.next_number in
    record w {
      first_unacknowledged = first;
      first_unacknowledged_updated =
          not (w.first_unacknowledged == first) || w.first_unacknowledged_updated;
    }

-- `ProcessReceivingNext`, which only takes the lock around `ProcessReceivingNextWithoutLock`.
unfoldable pub process_receiving_next : ℕ → SendingWorker → SendingWorker
process_receiving_next next_number w =
    find_first_unacknowledged (record w { window = clear next_number w.window })

removed_from : SendingWorker → SendingWindow × Bool → SendingWorker × Bool
removed_from w (sw, true) = (find_first_unacknowledged (record w { window = sw }), true)
removed_from w (sw, false) = (record w { window = sw }, false)

unfoldable pub process_ack : ℕ → SendingWorker → SendingWorker × Bool
unfolding removed_from
process_ack number w =
    if ltb 0x7FFFFFFF (sub32 number w.first_unacknowledged)
      || ltb (sub32 number w.next_number) 0x7FFFFFFF
    then (w, false)
    else removed_from w (remove number w.window)

-- What the loop over the numbers of a segment carries.
pub record Acking : Type 0 where
  pub worker : SendingWorker
  pub maxack : ℕ
  pub maxack_removed : Bool

ack_one : ℕ → Acking → Acking
ack_one number a =
    let (w, removed) = process_ack number a.worker in
    if ltb a.maxack number
    then record { worker = w; maxack = number; maxack_removed = removed }
    else record a { worker = w }

ack_all : List ℕ → Acking → Acking
unfolding ack_one
ack_all [] a = a
ack_all (number ∷ numbers) a = ack_all numbers (ack_one number a)

-- The sample of the round trip that the connection gets, if any, comes second.
acked : ℕ → AckSegment → ℕ → Acking → SendingWorker × Option ℕ
unfolding handle_fast_ack
acked current seg rto a =
    if a.maxack_removed
    then (
      record a.worker { window = handle_fast_ack a.maxack rto a.worker.window },
      (if ltb (sub32 current seg.timestamp) 10000
          then some (sub32 current seg.timestamp)
          else none),
    )
    else (a.worker, none)

raise_remote : AckSegment → SendingWorker → SendingWorker
raise_remote seg w =
    if ltb w.remote_next_number seg.receiving_window
    then record w { remote_next_number = seg.receiving_window }
    else w

unfoldable pub process_segment : ℕ → AckSegment → ℕ → SendingWorker → SendingWorker × Option ℕ
unfolding acked ack_all raise_remote
process_segment current seg rto w =
    if w.closed
    then (w, none)
    else acked current seg rto (
        ack_all seg.number_list (record {
          worker = process_receiving_next seg.receiving_next (raise_remote seg w);
          maxack = 0;
          maxack_removed = false;
        }))

-- `Push`: the window takes one segment more than its size.
unfoldable pub push : Bytes → SendingWorker → SendingWorker × Bool
push b w =
    if w.closed
    then (w, false)
    else if ltb w.window_size (length w.window.cache)
    then (w, false)
    else (
      record w { window = push_back w.next_number b w.window; next_number = add32 w.next_number 1 },
      true,
    )

-- What `Write` sets in a segment that goes out.
unfoldable pub write : ℕ → Bool → SendingWorker → DataSegment → DataSegment
write conv closing w seg = record seg {
  conv = conv;
  sending_next = w.first_unacknowledged;
  option = if closing then segment_option_close else 0;
}

adjusted : ℕ → ℕ → ℕ
adjusted rate n = if leb 15 rate then mul32 3 n / 4 else if leb rate 5 then add32 n (n / 4) else n

bounded : ℕ → ℕ → ℕ
bounded in_flight_size n =
    let m = if ltb n 16 then 16 else n in
    if ltb (mul32 2 in_flight_size) m then mul32 2 in_flight_size else m

unfoldable pub on_packet_loss : Bool → ℕ → ℕ → ℕ → SendingWorker → SendingWorker
unfolding bounded adjusted
on_packet_loss congestion in_flight_size rto rate w =
    if not congestion || rto == 0
    then w
    else record w { control_window = bounded in_flight_size (adjusted rate w.control_window) }

-- The number of segments that a flush may write.
flush_limit : Bool → ℕ → SendingWorker → ℕ
flush_limit congestion in_flight_size w =
    let remote = sub32 w.remote_next_number w.first_unacknowledged in
    let cwnd = if ltb remote in_flight_size then remote else in_flight_size in
    mul32 (if congestion && ltb w.control_window cwnd then w.control_window else cwnd) 20

report_loss : Bool → ℕ → ℕ → Option ℕ → SendingWorker → SendingWorker
unfolding on_packet_loss
report_loss congestion in_flight_size rto none w = w
report_loss congestion in_flight_size rto (some rate) w =
    on_packet_loss congestion in_flight_size rto rate w

-- `Flush`: the segments that go out, and whether the connection shall ping.
unfoldable pub flush :
    ℕ → Bool → ℕ → Bool → ℕ → ℕ → SendingWorker → SendingWorker × List DataSegment × Bool
unfolding flush_window report_loss flush_limit
flush conv closing current congestion in_flight_size rto w =
    if w.closed
    then (w, [], false)
    else if no_segments w.window
    then (record w { first_unacknowledged_updated = false }, [], w.first_unacknowledged_updated)
    else let (sw, written, rate) =
        flush_window current rto (flush_limit congestion in_flight_size w) (write conv closing w)
          w.window in
      (
        record (report_loss congestion in_flight_size rto rate (record w { window = sw })) {
          first_unacknowledged_updated = false;
        },
        written,
        false,
      )

unfoldable pub close_write : SendingWorker → SendingWorker
close_write w = record w { window = clear 0xFFFFFFFF w.window }

unfoldable pub is_empty : SendingWorker → Bool
is_empty w = no_segments w.window

unfoldable pub update_necessary : SendingWorker → Bool
update_necessary w = not (is_empty w)
