-- ===== src/Kcp/Sending/Control.antt =====
-- How much a flush lets out, and how the congestion window moves.
use reflex.Prelude.{
  ℕ, zero, suc, ◌-◌, ◌*◌, ◌^◌, ◌≤◌, ◌<◌, Bool, true, false, not, ◌||◌, Option, none, some, List, [],
  ◌∷◌, map, length, take, either_branch, ◌==◌, if◌then◌else◌, arith,
}
use reflex.Kcp.Segment.{DataSegment}
use reflex.Kcp.Sending.{
  SendingWorker, flush_window, write, on_packet_loss, report_loss, adjusted, bounded, flush_limit,
  flush, no_segments, sent_again,
}
use reflex.Kcp.Sending.Flush.{due, flush_window-written}

module _ (in_flight_size : ℕ) (low : 8 ≤ in_flight_size) (high : in_flight_size < 2 ^ 31) where
  -- The congestion window lies between 8 and twice the size in flight.
  abbrev pub Controlled : SendingWorker → Type 0
  Controlled w = (8 ≤ w.control_window) × (w.control_window ≤ 2 * in_flight_size)

  bounded_lem :
      (n : ℕ) → (8 ≤ bounded in_flight_size n) × (bounded in_flight_size n ≤ 2 * in_flight_size)
  unfolding bounded
  bounded_lem n = (ground (arith, low, high), ground (arith, low, high))

  report-Controlled :
      (congestion : Bool) (rto : ℕ) (rate : Option ℕ) (w : SendingWorker)
      → Controlled w
      → Controlled (report_loss congestion in_flight_size rto rate w)
  unfolding report_loss on_packet_loss
  report-Controlled congestion rto none w c = c
  report-Controlled congestion rto (some rate) w c =
      either_branch Controlled (not congestion || rto == 0) w
        (record w { control_window = bounded in_flight_size (adjusted rate w.control_window) })
        (λ e. c) (λ e. bounded_lem (adjusted rate w.control_window))

flush_limit_le :
    (congestion : Bool) (in_flight_size : ℕ) (w : SendingWorker)
    → flush_limit congestion in_flight_size w ≤ 20 * in_flight_size
unfolding flush_limit
flush_limit_le true in_flight_size w = ground arith
flush_limit_le false in_flight_size w = ground arith

length-map-take :
    (f : DataSegment → DataSegment) (k : ℕ) (segs : List DataSegment)
    → length (map f (take k segs)) ≤ k
length-map-take f zero segs = omega arith
length-map-take f (suc k) [] = omega arith
length-map-take f (suc k) (seg ∷ segs) = omega (arith, length-map-take f k segs)

window_limit :
    (current rto m : ℕ) (w : SendingWorker) (stamp : DataSegment → DataSegment)
    → length w.window.cache < 2 ^ 32
    → length (flush_window current rto m stamp w.window).1 ≤ suc (m - 1)
window_limit current rto m w stamp room =
    rw (flush_window-written current rto m stamp w.window room)
      (length-map-take (sent_again current rto stamp) (suc (m - 1)) (due current w.window.cache))

abbrev pub Limited : ℕ → SendingWorker × List DataSegment × Bool → Type 0
Limited in_flight_size (w, written, updated) =
    (8 ≤ w.control_window)
    × (w.control_window ≤ 2 * in_flight_size)
    × (length written ≤ suc (20 * in_flight_size - 1))

-- When the size in flight lies from 8 below 2^31, a flush of less than 2^32 segments keeps the
-- congestion window between 8 and twice that size, and writes at most twenty times that size.
pub flush-Limited :
    (conv : ℕ) (closing : Bool) (current : ℕ) (congestion : Bool) (in_flight_size rto : ℕ)
    (w : SendingWorker) (low : 8 ≤ in_flight_size) (high : in_flight_size < 2 ^ 31)
    → Controlled in_flight_size low high w
    → length w.window.cache < 2 ^ 32
    → Limited in_flight_size (flush conv closing current congestion in_flight_size rto w)
unfolding flush
flush-Limited conv closing current congestion in_flight_size rto w low high c room =
    let m = flush_limit congestion in_flight_size w in
    let (sw, segs, rate) = flush_window current rto m (write conv closing w) w.window in
    let quiet : SendingWorker × List DataSegment × Bool =
      (record w { first_unacknowledged_updated = false }, [], w.first_unacknowledged_updated) in
    let busy : SendingWorker × List DataSegment × Bool = (
      record (report_loss congestion in_flight_size rto rate (record w { window = sw })) {
        first_unacknowledged_updated = false;
      },
      segs,
      false,
    ) in
    let (at_least, at_most) =
      report-Controlled in_flight_size low high congestion rto rate (record w { window = sw }) c in
    either_branch (Limited in_flight_size) w.closed (w, [], false)
      (if no_segments w.window then quiet else busy) (λ e. (c.0, c.1, omega arith))
      (λ e.
        either_branch (Limited in_flight_size) (no_segments w.window) quiet busy
          (λ e'. (c.0, c.1, omega arith))
          (λ e'. (
            at_least,
            at_most,
            omega (
              arith,
              window_limit current rto m w (write conv closing w) room,
              flush_limit_le congestion in_flight_size w,
            ),
          )))
