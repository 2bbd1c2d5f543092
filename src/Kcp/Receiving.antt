-- ===== src/Kcp/Receiving.antt =====
-- transport/internet/kcp/receiving.go: the window that puts received segments in order, and the worker
-- around it. Each call of the worker holds its lock.
pub mod Order
pub mod Stream
pub mod Row
use reflex.Prelude.{
  ℕ, zero, suc, ◌+◌, ◌-◌, ◌%◌, ◌^◌, Bool, true, false, not, Option, none, some, List, [], ◌∷◌, ◌++◌,
  length, ltb, leb, ◌==◌, if◌then◌else◌,
}
use reflex.Prelude.Bytes.{Bytes}
use reflex.MultiBuffer.{Buffer, MultiBuffer, is_empty, split_bytes}
use reflex.Kcp.Words.{add32, sub32}
use reflex.Kcp.Segment.{DataSegment, AckSegment, segment_option_close, buffer_size}
use reflex.Kcp.Acks.{AckList, new_ack_list, add, clear, flush}

-- The map of a `ReceivingWindow`, from numbers to segments.
abbrev pub Cache : Type 0
Cache = List (ℕ × DataSegment)

unfoldable pub has : ℕ → Cache → Bool
has id [] = false
has id ((k, seg) ∷ cache) = if k == id then true else has id cache

-- `Set`: the first segment of a number stays.
unfoldable pub set : ℕ → DataSegment → Cache → Cache × Bool
set id seg cache = if has id cache then (cache, false) else ((id, seg) ∷ cache, true)

unfoldable pub find : ℕ → Cache → Option DataSegment
find id [] = none
find id ((k, seg) ∷ cache) = if k == id then some seg else find id cache

unfoldable pub without : ℕ → Cache → Cache
without id [] = []
without id ((k, seg) ∷ cache) = if k == id then without id cache else (k, seg) ∷ without id cache

-- `Remove`.
unfoldable pub remove : ℕ → Cache → Cache × Option DataSegment
unfolding find without
remove id cache = (without id cache, find id cache)

-- `left_over` is none for the nil slice.
pub record ReceivingWorker : Type 0 where
  pub left_over : Option MultiBuffer
  pub window : Cache
  pub ack_list : AckList
  pub next_number : ℕ
  pub window_size : ℕ

-- `windowSize` is what the connection's settings give.
abbrev pub new_receiving_worker : ℕ → ReceivingWorker
new_receiving_worker window_size = record {
  left_over = none;
  window = [];
  ack_list = new_ack_list;
  next_number = 0;
  window_size = window_size;
}

unfoldable pub process_sending_next : ℕ → ReceivingWorker → ReceivingWorker
process_sending_next number w = record w { ack_list = clear number w.ack_list }

-- A segment in the window is acknowledged, also if it has come before.
unfoldable pub process_segment : DataSegment → ReceivingWorker → ReceivingWorker
process_segment seg w = if leb w.window_size (sub32 seg.number w.next_number) then w else record w {
  ack_list = add seg.number seg.timestamp (clear seg.sending_next w.ack_list);
  window = (set seg.number seg w.window).0;
}

-- The buffer that `Detach` takes off a segment: a new one that was filled with the payload.
unfoldable pub detached : DataSegment → Buffer
detached seg = record {
  start = 0;
  content = seg.payload;
  available = buffer_size - length seg.payload;
}

next_segment :
    ReceivingWorker
    → Cache × Option DataSegment
    → (ReceivingWorker → ReceivingWorker × MultiBuffer)
    → ReceivingWorker × MultiBuffer
next_segment w (cache, none) later = (record w { window = cache }, [])
next_segment w (cache, some seg) later =
    let (w', mb) = later (record w { window = cache; next_number = add32 w.next_number 1 }) in
    (w', detached seg ∷ mb)

-- The loop of `ReadMultiBuffer`, with fuel for the window: each round takes a segment out of it.
pub in_order : ℕ → ReceivingWorker → ReceivingWorker × MultiBuffer
unfolding next_segment
in_order zero w = (w, [])
in_order (suc fuel) w = next_segment w (remove w.next_number w.window) (λ w'. in_order fuel w')

-- What a `Read` has left, or the segments that are next.
unfoldable pub next_buffers : ReceivingWorker → Option MultiBuffer → ReceivingWorker × MultiBuffer
unfolding in_order
next_buffers w (some mb) = (record w { left_over = none }, mb)
next_buffers w none = in_order (suc (length w.window)) w

unfoldable pub read_multi_buffer : ReceivingWorker → ReceivingWorker × MultiBuffer
unfolding next_buffers
read_multi_buffer w = next_buffers w w.left_over

keep_rest : ReceivingWorker → MultiBuffer × Bytes → ReceivingWorker × Bytes
keep_rest w (mb, got) = (if is_empty mb then w else record w { left_over = some mb }, got)

read_from : ℕ → ReceivingWorker × MultiBuffer → ReceivingWorker × Bytes
unfolding keep_rest
read_from n (w, mb) = if is_empty mb then (w, []) else keep_rest w (split_bytes mb n)

-- `Read` into `n` bytes.
unfoldable pub read : ℕ → ReceivingWorker → ReceivingWorker × Bytes
unfolding read_from
read n w = read_from n (read_multi_buffer w)

unfoldable pub is_data_available : ReceivingWorker → Bool
is_data_available w = has w.next_number w.window

-- `Write`: a segment of the flush as it goes out. `closing` says whether the connection is in
-- `StateReadyToClose`.
unfoldable pub write : ℕ → Bool → ReceivingWorker → AckSegment → AckSegment
write conv closing w seg = record seg {
  conv = conv;
  receiving_next = w.next_number;
  receiving_window = add32 w.next_number w.window_size;
  option = if closing then segment_option_close else 0;
}

write_all : ℕ → Bool → ReceivingWorker → List AckSegment → List AckSegment
write_all conv closing w [] = []
write_all conv closing w (seg ∷ segs) = write conv closing w seg ∷ write_all conv closing w segs

-- `Flush` at a time, with the connection's timeout: the segments that go out.
unfoldable pub flush_acks : ℕ → Bool → ℕ → ℕ → ReceivingWorker → ReceivingWorker × List AckSegment
unfolding write_all
flush_acks conv closing current rto w =
    let (ack_list, segs) = flush current rto w.ack_list in
    (record w { ack_list = ack_list }, write_all conv closing w segs)

unfoldable pub update_necessary : ReceivingWorker → Bool
update_necessary w = not (length w.ack_list.entries == 0)
