-- ===== src/Kcp/Link.antt =====
-- A sender and a receiver of transport/internet/kcp (sending.go, receiving.go) with a network between
-- them that loses, repeats, delays and reorders what the sender writes (segment.go).
use reflex.Prelude.{
  ℕ, ◌+◌, ◌^◌, ◌≤◌, ◌<◌, ◌≡◌, sym, ap, ◌∙◌, Option, none, some, List, [], ◌∷◌, ◌++◌, All, arith,
}
use mathlib.Core.Path.{subst}
use reflex.Prelude.Bytes.{Bytes}
use reflex.Kcp.Segment.{
  Segment, data_segment, ack_segment, cmd_segment, DataSegment, serialize, read_segment,
}
use reflex.Kcp.Segment.RoundTrip.{FitsSegment, read_segment-serialize}
use reflex.Kcp.Receiving.{ReceivingWorker}
use reflex.Kcp.Receiving.Order.{stream}
use reflex.Kcp.Receiving.Stream.{Arrives, Run, left, worker-Delivered}
use reflex.Kcp.Sending.{SendingWorker}
use reflex.Kcp.Sending.History.{Held, SendRun, run-Genuine}

-- A segment that is read from the bytes of one that stands among those that were written. The receiver
-- has taken out `m` segments, and their numbers have not wrapped around.
abbrev pub FromNetwork : List DataSegment → ℕ → ℕ → DataSegment → Type 0
FromNetwork out size m seg =
    (before : List DataSegment) × (s : DataSegment) × (after : List DataSegment) × (out
      ≡ before ++ (s ∷ after))
    × FitsSegment (data_segment s)
    × (rest : Bytes) × (read_segment (serialize (data_segment s) ++ rest)
        ≡ some (data_segment seg, rest))
    × (m + size ≤ 2 ^ 32)

All_at :
    (P : DataSegment → Type 0) (before after : List DataSegment) (s : DataSegment)
    → All P (before ++ (s ∷ after))
    → P s
All_at P [] after s (h, hs) = h
All_at P (b ∷ before) after s (h, hs) = All_at P before after s hs

data_of : Option (Segment × Bytes) → ℕ × Bytes
data_of none = (0, [])
data_of (some (data_segment s, rest)) = (s.number, s.payload)
data_of (some (ack_segment s, rest)) = (0, [])
data_of (some (cmd_segment s, rest)) = (0, [])

same_data :
    (s seg : DataSegment) (rest : Bytes)
    → FitsSegment (data_segment s)
    → read_segment (serialize (data_segment s) ++ rest) ≡ some (data_segment seg, rest)
    → ◌≡◌ {A = ℕ × Bytes} (seg.number, seg.payload) (s.number, s.payload)
unfolding data_of
same_data s seg rest fits e = ap data_of (sym e ∙ read_segment-serialize (data_segment s) rest fits)

module _ (sent : ℕ → Bytes) (size : ℕ) (small : size < 2 ^ 32) where
  network-Arrives :
      (out : List DataSegment) (n : ℕ)
      → All (Held sent n) out
      → n ≤ 2 ^ 32
      → (m : ℕ) (seg : DataSegment) → FromNetwork out size m seg
      → (i : ℕ) × Arrives sent size m i seg
  network-Arrives out n held few m seg (before, s, after, at, fits, rest, e, room) =
      let same = same_data s seg rest fits e in
      let (i, low, number, load) =
        All_at (Held sent n) before after s (subst (All (Held sent n)) at held) in
      (
        i,
        (
          omega (arith, low, few),
          omega (arith, room),
          ap (λ (p : ℕ × Bytes). p.0) same ∙ number,
          ap (λ (p : ℕ × Bytes). p.1) same ∙ load,
        ),
      )

  -- Whatever the network does with the segments that a sender has written, by loss, repetition,
  -- delay and reordering, what the reader has got, with what a `Read` has left, is the first
  -- payloads that the sender accepted, each once and in order: as many as the receiver has taken
  -- out. The sender has accepted 2^32 payloads at most, and the numbers of the receiver's window
  -- have not wrapped around.
  pub link-stream :
      (in_flight_size buffer_size n m : ℕ) (sender : SendingWorker) (out : List DataSegment)
      (receiver : ReceivingWorker) (got : Bytes)
      → SendRun sent in_flight_size buffer_size sender n out
      → n ≤ 2 ^ 32
      → Run (FromNetwork out size) size receiver m got
      → got ++ left receiver.left_over ≡ stream sent size m
  link-stream in_flight_size buffer_size n m sender out receiver got sends few receives =
      (worker-Delivered sent size small (FromNetwork out size)
        (network-Arrives out n (run-Genuine sent buffer_size in_flight_size sender n out sends).1
          few)
        receiver m got receives).1
