-- ===== src/Kcp/Receiving/Stream.antt =====
-- What the reader of a connection gets, whatever the order in which segments arrive.
use reflex.Prelude.{
  ℕ, suc, ◌+◌, ◌%◌, ◌^◌, ◌≤◌, ◌<◌, ◌≡◌, refl, sym, ap, ◌∙◌, inl, inr, Bool, true, false, Bool-cases,
  Option, none, some, [], ◌∷◌, ◌++◌, length, All, leb, ◌==◌, arith, append_assoc, append-nil,
}
use reflex.Prelude.Bytes.{Bytes}
use reflex.MultiBuffer.{MultiBuffer, bytes_of, is_empty, split_bytes, len}
use reflex.MultiBuffer.Content.{split_bytes_lem}
use reflex.Kcp.Words.{sub32}
use reflex.Kcp.Segment.{DataSegment}
use reflex.Kcp.Receiving.{
  Cache, has, set, ReceivingWorker, new_receiving_worker, next_buffers, process_sending_next,
  process_segment, in_order, read_multi_buffer, keep_rest, read_from, read, flush_acks,
}
use reflex.Kcp.Receiving.Order.{Stored, stream, Ordered, in_order-Taken, add_nothing}

-- How many segments a read takes out of the window.
unfoldable pub taken_from : ReceivingWorker → Option MultiBuffer → ℕ
taken_from w (some mb) = 0
taken_from w none = length (next_buffers w none).1

abbrev pub taken : ReceivingWorker → ℕ
taken w = taken_from w w.left_over

-- A number on the wire is that of the sender's i-th segment. Segments come late or early by less than
-- what the numbers can tell apart.
abbrev pub Arrives : (ℕ → Bytes) → ℕ → ℕ → ℕ → DataSegment → Type 0
Arrives sent size n i seg =
    (i < n + 2 ^ 32) × (n + size ≤ i + 2 ^ 32) × (seg.number ≡ i % 2 ^ 32) × (seg.payload ≡ sent i)

-- The runs of a worker: its calls in any order, with the number of segments that it has taken out
-- and the bytes that its reader has got. `Ok n` says which segments come when `n` have been taken out.
pub data Run (Ok : ℕ → DataSegment → Type 0) (size : ℕ) : ReceivingWorker → ℕ → Bytes → Type 0 where
  start : Run Ok size (new_receiving_worker size) 0 []
  arrive :
      {w : ReceivingWorker} {n : ℕ} {out : Bytes} (seg : DataSegment)
      → Run Ok size w n out
      → Ok n seg
      → Run Ok size (process_segment seg w) n out
  hear :
      {w : ReceivingWorker} {n : ℕ} {out : Bytes} (number : ℕ)
      → Run Ok size w n out
      → Run Ok size (process_sending_next number w) n out
  acknowledge :
      {w : ReceivingWorker} {n : ℕ} {out : Bytes} (conv : ℕ) (closing : Bool) (current rto : ℕ)
      → Run Ok size w n out
      → Run Ok size (flush_acks conv closing current rto w).0 n out
  read_buffers :
      {w : ReceivingWorker} {n : ℕ} {out : Bytes}
      → Run Ok size w n out
      → Run Ok size (read_multi_buffer w).0 (n + taken w) (out ++ bytes_of (read_multi_buffer w).1)
  read_bytes :
      {w : ReceivingWorker} {n : ℕ} {out : Bytes} (k : ℕ)
      → Run Ok size w n out
      → Run Ok size (read k w).0 (n + taken w) (out ++ (read k w).1)

-- What a `Read` has left for the next.
unfoldable pub left : Option MultiBuffer → Bytes
left none = []
left (some mb) = bytes_of mb

length_nil : (xs : Bytes) → (length xs == 0) ≡ true → xs ≡ []
length_nil [] e = refl
length_nil (x ∷ xs) e = ground arith

empty_bytes : (mb : MultiBuffer) → is_empty mb ≡ true → bytes_of mb ≡ []
unfolding is_empty bytes_of
empty_bytes [] e = refl
empty_bytes (b ∷ mb) e = elim (Bool-cases (len b == 0)) [
  | inl zero_len ↦ rw (length_nil b.content zero_len) (empty_bytes mb (rw zero_len at e))
  | inr more ↦ never (rw more at e)
]
  where
    never : false ≡ true → bytes_of (b ∷ mb) ≡ []
    never p = cc

-- The bytes of a `Read`, with those that it leaves, are the ones that the call of `ReadMultiBuffer` gave.
read_from-bytes :
    (k : ℕ) (w : ReceivingWorker) (mb : MultiBuffer)
    → w.left_over ≡ none
    → (read_from k (w, mb)).1 ++ left (read_from k (w, mb)).0.left_over ≡ bytes_of mb
unfolding read_from keep_rest left
read_from-bytes k w mb e = elim (Bool-cases (is_empty mb)) [
  | inl empty ↦ rw empty (ap left e ∙ sym (empty_bytes mb empty))
  | inr full ↦ rw full (elim (Bool-cases (is_empty (split_bytes mb k).0)) [
    | inl all ↦ rw all (
        ap (λ (p : Bytes). (split_bytes mb k).1 ++ p)
          (ap left e ∙ sym (empty_bytes (split_bytes mb k).0 all))
        ∙ (split_bytes_lem mb k).0)
    | inr rest ↦ rw rest (split_bytes_lem mb k).0
  ])
]

module _ (sent : ℕ → Bytes) (size : ℕ) (small : size < 2 ^ 32) where
  abbrev Delivered : ReceivingWorker → ℕ → Bytes → Type 0
  Delivered w n out = Ordered sent size w n × (out ++ left w.left_over ≡ stream sent size n)

  set-Stored :
      (seg : DataSegment) (cache : Cache) (n : ℕ)
      → Stored sent size n (seg.number, seg)
      → All (Stored sent size n) cache
      → All (Stored sent size n) (set seg.number seg cache).0
  unfolding set
  set-Stored seg cache n h hs = elim (Bool-cases (has seg.number cache)) [
    | inl old ↦ rw old hs
    | inr new ↦ rw new (h, hs)
  ]

  arrive-Delivered :
      (w : ReceivingWorker) (n i : ℕ) (out : Bytes) (seg : DataSegment)
      → Delivered w n out
      → Arrives sent size n i seg
      → Delivered (process_segment seg w) n out
  unfolding process_segment
  arrive-Delivered w n i out seg (o, shown) (early, late, number, load) =
      elim (Bool-cases (leb w.window_size (sub32 seg.number w.next_number))) [
        | inl outside ↦ rw outside (o, shown)
        | inr inside ↦
            let (low, high) = in_window inside in
            rw inside (
              record {
                next = o.next;
                window_size = o.window_size;
                stored = set-Stored seg w.window n (i, low, high, number, load) o.stored;
              },
              shown,
            )
      ]
    where
      in_window :
          leb w.window_size (sub32 seg.number w.next_number) ≡ false → (n ≤ i) × (i < n + size)
      in_window e = ground (arith, o.next, o.window_size, early, late, number, small)

  -- A worker after a call that gave the bytes out of the segments that it took.
  abbrev Emptied : ReceivingWorker → ℕ → Bytes → ReceivingWorker × MultiBuffer → ℕ → Type 0
  Emptied w n out (w', mb) m =
      Ordered sent size w' (n + m)
      × (w'.left_over ≡ none)
      × (out ++ bytes_of mb ≡ stream sent size (n + m))

  next_buffers-Emptied :
      (w : ReceivingWorker) (n : ℕ) (out : Bytes) (l : Option MultiBuffer)
      → w.left_over ≡ l
      → Ordered sent size w n
      → out ++ left l ≡ stream sent size n
      → Emptied w n out (next_buffers w l) (taken_from w l)
  unfolding next_buffers taken_from left
  next_buffers-Emptied w n out none e o shown =
      let (ordered, more, kept) =
        in_order-Taken sent size (omega (arith, small)) (suc (length w.window)) w n o in
      (
        ordered,
        kept ∙ e,
        ap (λ (p : Bytes). p ++ bytes_of (in_order (suc (length w.window)) w).1)
              (sym (append-nil out) ∙ shown)
            ∙ more,
      )
  next_buffers-Emptied w n out (some mb) e o shown =
      rw (add_nothing sent size n)
        (record { next = o.next; window_size = o.window_size; stored = o.stored }, refl, shown)

  buffers-Emptied :
      (w : ReceivingWorker) (n : ℕ) (out : Bytes)
      → Delivered w n out
      → Emptied w n out (read_multi_buffer w) (taken w)
  unfolding read_multi_buffer
  buffers-Emptied w n out (o, shown) = next_buffers-Emptied w n out w.left_over refl o shown

  read_from-Ordered :
      (k : ℕ) (w : ReceivingWorker) (n : ℕ) (mb : MultiBuffer)
      → Ordered sent size w n
      → Ordered sent size (read_from k (w, mb)).0 n
  unfolding read_from keep_rest
  read_from-Ordered k w n mb o = elim (Bool-cases (is_empty mb)) [
    | inl empty ↦ rw empty o
    | inr full ↦ rw full (elim (Bool-cases (is_empty (split_bytes mb k).0)) [
      | inl all ↦ rw all o
      | inr rest ↦
          rw rest (record { next = o.next; window_size = o.window_size; stored = o.stored })
    ])
  ]

  read_from-Delivered :
      (k : ℕ) (w : ReceivingWorker) (n m : ℕ) (out : Bytes) (mb : MultiBuffer)
      → Emptied w n out (w, mb) m
      → Delivered (read_from k (w, mb)).0 (n + m) (out ++ (read_from k (w, mb)).1)
  read_from-Delivered k w n m out mb (o, none_left, shown) = (
    read_from-Ordered k w (n + m) mb o,
    append_assoc out (read_from k (w, mb)).1 (left (read_from k (w, mb)).0.left_over)
        ∙ ap (λ (p : Bytes). out ++ p) (read_from-bytes k w mb none_left)
        ∙ shown,
  )

  -- When the segments that arrive are the sender's and come neither too early nor too late for their
  -- numbers, the reader has got the first payloads once and in order.
  pub worker-Delivered :
      (Ok : ℕ → DataSegment → Type 0)
      → ((n : ℕ) (seg : DataSegment) → Ok n seg → (i : ℕ) × Arrives sent size n i seg)
      → (w : ReceivingWorker) (n : ℕ) (out : Bytes) → Run Ok size w n out
      → Delivered w n out
  unfolding process_sending_next left flush_acks stream read
  worker-Delivered Ok fits w n out start =
      (record { next = refl; window_size = refl; stored = tt }, refl)
  worker-Delivered Ok fits w n out (arrive {w = w'} seg r h) =
      let (i, arrives) = fits n seg h in
      arrive-Delivered w' n i out seg (worker-Delivered Ok fits w' n out r) arrives
  worker-Delivered Ok fits w n out (hear {w = w'} number r) =
      let (o, shown) = worker-Delivered Ok fits w' n out r in
      (record { next = o.next; window_size = o.window_size; stored = o.stored }, shown)
  worker-Delivered Ok fits w n out (acknowledge {w = w'} conv closing current rto r) =
      let (o, shown) = worker-Delivered Ok fits w' n out r in
      (record { next = o.next; window_size = o.window_size; stored = o.stored }, shown)
  worker-Delivered Ok fits w n out (read_buffers {w = w'} {n = n'} {out = out'} r) =
      let (o, none_left, shown) =
        buffers-Emptied w' n' out' (worker-Delivered Ok fits w' n' out' r) in
      (
        o,
        ap (λ (l : Option MultiBuffer). (out' ++ bytes_of (read_multi_buffer w').1) ++ left l)
              none_left
            ∙ append-nil (out' ++ bytes_of (read_multi_buffer w').1)
            ∙ shown,
      )
  worker-Delivered Ok fits w n out (read_bytes {w = w'} {n = n'} {out = out'} k r) =
      read_from-Delivered k (read_multi_buffer w').0 n' (taken w') out' (read_multi_buffer w').1
        (buffers-Emptied w' n' out' (worker-Delivered Ok fits w' n' out' r))
