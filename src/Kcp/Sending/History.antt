-- ===== src/Kcp/Sending/History.antt =====
-- What a sender keeps and writes, whatever comes back: the payloads that were pushed, each under the
-- number of its place. `sent i` is the i-th payload, counted from 0 without wrapping.
use reflex.Prelude.{
  ℕ, suc, ◌/◌, ◌%◌, ◌^◌, ◌≤◌, ◌<◌, ◌≡◌, refl, ap, ◌∙◌, inl, inr, Bool, true, false, Bool-cases, not,
  ◌&&◌, ◌||◌, Option, none, some, List, [], ◌∷◌, ◌++◌, length, length-append, All, All-append, ltb,
  leb, ltb→ge, either_branch, ◌==◌, if◌then◌else◌, arith,
}
use reflex.Prelude.Bytes.{Bytes}
use reflex.Kcp.Words.{add32, sub32}
use reflex.Kcp.Segment.{DataSegment, AckSegment}
use reflex.Kcp.Sending.{
  SendingWindow, push_back, clear_below, go_on, visit, fast_ack, handle_fast_ack, Flushing,
  is_waiting, sent_again, flush_one, window_of, flush_window, cons_to, remove_from, remove,
  SendingWorker, new_sending_worker, release, find_first_unacknowledged, process_receiving_next,
  removed_from, process_ack, Acking, ack_one, ack_all, acked, raise_remote, process_segment, push,
  write, on_packet_loss, report_loss, adjusted, bounded, flush_limit, flush, close_write,
  no_segments,
}

module _ {S : Type 0} (P : DataSegment → Type 0) (Q : S → Type 0) where
  go_on-All :
      (r : DataSegment × S × Bool) (segs : List DataSegment) (later : S → List DataSegment × S)
      → P r.0
      → Q r.1
      → All P segs
      → ((s' : S) → Q s' → All P (later s').0 × Q (later s').1)
      → All P (go_on r segs later).0 × Q (go_on r segs later).1
  unfolding go_on
  go_on-All (seg, s, true) segs later p q ps step = ((p, (step s q).0), (step s q).1)
  go_on-All (seg, s, false) segs later p q ps step = ((p, ps), q)

  -- What a visitor keeps of the segments and of its variables, a visit keeps.
  visit-All :
      (visitor : DataSegment → S → DataSegment × S × Bool)
      → ((seg : DataSegment) (s : S) → P seg → Q s → P (visitor seg s).0 × Q (visitor seg s).1)
      → (segs : List DataSegment) (s : S) → All P segs
      → Q s
      → All P (visit visitor segs s).0 × Q (visit visitor segs s).1
  unfolding visit
  visit-All visitor step [] s h q = (tt, q)
  visit-All visitor step (seg ∷ segs) s (p, ps) q =
      go_on-All (visitor seg s) segs (λ s'. visit visitor segs s') (step seg s p q).0
        (step seg s p q).1 ps (λ s' q'. visit-All visitor step segs s' ps q')

module _ {S : Type 0} where
  length-go_on :
      (r : DataSegment × S × Bool) (segs : List DataSegment) (later : S → List DataSegment × S)
      → ((s : S) → length (later s).0 ≡ length segs)
      → length (go_on r segs later).0 ≡ suc (length segs)
  unfolding go_on
  length-go_on (seg, s, true) segs later step = ap suc (step s)
  length-go_on (seg, s, false) segs later step = refl

  length-visit :
      (visitor : DataSegment → S → DataSegment × S × Bool) (segs : List DataSegment) (s : S)
      → length (visit visitor segs s).0 ≡ length segs
  unfolding visit
  length-visit visitor [] s = refl
  length-visit visitor (seg ∷ segs) s =
      length-go_on (visitor seg s) segs (λ s'. visit visitor segs s')
        (λ s'. length-visit visitor segs s')

module _ (P : DataSegment → Type 0) where
  clear_below-All : (una : ℕ) (segs : List DataSegment) → All P segs → All P (clear_below una segs)
  unfolding clear_below
  clear_below-All una [] h = tt
  clear_below-All una (seg ∷ segs) (h, hs) = elim (Bool-cases (leb una seg.number)) [
    | inl stays ↦ rw stays (h, hs)
    | inr goes ↦ rw goes (clear_below-All una segs hs)
  ]

  remove_from-All :
      (number : ℕ) (segs : List DataSegment) → All P segs → All P (remove_from number segs).0
  unfolding remove_from cons_to
  remove_from-All number [] h = tt
  remove_from-All number (seg ∷ segs) (h, hs) = elim (Bool-cases (ltb number seg.number)) [
    | inl past ↦ rw past (h, hs)
    | inr on ↦ elim (Bool-cases (seg.number == number)) [
      | inl hit ↦ rw (on, hit) hs
      | inr miss ↦ rw (on, miss) (h, remove_from-All number segs hs)
    ]
  ]

length-clear_below :
    (una : ℕ) (segs : List DataSegment) → length (clear_below una segs) ≤ length segs
unfolding clear_below
length-clear_below una [] = omega arith
length-clear_below una (seg ∷ segs) = elim (Bool-cases (leb una seg.number)) [
  | inl stays ↦ rw stays (omega arith)
  | inr goes ↦ rw goes (omega (arith, length-clear_below una segs))
]

length-remove_from :
    (number : ℕ) (segs : List DataSegment) → length (remove_from number segs).0 ≤ length segs
unfolding remove_from cons_to
length-remove_from number [] = omega arith
length-remove_from number (seg ∷ segs) = elim (Bool-cases (ltb number seg.number)) [
  | inl past ↦ rw past (omega arith)
  | inr on ↦ elim (Bool-cases (seg.number == number)) [
    | inl hit ↦ rw (on, hit) (omega arith)
    | inr miss ↦ rw (on, miss) (omega (arith, length-remove_from number segs))
  ]
]

-- A segment is that of one of the first `n` payloads.
abbrev pub Held : (ℕ → Bytes) → ℕ → DataSegment → Type 0
Held sent n seg = (i : ℕ) × (i < n) × (seg.number ≡ i % 2 ^ 32) × (seg.payload ≡ sent i)

abbrev pub pushed : ℕ → SendingWorker × Bool → ℕ
pushed n (w, accepted) = if accepted then suc n else n

-- The runs of a worker, with the number of payloads that it has accepted and the segments that it has
-- written.
pub data SendRun (sent : ℕ → Bytes) (in_flight_size buffer_size : ℕ)
    : SendingWorker → ℕ → List DataSegment → Type 0 where
  start :
      SendRun sent in_flight_size buffer_size (new_sending_worker in_flight_size buffer_size) 0 []
  accept :
      {w : SendingWorker} {n : ℕ} {out : List DataSegment}
      → SendRun sent in_flight_size buffer_size w n out
      → SendRun sent in_flight_size buffer_size (push (sent n) w).0 (pushed n (push (sent n) w)) out
  hear :
      {w : SendingWorker} {n : ℕ} {out : List DataSegment} (next_number : ℕ)
      → SendRun sent in_flight_size buffer_size w n out
      → SendRun sent in_flight_size buffer_size (process_receiving_next next_number w) n out
  acknowledge :
      {w : SendingWorker} {n : ℕ} {out : List DataSegment} (current : ℕ) (seg : AckSegment)
      (rto : ℕ)
      → SendRun sent in_flight_size buffer_size w n out
      → SendRun sent in_flight_size buffer_size (process_segment current seg rto w).0 n out
  flush_some :
      {w : SendingWorker} {n : ℕ} {out : List DataSegment} (conv : ℕ) (closing : Bool) (current : ℕ)
      (congestion : Bool) (rto : ℕ)
      → SendRun sent in_flight_size buffer_size w n out
      → SendRun sent in_flight_size buffer_size
          (flush conv closing current congestion in_flight_size rto w).0
          n
          (out ++ (flush conv closing current congestion in_flight_size rto w).1)
  close :
      {w : SendingWorker} {n : ℕ} {out : List DataSegment}
      → SendRun sent in_flight_size buffer_size w n out
      → SendRun sent in_flight_size buffer_size (close_write w) n out
  end :
      {w : SendingWorker} {n : ℕ} {out : List DataSegment}
      → SendRun sent in_flight_size buffer_size w n out
      → SendRun sent in_flight_size buffer_size (release w) n out

module _ (sent : ℕ → Bytes) (buffer_size : ℕ) where
  -- A worker that has accepted `n` payloads.
  pub record Genuine (w : SendingWorker) (n : ℕ) : Type 0 where
    pub next_number : w.next_number ≡ n % 2 ^ 32
    pub window_size : w.window_size ≡ buffer_size
    pub held : All (Held sent n) w.window.cache
    pub room : length w.window.cache ≤ suc buffer_size

  -- The worker has the window of one that is genuine, or a part of it.
  with_cache :
      (w w' : SendingWorker) (n : ℕ)
      → Genuine w n
      → w'.next_number ≡ w.next_number
      → w'.window_size ≡ w.window_size
      → All (Held sent n) w'.window.cache
      → length w'.window.cache ≤ length w.window.cache
      → Genuine w' n
  with_cache w w' n g next size h shorter = record {
    next_number = next ∙ g.next_number;
    window_size = size ∙ g.window_size;
    held = h;
    room = omega (arith, shorter, g.room);
  }

  hear-Genuine :
      (next_number : ℕ) (w : SendingWorker) (n : ℕ)
      → Genuine w n
      → Genuine (process_receiving_next next_number w) n
  unfolding process_receiving_next find_first_unacknowledged
  hear-Genuine next_number w n g =
      with_cache w (process_receiving_next next_number w) n g refl refl
        (clear_below-All (Held sent n) next_number w.window.cache g.held)
        (length-clear_below next_number w.window.cache)

  removed_from-Genuine :
      (w : SendingWorker) (r : SendingWindow × Bool) (n : ℕ)
      → Genuine w n
      → All (Held sent n) r.0.cache
      → length r.0.cache ≤ length w.window.cache
      → Genuine (removed_from w r).0 n
  unfolding removed_from find_first_unacknowledged
  removed_from-Genuine w (sw, true) n g h shorter =
      with_cache w (removed_from w (sw, true)).0 n g refl refl h shorter
  removed_from-Genuine w (sw, false) n g h shorter =
      with_cache w (removed_from w (sw, false)).0 n g refl refl h shorter

  process_ack-Genuine :
      (number : ℕ) (w : SendingWorker) (n : ℕ) → Genuine w n → Genuine (process_ack number w).0 n
  unfolding process_ack remove
  process_ack-Genuine number w n g =
      elim (Bool-cases (
        ltb 0x7FFFFFFF (sub32 number w.first_unacknowledged)
        || ltb (sub32 number w.next_number) 0x7FFFFFFF)) [
          | inl outside ↦ rw outside g
          | inr inside ↦ rw inside (
              removed_from-Genuine w (remove number w.window) n g
                (remove_from-All (Held sent n) number w.window.cache g.held)
                (length-remove_from number w.window.cache))
        ]

  ack_one-Genuine :
      (number : ℕ) (a : Acking) (n : ℕ) → Genuine a.worker n → Genuine (ack_one number a).worker n
  unfolding ack_one
  ack_one-Genuine number a n g = elim (Bool-cases (ltb a.maxack number)) [
    | inl more ↦ rw more (process_ack-Genuine number a.worker n g)
    | inr less ↦ rw less (process_ack-Genuine number a.worker n g)
  ]

  ack_all-Genuine :
      (numbers : List ℕ) (a : Acking) (n : ℕ)
      → Genuine a.worker n
      → Genuine (ack_all numbers a).worker n
  unfolding ack_all
  ack_all-Genuine [] a n g = g
  ack_all-Genuine (number ∷ numbers) a n g =
      ack_all-Genuine numbers (ack_one number a) n (ack_one-Genuine number a n g)

  fast_ack-Held :
      (number rto n : ℕ) (seg : DataSegment)
      → Held sent n seg
      → Held sent n (fast_ack number rto seg tt).0
  unfolding fast_ack
  fast_ack-Held number rto n seg h =
      elim (Bool-cases (number == seg.number || ltb 0x7FFFFFFF (sub32 number seg.number))) [
        | inl stop ↦ rw stop h
        | inr on ↦ rw on (elim (Bool-cases (ltb 0 seg.transmit && ltb (rto / 3) seg.timeout)) [
          | inl soon ↦ rw soon h
          | inr later ↦ rw later h
        ])
      ]

  fast-Genuine :
      (number rto : ℕ) (w : SendingWorker) (n : ℕ)
      → Genuine w n
      → Genuine (record w { window = handle_fast_ack number rto w.window }) n
  unfolding handle_fast_ack
  fast-Genuine number rto w n g =
      with_cache w (record w { window = handle_fast_ack number rto w.window }) n g refl refl
        (visit-All (Held sent n) (λ (u : Unit {0}). Unit {0}) (fast_ack number rto)
          (λ seg s h q. (fast_ack-Held number rto n seg h, tt)) w.window.cache tt g.held tt).0
        (omega (arith, length-visit (fast_ack number rto) w.window.cache tt))

  -- The same worker but for fields that the invariant leaves open.
  abbrev After : ℕ → SendingWorker × Option ℕ → Type 0
  After n (w, sample) = Genuine w n

  raise-Genuine :
      (seg : AckSegment) (w : SendingWorker) (n : ℕ) → Genuine w n → Genuine (raise_remote seg w) n
  unfolding raise_remote
  raise-Genuine seg w n g =
      either_branch (λ (w' : SendingWorker). Genuine w' n)
        (ltb w.remote_next_number seg.receiving_window)
        (record w { remote_next_number = seg.receiving_window }) w
        (λ e. record {
          next_number = g.next_number;
          window_size = g.window_size;
          held = g.held;
          room = g.room;
        })
        (λ e. g)

  acked-Genuine :
      (current : ℕ) (seg : AckSegment) (rto : ℕ) (a : Acking) (n : ℕ)
      → Genuine a.worker n
      → After n (acked current seg rto a)
  unfolding acked
  acked-Genuine current seg rto a n g =
      either_branch (After n) a.maxack_removed
        (
          record a.worker { window = handle_fast_ack a.maxack rto a.worker.window },
          (if ltb (sub32 current seg.timestamp) 10000
              then some (sub32 current seg.timestamp)
              else none),
        )
        (a.worker, none) (λ e. fast-Genuine a.maxack rto a.worker n g) (λ e. g)

  segment-Genuine :
      (current : ℕ) (seg : AckSegment) (rto : ℕ) (w : SendingWorker) (n : ℕ)
      → Genuine w n
      → After n (process_segment current seg rto w)
  unfolding process_segment
  segment-Genuine current seg rto w n g =
      let a : Acking = record {
        worker = process_receiving_next seg.receiving_next (raise_remote seg w);
        maxack = 0;
        maxack_removed = false;
      } in
      either_branch (After n) w.closed (w, none) (acked current seg rto (ack_all seg.number_list a))
        (λ e. g)
        (λ e. acked-Genuine current seg rto (ack_all seg.number_list a) n (
          ack_all-Genuine seg.number_list a n
            (hear-Genuine seg.receiving_next (raise_remote seg w) n (raise-Genuine seg w n g))))

  length-push_back :
      (number : ℕ) (b : Bytes) (sw : SendingWindow)
      → length (push_back number b sw).cache ≡ suc (length sw.cache)
  unfolding push_back
  length-push_back number b sw = omega (
    arith,
    length-append sw.cache (
        record {
          conv = 0;
          option = 0;
          timestamp = 0;
          number = number;
          sending_next = 0;
          payload = b;
          timeout = 0;
          transmit = 0;
        }
        ∷ []),
  )

  later-Held :
      (n : ℕ) (segs : List DataSegment) → All (Held sent n) segs → All (Held sent (suc n)) segs
  later-Held n [] h = tt
  later-Held n (seg ∷ segs) ((i, low, number, load), hs) =
      ((i, omega (arith, low), number, load), later-Held n segs hs)

  pushed-Held :
      (w : SendingWorker) (n : ℕ) (segs : List DataSegment)
      → All (Held sent n) segs
      → All (Held sent (pushed n (push (sent n) w))) segs
  pushed-Held w n segs h =
      either_branch (λ (m : ℕ). All (Held sent m) segs) (push (sent n) w).1 (suc n) n
        (λ e. later-Held n segs h) (λ e. h)

  push_back-Genuine :
      (w : SendingWorker) (n : ℕ)
      → Genuine w n
      → length w.window.cache ≤ w.window_size
      → Genuine
          (record w {
            window = push_back w.next_number (sent n) w.window;
            next_number = add32 w.next_number 1;
          })
          (suc n)
  unfolding push_back
  push_back-Genuine w n g room = record {
    next_number = omega (arith, g.next_number);
    window_size = g.window_size;
    held =
        All-append (Held sent (suc n)) w.window.cache _ (later-Held n w.window.cache g.held)
          ((n, omega arith, g.next_number, refl), tt);
    room = omega (arith, room, g.window_size, length-push_back w.next_number (sent n) w.window);
  }

  accept-Genuine :
      (w : SendingWorker) (n : ℕ)
      → Genuine w n
      → Genuine (push (sent n) w).0 (pushed n (push (sent n) w))
  unfolding push
  accept-Genuine w n g =
      let added = record w {
        window = push_back w.next_number (sent n) w.window;
        next_number = add32 w.next_number 1;
      } in
      either_branch (λ (r : SendingWorker × Bool). Genuine r.0 (pushed n r)) w.closed (w, false)
        (if ltb w.window_size (length w.window.cache) then (w, false) else (added, true)) (λ e. g)
        (λ e.
          either_branch (λ (r : SendingWorker × Bool). Genuine r.0 (pushed n r))
            (ltb w.window_size (length w.window.cache)) (w, false) (added, true) (λ e'. g)
            (λ e'. push_back-Genuine w n g (ltb→ge w.window_size (length w.window.cache) e')))

  -- What a flush carries along: all it has written is genuine.
  abbrev Written : ℕ → Flushing → Type 0
  Written n f = All (Held sent n) f.written

  flush_one-Held :
      (current rto m conv : ℕ) (closing : Bool) (w : SendingWorker) (n : ℕ) (seg : DataSegment)
      (f : Flushing)
      → Held sent n seg
      → Written n f
      → Held sent n (flush_one current rto m (write conv closing w) seg f).0
        × Written n (flush_one current rto m (write conv closing w) seg f).1
  unfolding flush_one sent_again write
  flush_one-Held current rto m conv closing w n seg f h hs =
      elim (Bool-cases (is_waiting current seg)) [
        | inl later ↦ rw later (h, hs)
        | inr now ↦ rw now (h, All-append (Held sent n) f.written _ hs (h, tt))
      ]

  quiet-Genuine :
      (w : SendingWorker) (n : ℕ)
      → Genuine w n
      → Genuine (record w { first_unacknowledged_updated = false }) n
  quiet-Genuine w n g = record {
    next_number = g.next_number;
    window_size = g.window_size;
    held = g.held;
    room = g.room;
  }

  report-Genuine :
      (congestion : Bool) (in_flight_size rto : ℕ) (rate : Option ℕ) (w : SendingWorker) (n : ℕ)
      → Genuine w n
      → Genuine
          (record (report_loss congestion in_flight_size rto rate w) {
            first_unacknowledged_updated = false;
          })
          n
  unfolding report_loss on_packet_loss
  report-Genuine congestion in_flight_size rto none w n g = quiet-Genuine w n g
  report-Genuine congestion in_flight_size rto (some rate) w n g =
      either_branch
        (λ (w' : SendingWorker). Genuine (record w' { first_unacknowledged_updated = false }) n)
        (not congestion || rto == 0) w
        (record w { control_window = bounded in_flight_size (adjusted rate w.control_window) })
        (λ e. quiet-Genuine w n g)
        (λ e. record {
          next_number = g.next_number;
          window_size = g.window_size;
          held = g.held;
          room = g.room;
        })

  visit-Held :
      (current rto m conv : ℕ) (closing : Bool) (w : SendingWorker) (n : ℕ)
      → Genuine w n
      → All (Held sent n) (flush_window current rto m (write conv closing w) w.window).0.cache
        × All (Held sent n) (flush_window current rto m (write conv closing w) w.window).1
        × (length (flush_window current rto m (write conv closing w) w.window).0.cache
            ≡ length w.window.cache)
  unfolding flush_window window_of
  visit-Held current rto m conv closing w n g =
      let begun : Flushing = record {
        total = w.window.total_in_flight_size;
        lost = 0;
        in_flight = 0;
        written = [];
      } in
      let (kept, written) =
        visit-All (Held sent n) (Written n) (flush_one current rto m (write conv closing w))
          (flush_one-Held current rto m conv closing w n) w.window.cache begun g.held tt in
      (
        kept,
        written,
        length-visit (flush_one current rto m (write conv closing w)) w.window.cache begun,
      )

  abbrev Flushed : ℕ → SendingWorker × List DataSegment × Bool → Type 0
  Flushed n (w, written, updated) = Genuine w n × All (Held sent n) written

  flush-Genuine :
      (conv : ℕ) (closing : Bool) (current : ℕ) (congestion : Bool) (in_flight_size rto : ℕ)
      (w : SendingWorker) (n : ℕ)
      → Genuine w n
      → Flushed n (flush conv closing current congestion in_flight_size rto w)
  unfolding flush
  flush-Genuine conv closing current congestion in_flight_size rto w n g =
      let m = flush_limit congestion in_flight_size w in
      let (kept, written, same) = visit-Held current rto m conv closing w n g in
      let (sw, segs, rate) = flush_window current rto m (write conv closing w) w.window in
      let quiet : SendingWorker × List DataSegment × Bool =
        (record w { first_unacknowledged_updated = false }, [], w.first_unacknowledged_updated) in
      let busy : SendingWorker × List DataSegment × Bool = (
        record (report_loss congestion in_flight_size rto rate (record w { window = sw })) {
          first_unacknowledged_updated = false;
        },
        segs,
        false,
      ) in
      either_branch (Flushed n) w.closed (w, [], false)
        (if no_segments w.window then quiet else busy) (λ e. (g, tt))
        (λ e.
          either_branch (Flushed n) (no_segments w.window) quiet busy
            (λ e'. (quiet-Genuine w n g, tt))
            (λ e'. (
              report-Genuine congestion in_flight_size rto rate (record w { window = sw }) n
                  (with_cache w (record w { window = sw }) n g refl refl kept
                    (omega (arith, same))),
              written,
            )))

  -- Whatever is pushed, acknowledged, flushed and closed in whatever order, the window and all that
  -- a sender has written are the payloads that it has accepted, each under the number of its place
  -- modulo 2^32, and the window has one segment more than its size at most.
  pub run-Genuine :
      (in_flight_size : ℕ) (w : SendingWorker) (n : ℕ) (out : List DataSegment)
      → SendRun sent in_flight_size buffer_size w n out
      → Genuine w n × All (Held sent n) out
  unfolding close_write release
  run-Genuine in_flight_size w n out start =
      (record { next_number = refl; window_size = refl; held = tt; room = omega arith }, tt)
  run-Genuine in_flight_size w n out (accept {w = w'} {n = n'} r) =
      let (g, written) = run-Genuine in_flight_size w' n' out r in
      (accept-Genuine w' n' g, pushed-Held w' n' out written)
  run-Genuine in_flight_size w n out (hear {w = w'} next_number r) =
      let (g, written) = run-Genuine in_flight_size w' n out r in
      (hear-Genuine next_number w' n g, written)
  run-Genuine in_flight_size w n out (acknowledge {w = w'} current seg rto r) =
      let (g, written) = run-Genuine in_flight_size w' n out r in
      (segment-Genuine current seg rto w' n g, written)
  run-Genuine in_flight_size w n out
        (flush_some {w = w'} {out = out'} conv closing current congestion rto r) =
      let (g, written) = run-Genuine in_flight_size w' n out' r in
      let (g', more) = flush-Genuine conv closing current congestion in_flight_size rto w' n g in
      (g', All-append (Held sent n) out' _ written more)
  run-Genuine in_flight_size w n out (close {w = w'} r) =
      let (g, written) = run-Genuine in_flight_size w' n out r in
      (
        with_cache w' (close_write w') n g refl refl
            (clear_below-All (Held sent n) 0xFFFFFFFF w'.window.cache g.held)
            (length-clear_below 0xFFFFFFFF w'.window.cache),
        written,
      )
  run-Genuine in_flight_size w n out (end {w = w'} r) =
      let (g, written) = run-Genuine in_flight_size w' n out r in
      (with_cache w' (release w') n g refl refl tt (omega arith), written)
