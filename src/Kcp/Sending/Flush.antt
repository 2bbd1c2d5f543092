-- ===== src/Kcp/Sending/Flush.antt =====
-- Which segments a flush writes.
use reflex.Prelude.{
  ℕ, suc, ◌+◌, ◌-◌, ◌^◌, ◌≤◌, ◌<◌, ◌≡◌, refl, sym, ap, ◌∙◌, inl, inr, Bool, true, false, Bool-cases,
  List, [], ◌∷◌, ◌++◌, map, append_assoc, append-nil, length, take, ltb, ◌==◌, if◌then◌else◌, arith,
}
use reflex.Kcp.Words.{add32}
use reflex.Kcp.Segment.{DataSegment}
use reflex.Kcp.Sending.{
  SendingWindow, go_on, visit, Flushing, is_waiting, sent_again, flush_one, window_of, flush_window,
}

-- The segments whose timeout has passed.
unfoldable pub due : ℕ → List DataSegment → List DataSegment
due current [] = []
due current (seg ∷ segs) =
    if is_waiting current seg then due current segs else seg ∷ due current segs

less_nothing : (n : ℕ) → n - 0 ≡ n
less_nothing n = omega arith

module _ (current rto m : ℕ) (write : DataSegment → DataSegment) where
  abbrev visitor : DataSegment → Flushing → DataSegment × Flushing × Bool
  visitor = flush_one current rto m write

  sent_one : DataSegment → Flushing → Flushing
  sent_one seg f = record {
    total = if seg.transmit == 0 then add32 f.total 1 else f.total;
    lost = if seg.transmit == 0 then f.lost else add32 f.lost 1;
    in_flight = add32 f.in_flight 1;
    written = f.written ++ (sent_again current rto write seg ∷ []);
  }

  flush_step :
      (seg : DataSegment) (segs : List DataSegment) (f : Flushing)
      → is_waiting current seg ≡ false
      → f.in_flight ≤ m - 1
      → f.in_flight + suc (length segs) < 2 ^ 32
      → ((f' : Flushing)
          → f'.in_flight ≤ m - 1
          → f'.in_flight + length segs < 2 ^ 32
          → (visit visitor segs f').1.written
            ≡ f'.written
              ++ map
                  (sent_again current rto write)
                  (take (suc (m - 1 - f'.in_flight)) (due current segs)))
      → (visit visitor (seg ∷ segs) f).1.written
        ≡ f.written
          ++ map
              (sent_again current rto write)
              (take (suc (m - 1 - f.in_flight)) (seg ∷ due current segs))
  unfolding visit flush_one go_on sent_one
  flush_step seg segs f now few room step = elim (Bool-cases (ltb (add32 f.in_flight 1) m)) [
    | inl more ↦
        rw (now, more)
          (step (sent_one seg f) (low more) (ground (arith, room))
            ∙ append_assoc f.written (sent_again current rto write seg ∷ []) (
                map (sent_again current rto write)
                  (take (suc (m - 1 - add32 f.in_flight 1)) (due current segs)))
            ∙ ap
                (λ (k : ℕ).
                  f.written
                  ++ (sent_again current rto write seg
                      ∷ map (sent_again current rto write) (take k (due current segs))))
                (next_count more))
    | inr full ↦
        rw (now, full)
          (ap
            (λ (k : ℕ).
              f.written
              ++ (sent_again current rto write seg
                  ∷ map (sent_again current rto write) (take k (due current segs))))
            (last full))
  ]
    where
      low : ltb (add32 f.in_flight 1) m ≡ true → add32 f.in_flight 1 ≤ m - 1
      low more = ground (arith, more)

      next_count :
          ltb (add32 f.in_flight 1) m ≡ true
          → suc (m - 1 - add32 f.in_flight 1) ≡ m - 1 - f.in_flight
      next_count more = ground (arith, more, room)

      last : ltb (add32 f.in_flight 1) m ≡ false → 0 ≡ m - 1 - f.in_flight
      last full = ground (arith, full, room, few)

  due_now :
      (seg : DataSegment) (segs : List DataSegment)
      → is_waiting current seg ≡ false
      → due current (seg ∷ segs) ≡ seg ∷ due current segs
  unfolding due
  due_now seg segs now = rw now refl

  visit-written :
      (segs : List DataSegment) (f : Flushing)
      → f.in_flight ≤ m - 1
      → f.in_flight + length segs < 2 ^ 32
      → (visit visitor segs f).1.written
        ≡ f.written
          ++ map
              (sent_again current rto write)
              (take (suc (m - 1 - f.in_flight)) (due current segs))
  unfolding visit due go_on flush_one
  visit-written [] f few room = sym (append-nil f.written)
  visit-written (seg ∷ segs) f few room = elim (Bool-cases (is_waiting current seg)) [
    | inl later ↦ rw later (visit-written segs f few (omega (arith, room)))
    | inr now ↦
        flush_step seg segs f now few room (λ f' few' room'. visit-written segs f' few' room')
        ∙ ap
            (λ (ds : List DataSegment).
              f.written ++ map (sent_again current rto write) (take (suc (m - 1 - f.in_flight)) ds))
            (sym (due_now seg segs now))
  ]

  -- A flush of a window of less than 2^32 segments writes the first of the segments whose timeout
  -- has passed, in the order of the window and with new times: one, or as many as it is allowed.
  pub flush_window-written :
      (sw : SendingWindow)
      → length sw.cache < 2 ^ 32
      → (flush_window current rto m write sw).1
        ≡ map (sent_again current rto write) (take (suc (m - 1)) (due current sw.cache))
  unfolding flush_window window_of
  flush_window-written sw room =
      visit-written sw.cache
        (record { total = sw.total_in_flight_size; lost = 0; in_flight = 0; written = [] })
        (omega arith) (omega (arith, room))
      ∙ ap (λ (k : ℕ). map (sent_again current rto write) (take (suc k) (due current sw.cache)))
          (less_nothing (m - 1))
