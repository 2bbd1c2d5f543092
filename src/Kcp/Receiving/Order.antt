-- ===== src/Kcp/Receiving/Order.antt =====
-- The window gives the segments in the order of their numbers, which wrap around. `sent i` is the
-- payload of the sender's i-th segment, counted from 0 without wrapping.
use reflex.Prelude.{
  ℕ, zero, suc, ◌+◌, ◌%◌, ◌^◌, ◌≤◌, ◌<◌, ◌≡◌, refl, sym, ap, ◌∙◌, inl, inr, false, Bool-cases,
  Option, none, some, [], ◌∷◌, ◌++◌, length, All, ◌==◌, ==→eq, arith, append_assoc, append-nil,
}
use reflex.Prelude.Bytes.{Bytes}
use reflex.MultiBuffer.{MultiBuffer, bytes_of}
use reflex.Kcp.Words.{add32}
use reflex.Kcp.Segment.{DataSegment}
use reflex.Kcp.Receiving.{
  Cache, find, without, remove, ReceivingWorker, detached, next_segment, in_order,
}

module _ (sent : ℕ → Bytes) (size : ℕ) where
  -- A segment in the window, when `n` segments have been taken out.
  abbrev pub Stored : ℕ → ℕ × DataSegment → Type 0
  Stored n (k, seg) = (i : ℕ) × (n ≤ i) × (i < n + size) × (k ≡ i % 2 ^ 32) × (seg.payload ≡ sent i)

  -- The first `n` payloads, one behind the other.
  unfoldable pub stream : ℕ → Bytes
  stream zero = []
  stream (suc n) = stream n ++ sent n

  -- The worker has taken out `n` segments.
  pub record Ordered (w : ReceivingWorker) (n : ℕ) : Type 0 where
    pub next : w.next_number ≡ n % 2 ^ 32
    pub window_size : w.window_size ≡ size
    pub stored : All (Stored n) w.window

  same_number :
      (n i k : ℕ) → size ≤ 2 ^ 32 → n ≤ i → i < n + size → k ≡ i % 2 ^ 32 → k ≡ n % 2 ^ 32 → i ≡ n
  same_number n i k small low high e f = omega arith

  find-Stored :
      (n id : ℕ) (cache : Cache) (seg : DataSegment)
      → size ≤ 2 ^ 32
      → id ≡ n % 2 ^ 32
      → All (Stored n) cache
      → find id cache ≡ some seg
      → seg.payload ≡ sent n
  unfolding find
  find-Stored n id [] seg small at_n h e = cc
  find-Stored n id ((k, s) ∷ cache) seg small at_n ((i, low, high, key, load), hs) e =
      elim (Bool-cases (k == id)) [
        | inl hit ↦
            ap (λ (x : DataSegment). x.payload) (found (rw hit at e))
            ∙ load
            ∙ ap sent (same_number n i k small low high key (==→eq k id hit ∙ at_n))
        | inr miss ↦ find-Stored n id cache seg small at_n hs (rw miss at e)
      ]
    where
      found : some s ≡ some seg → seg ≡ s
      found p = cc

  without-Stored :
      (n id : ℕ) (cache : Cache)
      → id ≡ n % 2 ^ 32
      → All (Stored n) cache
      → All (Stored (suc n)) (without id cache)
  unfolding without
  without-Stored n id [] at_n h = tt
  without-Stored n id ((k, s) ∷ cache) at_n ((i, low, high, key, load), hs) =
      elim (Bool-cases (k == id)) [
        | inl hit ↦ rw hit (without-Stored n id cache at_n hs)
        | inr miss ↦
            rw miss
              ((i, later miss, omega (arith, high), key, load), without-Stored n id cache at_n hs)
      ]
    where
      later : (k == id) ≡ false → suc n ≤ i
      later miss = ground (arith, low, key, at_n)

  -- What the loop of `ReadMultiBuffer` does to a worker that has taken out `n` segments.
  abbrev pub Taken : ReceivingWorker → ℕ → ReceivingWorker × MultiBuffer → Type 0
  Taken w n (w', mb) =
      Ordered w' (n + length mb)
      × (stream n ++ bytes_of mb ≡ stream (n + length mb))
      × (w'.left_over ≡ w.left_over)

  All-without :
      (n id : ℕ) (cache : Cache) → All (Stored n) cache → All (Stored n) (without id cache)
  unfolding without
  All-without n id [] h = tt
  All-without n id ((k, s) ∷ cache) (h, hs) = elim (Bool-cases (k == id)) [
    | inl hit ↦ rw hit (All-without n id cache hs)
    | inr miss ↦ rw miss (h, All-without n id cache hs)
  ]

  add_suc : (n k : ℕ) → n + suc k ≡ suc n + k
  add_suc n k = omega arith

  pub add_nothing : (n : ℕ) → n + 0 ≡ n
  add_nothing n = omega arith

  next-Taken :
      size ≤ 2 ^ 32
      → (w : ReceivingWorker) (n : ℕ) (found : Option DataSegment)
        (later : ReceivingWorker → ReceivingWorker × MultiBuffer)
      → Ordered w n
      → find w.next_number w.window ≡ found
      → ((w' : ReceivingWorker) → Ordered w' (suc n) → Taken w' (suc n) (later w'))
      → Taken w n (next_segment w (without w.next_number w.window, found) later)
  unfolding next_segment bytes_of detached
  next-Taken small w n none later o e step = rw (add_nothing n) (
    record {
      next = o.next;
      window_size = o.window_size;
      stored = All-without n w.next_number w.window o.stored;
    },
    append-nil (stream n),
    refl,
  )
  next-Taken small w n (some seg) later o e step =
      let w1 = record w {
        window = without w.next_number w.window;
        next_number = add32 w.next_number 1;
      } in
      let (ordered, shown, left) = step w1 (record {
        next = omega (arith, o.next);
        window_size = o.window_size;
        stored = without-Stored n w.next_number w.window o.next o.stored;
      }) in
      rw (add_suc n (length (later w1).1)) (
        ordered,
        sym (append_assoc (stream n) seg.payload (bytes_of (later w1).1))
            ∙ ap (λ (p : Bytes). (stream n ++ p) ++ bytes_of (later w1).1)
                (find-Stored n w.next_number w.window seg small o.next o.stored e)
            ∙ unfold stream in shown,
        left,
      )

  pub in_order-Taken :
      size ≤ 2 ^ 32
      → (fuel : ℕ) (w : ReceivingWorker) (n : ℕ) → Ordered w n
      → Taken w n (in_order fuel w)
  unfolding in_order bytes_of remove
  in_order-Taken small zero w n o = rw (add_nothing n) (o, append-nil (stream n), refl)
  in_order-Taken small (suc fuel) w n o =
      next-Taken small w n (find w.next_number w.window) (λ w'. in_order fuel w') o refl
        (λ w' o'. in_order-Taken small fuel w' (suc n) o')
