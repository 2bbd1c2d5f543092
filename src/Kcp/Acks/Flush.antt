-- ===== src/Kcp/Acks/Flush.antt =====
-- What a flush of the acknowledgements sends.
use reflex.Prelude.{
  ℕ, zero, suc, ◌+◌, ◌≤◌, ◌<◌, ◌≡◌, refl, sym, ap, ◌∙◌, inl, inr, false, ◌||◌, not, Bool-cases,
  List, [], ◌∷◌, ◌++◌, length, take, All, All-append, ltb, ◌==◌, if◌then◌else◌, arith, append_assoc,
  append-nil, length-append, ltb→lt, ltb→ge, ==→eq,
}
use reflex.Kcp.Segment.{
  AckSegment, new_ack_segment, put_number, put_timestamp, is_full, ack_number_limit,
}
use reflex.Kcp.Acks.{
  Pending, AckList, Flushing, candidate_limit, write_full, flush_entry, flush_entries,
  put_candidates, is_empty, last_segment, flushed, flush,
}

-- The numbers that are due at a time, and those that are not yet, in the order of the list.
unfoldable pub due : ℕ → List Pending → List ℕ
due current [] = []
due current (p ∷ ps) =
    if ltb current p.next_flush then due current ps else p.number ∷ due current ps

unfoldable pub waiting : ℕ → List Pending → List ℕ
waiting current [] = []
waiting current (p ∷ ps) =
    if ltb current p.next_flush then p.number ∷ waiting current ps else waiting current ps

-- All numbers of a run of segments.
unfoldable pub numbers : List AckSegment → List ℕ
numbers [] = []
numbers (s ∷ ss) = s.number_list ++ numbers ss

abbrev pub Small : AckSegment → Type 0
Small s = length s.number_list ≤ ack_number_limit

numbers-append : (ss ts : List AckSegment) → numbers (ss ++ ts) ≡ numbers ss ++ numbers ts
unfolding numbers
numbers-append [] ts = refl
numbers-append (s ∷ ss) ts =
    ap (λ (rest : List ℕ). s.number_list ++ rest) (numbers-append ss ts)
    ∙ sym (append_assoc s.number_list (numbers ss) (numbers ts))

numbers-last :
    (ss : List AckSegment) (s : AckSegment) → numbers (ss ++ (s ∷ [])) ≡ numbers ss ++ s.number_list
unfolding numbers
numbers-last ss s =
    numbers-append ss (s ∷ [])
    ∙ ap (λ (rest : List ℕ). numbers ss ++ rest) (append-nil s.number_list)

-- In the loop: what has been put in so far, and what may come along.
record Filled (f : Flushing) (sent held : List ℕ) : Type 0 where
  shown : numbers f.written ++ f.seg.number_list ≡ sent
  room : length f.seg.number_list < ack_number_limit
  small : All Small f.written
  coming : f.candidates ≡ take candidate_limit held

number_list-put_timestamp :
    (t : ℕ) (s : AckSegment) → (put_timestamp t s).number_list ≡ s.number_list
unfolding put_timestamp
number_list-put_timestamp t s = ground arith

take-last_in :
    (n : ℕ) (xs : List ℕ) (x : ℕ)
    → length (take n xs) < n
    → take n (xs ++ (x ∷ [])) ≡ take n xs ++ (x ∷ [])
take-last_in zero xs x h = absurd (omega arith)
take-last_in (suc zero) [] x h = refl
take-last_in (suc (suc n)) [] x h = refl
take-last_in (suc n) (y ∷ ys) x h = ap (◌∷◌ y) (take-last_in n ys x (omega arith))

take-last_out :
    (n : ℕ) (xs : List ℕ) (x : ℕ) → n ≤ length (take n xs) → take n (xs ++ (x ∷ [])) ≡ take n xs
take-last_out zero xs x h = refl
take-last_out (suc n) [] x h = absurd (omega arith)
take-last_out (suc n) (y ∷ ys) x h = ap (◌∷◌ y) (take-last_out n ys x (omega arith))

put-Filled :
    (f : Flushing) (t n : ℕ) (sent held : List ℕ)
    → Filled f sent held
    → Filled
        (write_full (record f { seg = put_timestamp t (put_number n f.seg) }))
        (sent ++ (n ∷ []))
        held
unfolding write_full
put-Filled f t n sent held fill = elim (Bool-cases (is_full filled)) [
  | inl full ↦ rw full (record {
    shown = append-nil _ ∙ numbers-last f.written filled ∙ shown;
    room = omega arith;
    small = All-append Small f.written _ fill.small (omega (arith, ==→eq _ _ full), tt);
    coming = fill.coming;
  })
  | inr open_still ↦ rw open_still (record {
    shown = shown;
    room = ground (arith, longer, fill.room);
    small = fill.small;
    coming = fill.coming;
  })
]
  where
    filled : AckSegment
    filled = put_timestamp t (put_number n f.seg)

    listed : filled.number_list ≡ f.seg.number_list ++ (n ∷ [])
    listed = number_list-put_timestamp t (put_number n f.seg)

    shown : numbers f.written ++ filled.number_list ≡ sent ++ (n ∷ [])
    shown =
        ap (λ (rest : List ℕ). numbers f.written ++ rest) listed
        ∙ sym (append_assoc (numbers f.written) f.seg.number_list (n ∷ []))
        ∙ ap (λ (front : List ℕ). front ++ (n ∷ [])) fill.shown

    longer : length filled.number_list ≡ length f.seg.number_list + 1
    longer = ap length listed ∙ length-append f.seg.number_list (n ∷ [])

hold-Filled :
    (f : Flushing) (n : ℕ) (sent held : List ℕ)
    → Filled f sent held
    → Filled
        (if ltb (length f.candidates) candidate_limit
          then record f { candidates = f.candidates ++ (n ∷ []) }
          else f)
        sent
        (held ++ (n ∷ []))
hold-Filled f n sent held fill = elim (Bool-cases (ltb (length f.candidates) candidate_limit)) [
  | inl free ↦ rw free (record {
    shown = fill.shown;
    room = fill.room;
    small = fill.small;
    coming =
        ap (λ (front : List ℕ). front ++ (n ∷ [])) fill.coming
        ∙ sym (take-last_in candidate_limit held n (omega (arith, taken, ltb→lt _ _ free)));
  })
  | inr none_left ↦ rw none_left (record {
    shown = fill.shown;
    room = fill.room;
    small = fill.small;
    coming =
        fill.coming
        ∙ sym (take-last_out candidate_limit held n (omega (arith, taken, ltb→ge _ _ none_left)));
  })
]
  where
    taken : length f.candidates ≡ length (take candidate_limit held)
    taken = ap length fill.coming

flush_entries-Filled :
    (current : ℕ) (ps : List Pending) (f : Flushing) (sent held : List ℕ)
    → Filled f sent held
    → Filled (flush_entries current ps f) (sent ++ due current ps) (held ++ waiting current ps)
unfolding flush_entries flush_entry due waiting
flush_entries-Filled current [] f sent held fill = rw (append-nil sent, append-nil held) fill
flush_entries-Filled current (p ∷ ps) f sent held fill =
    elim (Bool-cases (ltb current p.next_flush)) [
      | inl early ↦ rw early (
          rw (sym (append_assoc held (p.number ∷ []) (waiting current ps))) (
            flush_entries-Filled current ps _ sent (held ++ (p.number ∷ []))
              (hold-Filled f p.number sent held fill)))
      | inr now ↦ rw now (
          rw (sym (append_assoc sent (p.number ∷ []) (due current ps))) (
            flush_entries-Filled current ps _ (sent ++ (p.number ∷ [])) held
              (put-Filled f p.timestamp p.number sent held fill)))
    ]

put_candidates-numbers :
    (ns : List ℕ) (seg : AckSegment)
    → Small seg
    → Small (put_candidates ns seg)
      × (k : ℕ) × ((put_candidates ns seg).number_list ≡ seg.number_list ++ take k ns)
unfolding put_candidates
put_candidates-numbers [] seg small = (small, 0, sym (append-nil seg.number_list))
put_candidates-numbers (n ∷ ns) seg small = elim (Bool-cases (is_full seg)) [
  | inl full ↦ rw full (small, 0, sym (append-nil seg.number_list))
  | inr room ↦
      let (small', k, shown) =
        put_candidates-numbers ns (put_number n seg)
          (ground (arith, small, length-append seg.number_list (n ∷ []))) in
      rw room (small', suc k, shown ∙ append_assoc seg.number_list (n ∷ []) (take k ns))
]

-- What a flush has sent: `sent`, and a part of what may come along.
abbrev pub Sent : List AckSegment → List ℕ → List ℕ → Type 0
Sent segs sent held = All Small segs × (k : ℕ) × (numbers segs ≡ sent ++ take k held)

last_segment-Sent :
    (f : Flushing) (sent held : List ℕ)
    → Filled f sent held
    → Sent (last_segment f) sent (take candidate_limit held)
unfolding last_segment is_empty
last_segment-Sent f sent held fill =
    elim (Bool-cases (f.dirty || not (length f.seg.number_list == 0))) [
      | inl goes ↦
          let (small, k, shown) =
            put_candidates-numbers f.candidates f.seg (omega (arith, fill.room)) in
          rw goes (
            All-append Small f.written _ fill.small (small, tt),
            k,
            numbers-last f.written _
                ∙ ap (λ (rest : List ℕ). numbers f.written ++ rest) shown
                ∙ sym (append_assoc (numbers f.written) f.seg.number_list (take k f.candidates))
                ∙ ap (λ (front : List ℕ). front ++ take k f.candidates) fill.shown
                ∙ ap (λ (cs : List ℕ). sent ++ take k cs) fill.coming,
          )
      | inr stays ↦ rw stays (
        fill.small,
        0,
        sym (append-nil (numbers f.written))
            ∙ ap (λ (rest : List ℕ). numbers f.written ++ rest) (sym (empty (no_numbers stays)))
            ∙ fill.shown
            ∙ sym (append-nil sent),
      )
    ]
  where
    no_numbers :
        (f.dirty || not (length f.seg.number_list == 0)) ≡ false → length f.seg.number_list ≡ 0
    no_numbers e = ground arith

    empty : {xs : List ℕ} → length xs ≡ 0 → xs ≡ []
    empty {xs} e = nothing xs e
      where
        nothing : (xs : List ℕ) → length xs ≡ 0 → xs ≡ []
        nothing [] h = refl
        nothing (x ∷ xs) h = absurd (omega arith)

-- A flush sends every number that is due, once and in the order in which they came, in segments of at
-- most 128 numbers; of the first 128 numbers that are not due some may come along behind them, and
-- nothing else does.
pub flush-Sent :
    (current rto : ℕ) (l : AckList)
    → Sent
        (flush current rto l).1
        (due current l.entries)
        (take candidate_limit (waiting current l.entries))
unfolding flush flushed numbers
flush-Sent current rto l =
    last_segment-Sent (flushed current l) (due current l.entries) (waiting current l.entries) (
      flush_entries-Filled current l.entries
        (record { seg = new_ack_segment; candidates = []; written = []; dirty = l.dirty }) [] []
        (record { shown = refl; room = omega arith; small = tt; coming = refl }))
