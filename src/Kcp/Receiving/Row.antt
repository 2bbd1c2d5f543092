-- ===== src/Kcp/Receiving/Row.antt =====
-- What a call of `ReadMultiBuffer` takes out of the window, and what it leaves there.
use reflex.Prelude.{
  ℕ, zero, suc, ◌-◌, ◌^◌, ◌≤◌, ◌<◌, ◌≡◌, ◌≢◌, refl, sym, ◌∙◌, inl, inr, false, Bool-cases, Option,
  none, some, [], ◌∷◌, length, ◌==◌, ==→eq, arith,
}
use mathlib.Core.Path.{subst}
use reflex.MultiBuffer.{MultiBuffer}
use reflex.Kcp.Words.{add32}
use reflex.Kcp.Segment.{DataSegment}
use reflex.Kcp.Receiving.{
  Cache, find, without, remove, ReceivingWorker, detached, next_segment, in_order, next_buffers,
  read_multi_buffer,
}

-- The buffers are those of the segments of a window whose numbers follow one another from this one on,
-- up to the first number that is missing.
unfoldable pub InRow : Cache → ℕ → MultiBuffer → Type 0
InRow cache n [] = find n cache ≡ none
InRow cache n (b ∷ mb) =
    (seg : DataSegment) × (find n cache ≡ some seg)
    × (b ≡ detached seg)
    × InRow cache (add32 n 1) mb

find-without : (id m : ℕ) (cache : Cache) → id ≢ m → find id (without m cache) ≡ find id cache
unfolding find without
find-without id m [] other = refl
find-without id m ((k, seg) ∷ cache) other = elim (Bool-cases (k == m)) [
  | inl hit ↦ rw (hit, differs (==→eq k m hit)) (find-without id m cache other)
  | inr miss ↦ rw miss (rw (find-without id m cache other) refl)
]
  where
    differs : k ≡ m → (k == id) ≡ false
    differs e = ground (arith, e, other)

find-without_same : (id : ℕ) (cache : Cache) → find id (without id cache) ≡ none
unfolding find without
find-without_same id [] = refl
find-without_same id ((k, seg) ∷ cache) = elim (Bool-cases (k == id)) [
  | inl hit ↦ rw hit (find-without_same id cache)
  | inr miss ↦ rw (miss, miss) (find-without_same id cache)
]

length-without_le : (id : ℕ) (cache : Cache) → length (without id cache) ≤ length cache
unfolding without
length-without_le id [] = omega arith
length-without_le id ((k, seg) ∷ cache) = elim (Bool-cases (k == id)) [
  | inl hit ↦ rw hit (omega (arith, length-without_le id cache))
  | inr miss ↦ rw miss (omega (arith, length-without_le id cache))
]

length-without :
    (id : ℕ) (cache : Cache) (seg : DataSegment)
    → find id cache ≡ some seg
    → length (without id cache) < length cache
unfolding find without
length-without id [] seg e = cc
length-without id ((k, s) ∷ cache) seg e = elim (Bool-cases (k == id)) [
  | inl hit ↦ rw hit (omega (arith, length-without_le id cache))
  | inr miss ↦ rw miss (omega (arith, length-without id cache seg (rw miss at e)))
]

-- The two windows have the same segments under so many numbers from this one on.
abbrev Agree : ℕ → ℕ → Cache → Cache → Type 0
Agree k n window cache = (j : ℕ) → j < k → find (add32 n j) window ≡ find (add32 n j) cache

-- A worker and buffers that the loop gives for a window from this number on, of which so many numbers
-- are looked at.
record Takes (k : ℕ) (cache : Cache) (n : ℕ) (taken : ReceivingWorker × MultiBuffer) : Type 0 where
  in_row : InRow cache n taken.1
  next : taken.0.next_number ≡ add32 n (length taken.1)
  others :
      (j : ℕ)
      → length taken.1 ≤ j
      → j < k
      → find (add32 n j) taken.0.window ≡ find (add32 n j) cache

add32-add32 : (n j : ℕ) → add32 (add32 n 1) j ≡ add32 n (suc j)
add32-add32 n j = omega arith

Agree-without :
    (k n : ℕ) (window cache : Cache)
    → n < 2 ^ 32
    → k ≤ 2 ^ 32
    → Agree k n window cache
    → Agree (k - 1) (add32 n 1) (without n window) cache
Agree-without k n window cache word bound agree j h =
    find-without (add32 (add32 n 1) j) n window (λ e. apart e)
    ∙ subst (λ m. find m window ≡ find m cache) (sym (add32-add32 n j))
        (agree (suc j) (omega (arith, h)))
  where
    apart : add32 (add32 n 1) j ≢ n
    apart e = omega (arith, e, word, bound, h)

module _ (k : ℕ) (cache : Cache) (w : ReceivingWorker) where
  none-Takes :
      w.next_number < 2 ^ 32
      → 0 < k
      → k ≤ 2 ^ 32
      → Agree k w.next_number w.window cache
      → find w.next_number w.window ≡ none
      → Takes k cache w.next_number (record w { window = without w.next_number w.window }, [])
  unfolding InRow
  none-Takes word some_k bound agree e = record {
    in_row = missing;
    next = omega (arith, word);
    others = λ j from below. other j below;
  }
    where
      here : add32 w.next_number 0 ≡ w.next_number
      here = omega (arith, word)

      missing : find w.next_number cache ≡ none
      missing = sym (subst (λ m. find m w.window ≡ find m cache) here (agree 0 some_k)) ∙ e

      other :
          (j : ℕ)
          → j < k
          → find (add32 w.next_number j) (without w.next_number w.window)
            ≡ find (add32 w.next_number j) cache
      other zero below =
          subst (λ m. find m (without w.next_number w.window) ≡ find m cache) (sym here)
            (find-without_same w.next_number w.window ∙ sym missing)
      other (suc j) below =
          find-without (add32 w.next_number (suc j)) w.next_number w.window (λ e. apart e)
          ∙ agree (suc j) below
        where
          apart : add32 w.next_number (suc j) ≢ w.next_number
          apart e = omega (arith, e, word, bound, below)

  some-Takes :
      (seg : DataSegment) (taken : ReceivingWorker × MultiBuffer)
      → w.next_number < 2 ^ 32
      → 0 < k
      → Agree k w.next_number w.window cache
      → find w.next_number w.window ≡ some seg
      → Takes (k - 1) cache (add32 w.next_number 1) taken
      → Takes k cache w.next_number (taken.0, detached seg ∷ taken.1)
  unfolding InRow
  some-Takes seg taken word some_k agree e later = record {
    in_row = (
      seg,
      (sym (subst (λ m. find m w.window ≡ find m cache) here (agree 0 some_k)) ∙ e),
      refl,
      later.in_row,
    );
    next = later.next ∙ add32-add32 w.next_number (length taken.1);
    others = λ j from below. other j from below;
  }
    where
      here : add32 w.next_number 0 ≡ w.next_number
      here = omega (arith, word)

      other :
          (j : ℕ)
          → suc (length taken.1) ≤ j
          → j < k
          → find (add32 w.next_number j) taken.0.window ≡ find (add32 w.next_number j) cache
      other zero from below = absurd (omega (arith, from))
      other (suc j) from below =
          subst (λ m. find m taken.0.window ≡ find m cache) (add32-add32 w.next_number j)
            (later.others j (omega (arith, from)) (omega (arith, below)))

  next-Takes :
      (found : Option DataSegment) (later : ReceivingWorker → ReceivingWorker × MultiBuffer)
      → w.next_number < 2 ^ 32
      → 0 < k
      → k ≤ 2 ^ 32
      → Agree k w.next_number w.window cache
      → find w.next_number w.window ≡ found
      → ((w' : ReceivingWorker)
          → length w'.window < length w.window
          → w'.next_number ≡ add32 w.next_number 1
          → w'.window ≡ without w.next_number w.window
          → Takes (k - 1) cache w'.next_number (later w'))
      → Takes k cache w.next_number (next_segment w (without w.next_number w.window, found) later)
  unfolding next_segment
  next-Takes none later word some_k bound agree e step = none-Takes word some_k bound agree e
  next-Takes (some seg) later word some_k bound agree e step =
      some-Takes seg _ word some_k agree e (
        step
          (record w {
            window = without w.next_number w.window;
            next_number = add32 w.next_number 1;
          })
          (length-without w.next_number w.window seg e) refl refl)

in_order-Takes :
    (fuel k : ℕ) (cache : Cache) (w : ReceivingWorker)
    → length w.window < fuel
    → fuel ≤ k
    → k ≤ 2 ^ 32
    → w.next_number < 2 ^ 32
    → Agree k w.next_number w.window cache
    → Takes k cache w.next_number (in_order fuel w)
unfolding in_order remove
in_order-Takes zero k cache w enough more bound word agree = absurd (omega (arith, enough))
in_order-Takes (suc fuel) k cache w enough more bound word agree =
    next-Takes k cache w (find w.next_number w.window) (λ w'. in_order fuel w') word
      (omega (arith, more)) bound agree refl
      (λ w' shorter number window.
        in_order-Takes fuel (k - 1) cache w' (omega (arith, enough, shorter)) (omega (arith, more))
          (omega (arith, bound)) (omega (arith, number)) (moved w' number window))
  where
    moved :
        (w' : ReceivingWorker)
        → w'.next_number ≡ add32 w.next_number 1
        → w'.window ≡ without w.next_number w.window
        → Agree (k - 1) w'.next_number w'.window cache
    moved w' number window =
        rw (number, window) (Agree-without k w.next_number w.window cache word bound agree)

read-Takes :
    (w : ReceivingWorker)
    → w.left_over ≡ none
    → w.next_number < 2 ^ 32
    → length w.window < 2 ^ 32
    → Takes (2 ^ 32) w.window w.next_number (read_multi_buffer w)
unfolding read_multi_buffer next_buffers
read-Takes w e word few =
    subst (λ l. Takes (2 ^ 32) w.window w.next_number (next_buffers w l)) (sym e)
      (in_order-Takes (suc (length w.window)) (2 ^ 32) w.window w (omega arith) (omega (arith, few))
        (omega arith) word (λ j h. refl))

-- With nothing left over from a `Read`, a next number of 32 bits and fewer than 2 ^ 32 segments in the
-- window, `ReadMultiBuffer`
-- hands out the payloads of the segments whose numbers follow one another from the next number on, in
-- that order, all of them up to the first number that is missing, and the next number moves on by as
-- many, modulo 2 ^ 32.
pub read_multi_buffer-InRow :
    (w : ReceivingWorker)
    → w.left_over ≡ none
    → w.next_number < 2 ^ 32
    → length w.window < 2 ^ 32
    → InRow w.window w.next_number (read_multi_buffer w).1
      × ((read_multi_buffer w).0.next_number ≡ add32 w.next_number (length (read_multi_buffer w).1))
read_multi_buffer-InRow w e word few =
    let taken = read-Takes w e word few in (taken.in_row, taken.next)

-- With nothing left over from a `Read`, a next number of 32 bits and fewer than 2 ^ 32 segments in the
-- window, `ReadMultiBuffer` leaves every segment there that it does not hand out: the window has under any
-- number behind those of the segments handed out, up to 2 ^ 32 from the next number on, what it had.
pub read_multi_buffer_others :
    (w : ReceivingWorker) (j : ℕ)
    → w.left_over ≡ none
    → w.next_number < 2 ^ 32
    → length w.window < 2 ^ 32
    → length (read_multi_buffer w).1 ≤ j
    → j < 2 ^ 32
    → find (add32 w.next_number j) (read_multi_buffer w).0.window
      ≡ find (add32 w.next_number j) w.window
read_multi_buffer_others w j e word few from below = (read-Takes w e word few).others j from below
