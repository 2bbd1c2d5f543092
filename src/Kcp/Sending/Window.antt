-- ===== src/Kcp/Sending/Window.antt =====
-- What the window keeps when segments are acknowledged, against filters of the whole list. The window
-- compares numbers without regard to wrapping, so the numbers in it must ascend.
use reflex.Prelude.{
  ℕ, ◌≤◌, ◌<◌, ◌≡◌, refl, sym, ap, inl, inr, Bool, true, false, Bool-cases, not, List, [], ◌∷◌, All,
  ltb, leb, ◌==◌, if◌then◌else◌, arith,
}
use reflex.Kcp.Segment.{DataSegment}
use reflex.Kcp.Sending.{SendingWindow, clear_below, clear, cons_to, remove_from, remove}

unfoldable pub keep : (DataSegment → Bool) → List DataSegment → List DataSegment
keep p [] = []
keep p (seg ∷ segs) = if p seg then seg ∷ keep p segs else keep p segs

unfoldable pub holds_number : ℕ → List DataSegment → Bool
holds_number number [] = false
holds_number number (seg ∷ segs) = if seg.number == number then true else holds_number number segs

-- The numbers ascend.
unfoldable pub Ascending : List DataSegment → Type 0
Ascending [] = Unit
Ascending (seg ∷ segs) = All (λ (s : DataSegment). seg.number < s.number) segs × Ascending segs

keep_all :
    (p : DataSegment → Bool) (segs : List DataSegment)
    → All (λ (s : DataSegment). p s ≡ true) segs
    → keep p segs ≡ segs
unfolding keep
keep_all p [] h = refl
keep_all p (seg ∷ segs) (h, hs) = rw h (ap (◌∷◌ seg) (keep_all p segs hs))

above :
    (una k : ℕ) (segs : List DataSegment)
    → una ≤ k
    → All (λ (s : DataSegment). k < s.number) segs
    → All (λ (s : DataSegment). leb una s.number ≡ true) segs
above una k [] h hs = tt
above una k (seg ∷ segs) h (b, hs) = (ground (arith, h, b), above una k segs h hs)

differs :
    (number k : ℕ) (segs : List DataSegment)
    → number ≤ k
    → All (λ (s : DataSegment). k < s.number) segs
    → All (λ (s : DataSegment). not (s.number == number) ≡ true) segs
differs number k [] h hs = tt
differs number k (seg ∷ segs) h (b, hs) = (ground (arith, h, b), differs number k segs h hs)

clear_below-keep :
    (una : ℕ) (segs : List DataSegment)
    → Ascending segs
    → clear_below una segs ≡ keep (λ (s : DataSegment). leb una s.number) segs
unfolding clear_below keep Ascending
clear_below-keep una [] a = refl
clear_below-keep una (seg ∷ segs) (more, a) = elim (Bool-cases (leb una seg.number)) [
  | inl stays ↦ rw stays (
      ap (◌∷◌ seg) (
        sym (
          keep_all (λ (s : DataSegment). leb una s.number) segs
            (above una seg.number segs (ground (arith, stays)) more))))
  | inr goes ↦ rw goes (clear_below-keep una segs a)
]

-- When the numbers in the window ascend, `Clear` keeps the segments from a number on.
pub clear-keep :
    (una : ℕ) (sw : SendingWindow)
    → Ascending sw.cache
    → (clear una sw).cache ≡ keep (λ (s : DataSegment). leb una s.number) sw.cache
clear-keep una sw a = clear_below-keep una sw.cache a

not_held :
    (number k : ℕ) (segs : List DataSegment)
    → number ≤ k
    → All (λ (s : DataSegment). k < s.number) segs
    → holds_number number segs ≡ false
unfolding holds_number
not_held number k [] h hs = refl
not_held number k (seg ∷ segs) h (b, hs) = rw (ne h b) (not_held number k segs h hs)
  where
    ne : number ≤ k → k < seg.number → (seg.number == number) ≡ false
    ne h b = ground (arith, h, b)

remove_from-keep :
    (number : ℕ) (segs : List DataSegment)
    → Ascending segs
    → remove_from number segs
      ≡ (keep (λ (s : DataSegment). not (s.number == number)) segs, holds_number number segs)
unfolding remove_from keep holds_number Ascending
remove_from-keep number [] a = refl
remove_from-keep number (seg ∷ segs) (more, a) = elim (Bool-cases (ltb number seg.number)) [
  | inl past ↦
      rw
        (
          past,
          later past,
          keep_all (λ (s : DataSegment). not (s.number == number)) segs
              (differs number seg.number segs (ground (arith, past)) more),
          not_held number seg.number segs (ground (arith, past)) more,
        )
        refl
  | inr on ↦ elim (Bool-cases (seg.number == number)) [
    | inl hit ↦
        rw
          (
            on,
            hit,
            keep_all (λ (s : DataSegment). not (s.number == number)) segs
                (differs number seg.number segs (at_most hit) more),
          )
          refl
    | inr miss ↦ rw (on, miss) (ap (cons_to seg) (remove_from-keep number segs a))
  ]
]
  where
    later : ltb number seg.number ≡ true → (seg.number == number) ≡ false
    later past = ground (arith, past)

    at_most : (seg.number == number) ≡ true → number ≤ seg.number
    at_most hit = ground (arith, hit)

-- When the numbers in the window ascend, `Remove` takes out the segment of a number and no other,
-- and tells whether there was one.
pub remove-keep :
    (number : ℕ) (sw : SendingWindow)
    → Ascending sw.cache
    → ((remove number sw).0.cache ≡ keep (λ (s : DataSegment). not (s.number == number)) sw.cache)
      × ((remove number sw).1 ≡ holds_number number sw.cache)
unfolding remove
remove-keep number sw a = (
  ap (λ (r : List DataSegment × Bool). r.0) (remove_from-keep number sw.cache a),
  ap (λ (r : List DataSegment × Bool). r.1) (remove_from-keep number sw.cache a),
)
