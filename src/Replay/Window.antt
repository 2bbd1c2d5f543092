-- ===== src/Replay/Window.antt =====
-- `remember` keeps a sliding window of the accepted digests.
use reflex.Prelude.{
  ℕ, suc, ◌+◌, ◌-◌, ◌≤◌, ◌<◌, ◌≡◌, refl, sym, ap, ◌∙◌, inl, inr, true, false, List, [], ◌∷◌, ◌++◌,
  length, length-append, length-drop, drop, drop-drop, drop-append_le, ltb, Bool-cases, arith,
}
use reflex.Prelude.Bytes.{Bytes, bytes_eq→eq, bytes_eq_refl}
use reflex.Prelude.Keys.{mem, delete, mem-append, mem-delete, Distinct, Distinct-append}
use reflex.Replay.{
  Replay, new_replay, remember, evict, answers, sliding, recent, replay_window_size,
}

-- The set and the queue hold the same digests, none twice, and no more than the window.
pub record IsWindow (r : Replay) : Type 0 where
  pub same : (k : Bytes) → mem k r.seen ≡ mem k r.order
  pub distinct : Distinct r.order
  pub bounded : length r.order ≤ replay_window_size

pub new_replay-IsWindow : IsWindow new_replay
unfolding new_replay
new_replay-IsWindow = record { same = λ k. refl; distinct = tt; bounded = omega arith }

same_push :
    (k h : Bytes) (seen order : List Bytes)
    → mem k seen ≡ mem k order
    → mem k (h ∷ seen) ≡ mem k (order ++ (h ∷ []))
unfolding mem
same_push k h seen order e = rw (mem-append k order (h ∷ [])) (ground arith)

same_evict :
    (k old : Bytes) (seen rest : List Bytes)
    → mem k seen ≡ mem k (old ∷ rest)
    → mem old rest ≡ false
    → mem k (delete old seen) ≡ mem k rest
unfolding mem
same_evict k old seen rest e absent = rw (mem-delete k old seen) (ground (arith, bytes_eq→eq old k))

evict-IsWindow :
    (seen order : List Bytes)
    → ((k : Bytes) → mem k seen ≡ mem k order)
    → Distinct order
    → length order ≤ suc replay_window_size
    → 0 < length order
    → IsWindow (evict seen order)
unfolding evict
evict-IsWindow seen [] same distinct bounded some = absurd (omega arith)
evict-IsWindow seen (old ∷ rest) same (fresh, distinct) bounded some = record {
  same = λ k. same_evict k old seen rest (same k) fresh;
  distinct = distinct;
  bounded = omega arith;
}

-- Remembering keeps the window well formed, also when the oldest digest has to leave.
pub remember-IsWindow : (r : Replay) (h : Bytes) → IsWindow r → IsWindow (remember r h).0
unfolding remember
remember-IsWindow r h w = elim (Bool-cases (mem h r.seen)) [
  | inl old ↦ rw old w
  | inr new ↦
      let distinct : Distinct (r.order ++ (h ∷ [])) =
        Distinct-append r.order h (sym (w.same h) ∙ new) w.distinct in
      let same : (k : Bytes) → mem k (h ∷ r.seen) ≡ mem k (r.order ++ (h ∷ [])) =
        λ k. same_push k h r.seen r.order (w.same k) in
      let size : length (r.order ++ (h ∷ [])) ≡ length r.order + 1 =
        length-append r.order (h ∷ []) in
      rw new (elim (Bool-cases (ltb replay_window_size (length (r.order ++ (h ∷ []))))) [
        | inl over ↦
            rw over (evict-IsWindow _ _ same distinct (omega (arith, w.bounded)) (omega arith))
        | inr fits ↦ rw fits (record { same = same; distinct = distinct; bounded = ground arith })
      ])
]

evict_seen :
    (h : Bytes) (seen order : List Bytes)
    → ((k : Bytes) → mem k seen ≡ mem k order)
    → Distinct (order ++ (h ∷ []))
    → replay_window_size ≤ length order
    → mem h (evict (h ∷ seen) (order ++ (h ∷ []))).seen ≡ true
unfolding evict
evict_seen h seen [] same distinct full = absurd (omega arith)
evict_seen h seen (old ∷ rest) same (fresh, distinct) full =
    same_evict h old (h ∷ seen) (rest ++ (h ∷ [])) (same_push h h seen (old ∷ rest) (same h)) fresh
    ∙ rw (mem-append h rest (h ∷ [])) (unfold mem in ground (arith, bytes_eq_refl h))

-- A digest that was accepted is in the memory, also when another had to leave.
pub remember_seen :
    (r : Replay) (h : Bytes)
    → IsWindow r
    → (remember r h).1 ≡ true
    → mem h (remember r h).0.seen ≡ true
unfolding remember
remember_seen r h w e = elim (Bool-cases (mem h r.seen)) [
  | inl old ↦ rw old old
  | inr new ↦ rw new (elim (Bool-cases (ltb replay_window_size (length (r.order ++ (h ∷ []))))) [
    | inl over ↦ rw over (
        evict_seen h r.seen r.order w.same
          (Distinct-append r.order h (sym (w.same h) ∙ new) w.distinct)
          (ground (arith, length-append r.order (h ∷ []))))
    | inr fits ↦ rw fits (unfold mem in ground (arith, bytes_eq_refl h))
  ])
]

-- The window of the memory is the recent part of the accepted history.
record Represents (r : Replay) (accepted : List Bytes) : Type 0 where
  window : IsWindow r
  order : r.order ≡ recent accepted

evict-order : (seen order : List Bytes) → (evict seen order).order ≡ drop 1 order
unfolding evict
evict-order seen [] = refl
evict-order seen (old ∷ rest) = refl

recent_short :
    (accepted : List Bytes) (h : Bytes)
    → length accepted < replay_window_size
    → recent (accepted ++ (h ∷ [])) ≡ recent accepted ++ (h ∷ [])
recent_short accepted h short =
    ap (λ (n : ℕ). drop n (accepted ++ (h ∷ []))) none_left
    ∙ ap (λ (n : ℕ). drop n accepted ++ (h ∷ [])) none_yet
  where
    none_left : length (accepted ++ (h ∷ [])) - replay_window_size ≡ 0
    none_left = omega (arith, length-append accepted (h ∷ []))

    none_yet : ◌≡◌ {A = ℕ} 0 (length accepted - replay_window_size)
    none_yet = omega arith

recent_full :
    (accepted : List Bytes) (h : Bytes)
    → replay_window_size ≤ length accepted
    → recent (accepted ++ (h ∷ [])) ≡ drop 1 (recent accepted ++ (h ∷ []))
recent_full accepted h full =
    ap (λ (n : ℕ). drop n (accepted ++ (h ∷ []))) one_more
    ∙ sym (drop-drop 1 (length accepted - replay_window_size) (accepted ++ (h ∷ [])))
    ∙ ap (drop 1) (drop-append_le (length accepted - replay_window_size) accepted _ (omega arith))
  where
    one_more :
        length (accepted ++ (h ∷ [])) - replay_window_size
        ≡ length accepted - replay_window_size + 1
    one_more = omega (arith, length-append accepted (h ∷ []))

remember-order :
    (r : Replay) (accepted : List Bytes) (h : Bytes)
    → r.order ≡ recent accepted
    → mem h r.seen ≡ false
    → (remember r h).0.order ≡ recent (accepted ++ (h ∷ []))
unfolding remember
remember-order r accepted h e new =
    rw new (elim (Bool-cases (ltb replay_window_size (length (r.order ++ (h ∷ []))))) [
      | inl over ↦ rw over (
          evict-order (h ∷ r.seen) (r.order ++ (h ∷ []))
          ∙ rw e (sym (recent_full accepted h (ground (arith, sizes)))))
      | inr fits ↦ rw fits (rw e (sym (recent_short accepted h (ground (arith, sizes)))))
    ])
  where
    sizes :
        length (r.order ++ (h ∷ [])) ≡ length accepted - (length accepted - replay_window_size) + 1
    sizes = rw e (
        omega (
          arith,
          length-append (recent accepted) (h ∷ []),
          length-drop (length accepted - replay_window_size) accepted,
        ))

pub remember_old : (r : Replay) (h : Bytes) → mem h r.seen ≡ true → remember r h ≡ (r, false)
unfolding remember
remember_old r h old = rw old

pub remember_new : (r : Replay) (h : Bytes) → mem h r.seen ≡ false → (remember r h).1 ≡ true
unfolding remember
remember_new r h new = ground arith

sliding_old :
    (accepted : List Bytes) (h : Bytes) (hs : List Bytes)
    → mem h (recent accepted) ≡ true
    → sliding accepted (h ∷ hs) ≡ false ∷ sliding accepted hs
unfolding sliding
sliding_old accepted h hs old = rw (old, sliding)

sliding_new :
    (accepted : List Bytes) (h : Bytes) (hs : List Bytes)
    → mem h (recent accepted) ≡ false
    → sliding accepted (h ∷ hs) ≡ true ∷ sliding (accepted ++ (h ∷ [])) hs
unfolding sliding
sliding_new accepted h hs new = rw (new, sliding)

answers-sliding_from :
    (r : Replay) (accepted ds : List Bytes)
    → Represents r accepted
    → answers r ds ≡ sliding accepted ds
unfolding answers
answers-sliding_from r accepted [] rep = unfold sliding in refl
answers-sliding_from r accepted (h ∷ hs) rep = elim (Bool-cases (mem h r.seen)) [
  | inl old ↦
      rw (sliding_old accepted h hs (in_window ∙ old), remember_old r h old)
        (ap (◌∷◌ false) (answers-sliding_from r accepted hs rep))
  | inr new ↦
      rw (sliding_new accepted h hs (in_window ∙ new), remember_new r h new)
        (ap (◌∷◌ true) (
          answers-sliding_from (remember r h).0 (accepted ++ (h ∷ [])) hs (record {
            window = remember-IsWindow r h rep.window;
            order = remember-order r accepted h rep.order new;
          })))
]
  where
    in_window : mem h (recent accepted) ≡ mem h r.seen
    in_window = ap (mem h) (sym rep.order) ∙ sym (rep.window.same h)

-- From an empty memory, whatever digests arrive: each is answered as the window of the last
-- thousand accepted digests says. One of those is refused, any other is accepted.
pub answers-sliding : (ds : List Bytes) → answers new_replay ds ≡ sliding [] ds
answers-sliding ds =
    answers-sliding_from new_replay [] ds
      (record { window = new_replay-IsWindow; order = unfold new_replay in refl })
