-- ===== src/Kcp/Connection/Writing.antt =====
-- What becomes of the bytes of a `Write`.
use reflex.Prelude.{
  ℕ, zero, suc, ◌<◌, ◌≡◌, refl, sym, ap, ◌∙◌, Bool, true, false, not, List, [], ◌∷◌, ◌++◌,
  append_assoc, append-nil, length, take, drop, take-append-drop, length-drop, ltb, ◌==◌,
  if◌then◌else◌, either_branch, if_ap, arith,
}
use mathlib.Core.Path.{subst}
use reflex.Prelude.Bytes.{Bytes}
use reflex.Kcp.Words.{add32}
use reflex.Kcp.Segment.{DataSegment}
use reflex.Kcp.Sending.{SendingWorker, push_back, push}
use reflex.Kcp.Connection.{
  State, active, is, Connection, Outcome, done, refused, waits, payload_room, pushed_to, write_loop,
  write,
}

-- The bytes in the window.
unfoldable pub queued : List DataSegment → Bytes
queued [] = []
queued (seg ∷ segs) = seg.payload ++ queued segs

abbrev pub queue_of : Connection → Bytes
queue_of c = queued c.sending_worker.window.cache

-- The window has no room, or is closed.
abbrev pub Stuck : Connection → Type 0
Stuck c = (b : Bytes) → (push b c.sending_worker).1 ≡ false

-- A write of `b` in a connection that had `before` in its window: the window has got all of it, or
-- the first part, and then it takes no more.
unfoldable pub Wrote : Bytes → Bytes → Connection × Outcome Bytes → Type 0
Wrote before b (c, done rest) = (rest ≡ []) × (queue_of c ≡ before ++ b)
Wrote before b (c, refused) = ⊥
Wrote before b (c, waits rest) = (queue_of c ++ rest ≡ before ++ b) × Stuck c

queued-append : (xs ys : List DataSegment) → queued (xs ++ ys) ≡ queued xs ++ queued ys
unfolding queued
queued-append [] ys = refl
queued-append (x ∷ xs) ys =
    ap (λ (b : Bytes). x.payload ++ b) (queued-append xs ys)
    ∙ sym (append_assoc x.payload (queued xs) (queued ys))

-- Whether the window takes one more.
abbrev accepts : SendingWorker → Bool
accepts w =
    if w.closed then false else if ltb w.window_size (length w.window.cache) then false else true

push-accepts : (b : Bytes) (w : SendingWorker) → (push b w).1 ≡ accepts w
unfolding push
push-accepts b w =
    if_ap (λ (r : SendingWorker × Bool). r.1) w.closed (w, false)
      (if ltb w.window_size (length w.window.cache) then (w, false) else (added, true))
    ∙ ap (λ (a : Bool). if w.closed then false else a)
        (if_ap (λ (r : SendingWorker × Bool). r.1) (ltb w.window_size (length w.window.cache))
          (w, false) (added, true))
  where
    added : SendingWorker
    added = record w {
      window = push_back w.next_number b w.window;
      next_number = add32 w.next_number 1;
    }

-- What a push does to the bytes in the window.
abbrev Queued : Bytes → Bytes → SendingWorker × Bool → Type 0
Queued b before (w, accepted) = accepted ≡ true → queued w.window.cache ≡ before ++ b

push-Queued : (b : Bytes) (w : SendingWorker) → Queued b (queued w.window.cache) (push b w)
unfolding push push_back queued
push-Queued b w =
    let added : SendingWorker = record w {
      window = push_back w.next_number b w.window;
      next_number = add32 w.next_number 1;
    } in
    either_branch (Queued b (queued w.window.cache)) w.closed (w, false)
      (if ltb w.window_size (length w.window.cache) then (w, false) else (added, true)) (λ e. never)
      (λ e.
        either_branch (Queued b (queued w.window.cache)) (ltb w.window_size (length w.window.cache))
          (w, false) (added, true) (λ e'. never)
          (λ e' t.
            queued-append w.window.cache _
            ∙ ap (λ (p : Bytes). queued w.window.cache ++ p) (append-nil b)))
  where
    never : false ≡ true → queued w.window.cache ≡ queued w.window.cache ++ b
    never p = cc

earlier-Wrote :
    (before before' b b' chunk : Bytes) (r : Connection × Outcome Bytes)
    → before' ≡ before ++ chunk
    → chunk ++ b' ≡ b
    → Wrote before' b' r
    → Wrote before b r
unfolding Wrote
earlier-Wrote before before' b b' chunk (c, done rest) e split (none_left, q) =
    (none_left, q ∙ more)
  where
    more : before' ++ b' ≡ before ++ b
    more =
        ap (λ (p : Bytes). p ++ b') e
        ∙ append_assoc before chunk b'
        ∙ ap (λ (p : Bytes). before ++ p) split
earlier-Wrote before before' b b' chunk (c, refused) e split h = h
earlier-Wrote before before' b b' chunk (c, waits rest) e split (q, stuck) = (q ∙ more, stuck)
  where
    more : before' ++ b' ≡ before ++ b
    more =
        ap (λ (p : Bytes). p ++ b') e
        ∙ append_assoc before chunk b'
        ∙ ap (λ (p : Bytes). before ++ p) split

pushed_to-Wrote :
    (c : Connection) (b chunk b' : Bytes) (r : SendingWorker × Bool)
    (later : Connection → Connection × Outcome Bytes)
    → push chunk c.sending_worker ≡ r
    → chunk ++ b' ≡ b
    → ((c' : Connection) → c'.state ≡ c.state → c'.mss ≡ c.mss → Wrote (queue_of c') b' (later c'))
    → Wrote (queue_of c) b (pushed_to c b r later)
unfolding pushed_to Wrote
pushed_to-Wrote c b chunk b' (w, true) later e split step =
    let c' : Connection = record c { sending_worker = w; data_woken = true } in
    earlier-Wrote (queue_of c) (queue_of c') b b' chunk (later c')
      (subst (Queued chunk (queue_of c)) e (push-Queued chunk c.sending_worker) refl) split
      (step c' refl refl)
pushed_to-Wrote c b chunk b' (w, false) later e split step = (
  refl,
  λ x.
      push-accepts x c.sending_worker
      ∙ sym (push-accepts chunk c.sending_worker)
      ∙ ap (λ (r : SendingWorker × Bool). r.1) e,
)

chunk_pos : (c : Connection) → 0 < c.mss → 0 < payload_room c
unfolding payload_room
chunk_pos c h = ground (arith, h)

empty_take : (k : ℕ) (b : Bytes) → 0 < k → (length (take k b) == 0) ≡ true → b ≡ []
empty_take zero b h e = absurd (omega (arith, h))
empty_take (suc k) [] h e = refl
empty_take (suc k) (x ∷ b) h e = absurd (ground (arith, e))

some_taken : (k : ℕ) (b : Bytes) → (length (take k b) == 0) ≡ false → (0 < k) × (0 < length b)
some_taken zero b e = absurd (ground (arith, e))
some_taken (suc k) [] e = absurd (ground (arith, e))
some_taken (suc k) (x ∷ b) e = (omega arith, omega arith)

write_loop-Wrote :
    (fuel : ℕ) (b : Bytes) (c : Connection)
    → c.state ≡ active
    → 0 < c.mss
    → length b < fuel
    → Wrote (queue_of c) b (write_loop fuel b c)
unfolding write_loop is Wrote
write_loop-Wrote zero b c at some_mss h = absurd (omega (arith, h))
write_loop-Wrote (suc fuel) b c at some_mss h =
    either_branch (Wrote (queue_of c) b) (not (is c.state active)) (c, refused)
      (if length (take (payload_room c) b) == 0 then (c, done []) else pushed)
      (λ e. never (sym (ap (λ (s : State). not (is s active)) at) ∙ e))
      (λ e.
        either_branch (Wrote (queue_of c) b) (length (take (payload_room c) b) == 0) (c, done [])
          pushed (λ e'. nothing (empty_take (payload_room c) b (chunk_pos c some_mss) e'))
          (λ e'.
            pushed_to-Wrote c b (take (payload_room c) b) (drop (payload_room c) b)
              (push (take (payload_room c) b) c.sending_worker)
              (λ c'. write_loop fuel (drop (payload_room c) b) c') refl
              (take-append-drop (payload_room c) b)
              (λ c' same_state same_mss.
                write_loop-Wrote fuel (drop (payload_room c) b) c' (same_state ∙ at)
                  (omega (arith, same_mss, some_mss))
                  (shorter (some_taken (payload_room c) b e')))))
  where
    pushed : Connection × Outcome Bytes
    pushed =
        pushed_to c (b) (push (take (payload_room c) b) c.sending_worker)
          (λ c'. write_loop fuel (drop (payload_room c) b) c')

    never : false ≡ true → Wrote (queue_of c) b (c, refused)
    never p = cc

    nothing : b ≡ [] → Wrote (queue_of c) b (c, done [])
    nothing p = (refl, sym (ap (λ (x : Bytes). queue_of c ++ x) p ∙ append-nil (queue_of c)))

    shorter : (0 < payload_room c) × (0 < length b) → length (drop (payload_room c) b) < fuel
    shorter (k, l) = omega (arith, length-drop (payload_room c) b, k, l, h)

-- A write on an active connection with room in its packets is not refused: it has put all its bytes
-- into the window, in order behind those that were there, or a first part of them, and then the
-- window takes no more and the writer waits with the rest.
pub write-Wrote :
    (b : Bytes) (c : Connection) → c.state ≡ active → 0 < c.mss → Wrote (queue_of c) b (write b c)
unfolding write
write-Wrote b c at some_mss = write_loop-Wrote (suc (length b)) b c at some_mss (omega arith)
