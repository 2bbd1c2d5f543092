-- ===== src/Relay/Delivery.antt =====
-- What a session's client sends arrives at the upstream.
use reflex.Prelude.{
  ℕ, zero, suc, ◌+◌, ◌-◌, ◌≤◌, ◌<◌, ◌≡◌, refl, sym, ap, ◌∙◌, true, Option, none, some, List, [],
  ◌∷◌, ◌++◌, length, append-nil, append_assoc, arith,
}
use reflex.Prelude.Bytes.{Bytes}
use reflex.Prelude.Result.{Result, ok, err}
use reflex.Io.{Reader, Error}
use reflex.Crypto.{Crypto}
use reflex.Session.{Frame, Session, read_frame, frame_type_data, frame_type_close}
use reflex.Session.Stream.{Message, message, cons_message, collect, read_frames}
use reflex.Relay.{
  Destination, Link, take_buffer, write_upstream, Relay, Outcome, continues, ends, after_write,
  select, selected, data_frame, close_link, handle_frame, with_frame, session_step, next_round,
  session_loop,
}

-- The frames of a client that sends these payloads and then closes.
unfoldable pub upload : List Bytes → Bytes → List Message
upload [] goodbye = record { frame_type = frame_type_close; payload = goodbye } ∷ []
upload (p ∷ ps) goodbye = record { frame_type = frame_type_data; payload = p } ∷ upload ps goodbye

-- The upstream gets no empty buffer.
cons_payload : Bytes → List Bytes → List Bytes
cons_payload [] ps = ps
cons_payload (b ∷ bs) ps = (b ∷ bs) ∷ ps

unfoldable pub payloads : List Bytes → List Bytes
unfolding cons_payload
payloads [] = []
payloads (p ∷ ps) = cons_payload p (payloads ps)

cons_message-ok :
    (m m' : Message) (ms : List Message) (s' : Session) (r' : Reader)
    (x : Session × (Reader × Result Error (List Message)))
    → cons_message m x ≡ (s', (r', ok (m' ∷ ms)))
    → (m ≡ m') × (x ≡ (s', (r', ok ms)))
cons_message-ok m m' ms s' r' (s, (r, err e)) h = ground arith
cons_message-ok m m' ms s' r' (s, (r, ok rest)) h = ground arith

module _ (c : Crypto) (dispatch : Destination → Option Link) where
  -- What the first of several frames leaves.
  abbrev Heads : Session → Reader → ℕ → Session → Reader → Message → List Message → Type 0
  Heads s r n s' r' m ms =
      (s1 : Session) × (r1 : Reader) × (frame : Frame) × (read_frame c s r ≡ (s1, (r1, ok frame)))
      × (message frame ≡ m)
      × (read_frames c n s1 r1 ≡ (s', (r', ok ms)))

  collect-Heads :
      (s : Session) (r : Reader) (n : ℕ) (s' : Session) (r' : Reader) (m : Message)
      (ms : List Message) (input : Session × (Reader × Result Error Frame))
      → read_frame c s r ≡ input
      → collect c input (λ s'' r''. read_frames c n s'' r'') ≡ (s', (r', ok (m ∷ ms)))
      → Heads s r n s' r' m ms
  unfolding collect
  collect-Heads s r n s' r' m ms (s1, (r1, err e)) read h = ground arith
  collect-Heads s r n s' r' m ms (s1, (r1, ok frame)) read h =
      let (same, rest) = cons_message-ok (message frame) m ms s' r' (read_frames c n s1 r1) h in
      (s1, r1, frame, read, same, rest)

  read_frames-Heads :
      (s : Session) (r : Reader) (n : ℕ) (s' : Session) (r' : Reader) (m : Message)
      (ms : List Message)
      → read_frames c (suc n) s r ≡ (s', (r', ok (m ∷ ms)))
      → Heads s r n s' r' m ms
  unfolding read_frames
  read_frames-Heads s r n s' r' m ms h = collect-Heads s r n s' r' m ms (read_frame c s r) refl h

  -- The link behind the payloads.
  abbrev filled : Link → List Bytes → Link
  filled link ps = record link {
    delivered = link.delivered ++ ps;
    accepts = link.accepts - length ps;
  }

  filled-nil : (link : Link) → filled link [] ≡ link
  filled-nil link = λ i. record link { delivered = append-nil link.delivered i; accepts = same i }
    where
      same : link.accepts - 0 ≡ link.accepts
      same = omega arith

  take_buffer-filled :
      (link : Link) (p : Bytes) (n : ℕ)
      → n ≡ link.accepts
      → 1 ≤ n
      → take_buffer link p n ≡ (filled link (p ∷ []), ok tt)
  unfolding take_buffer
  take_buffer-filled link p zero same room = absurd (omega arith)
  take_buffer-filled link p (suc n) same room =
      λ i. (record link { delivered = link.delivered ++ (p ∷ []); accepts = left i }, ok tt)
    where
      left : n ≡ link.accepts - 1
      left = omega arith

  write_upstream-filled :
      (link : Link) (p : Bytes)
      → length (cons_payload p []) ≤ link.accepts
      → write_upstream link p ≡ (filled link (cons_payload p []), ok tt)
  unfolding write_upstream cons_payload
  write_upstream-filled link [] room = λ i. (sym (filled-nil link) i, ok tt)
  write_upstream-filled link (b ∷ bs) room = take_buffer-filled link (b ∷ bs) link.accepts refl room

  step_data :
      (s : Relay) (link : Link) (s1 : Session) (r1 : Reader) (frame : Frame) (p : Bytes)
      → s.link ≡ some link
      → s.upstream_err ≡ none
      → length (cons_payload p []) ≤ link.accepts
      → read_frame c s.session s.reader ≡ (s1, (r1, ok frame))
      → message frame ≡ record { frame_type = frame_type_data; payload = p }
      → session_step c dispatch s ≡ (
        record s { session = s1; reader = r1; link = some (filled link (cons_payload p [])) },
        continues,
      )
  unfolding session_step with_frame handle_frame data_frame selected after_write select
  step_data s link s1 r1 frame p linked quiet room read same =
      rw
        (
          read,
          ap (λ (m : Message). m.frame_type) same,
          ap (λ (m : Message). m.payload) same,
          linked,
          write_upstream-filled link p room,
          quiet,
        )
        λ i. (
          record s {
            session = s1;
            reader = r1;
            link = some (filled link (cons_payload p []));
            upstream_err = quiet i;
          },
          continues,
        )

  session_loop-goes_on :
      (fuel : ℕ) (s s' : Relay)
      → session_step c dispatch s ≡ (s', continues)
      → session_loop c dispatch (suc fuel) s ≡ session_loop c dispatch fuel s'
  unfolding session_loop next_round
  session_loop-goes_on fuel s s' step =
      ap (λ (x : Relay × Outcome). next_round x (λ s''. session_loop c dispatch fuel s'')) step

  session_loop-stops :
      (fuel : ℕ) (s s' : Relay) (result : Result Error (Unit {0}))
      → session_step c dispatch s ≡ (s', ends result)
      → session_loop c dispatch (suc fuel) s ≡ (s', some result)
  unfolding session_loop next_round
  session_loop-stops fuel s s' result step =
      ap (λ (x : Relay × Outcome). next_round x (λ s''. session_loop c dispatch fuel s'')) step

  step_close :
      (s : Relay) (link : Link) (s1 : Session) (r1 : Reader) (frame : Frame) (goodbye : Bytes)
      → s.link ≡ some link
      → read_frame c s.session s.reader ≡ (s1, (r1, ok frame))
      → message frame ≡ record { frame_type = frame_type_close; payload = goodbye }
      → session_step c dispatch s ≡ (
        record s { session = s1; reader = r1; link = some (record link { closed = true }) },
        ends (ok tt),
      )
  unfolding session_step with_frame handle_frame close_link
  step_close s link s1 r1 frame goodbye linked read same =
      rw (read, ap (λ (m : Message). m.frame_type) same, linked) refl

  filled-filled :
      (link : Link) (p : Bytes) (ps : List Bytes)
      → filled (filled link (cons_payload p [])) ps ≡ filled link (cons_payload p ps)
  unfolding cons_payload
  filled-filled link [] ps = ap (λ (l : Link). filled l ps) (filled-nil link)
  filled-filled link (b ∷ bs) ps = λ i. record link {
    delivered = append_assoc link.delivered ((b ∷ bs) ∷ []) ps i;
    accepts = left i;
  }
    where
      left : link.accepts - 1 - length ps ≡ link.accepts - suc (length ps)
      left = omega arith

  room-cons :
      (p : Bytes) (ps : List Bytes)
      → length (cons_payload p ps) ≡ length (cons_payload p []) + length ps
  unfolding cons_payload
  room-cons [] ps = omega arith
  room-cons (b ∷ bs) ps = omega arith

  no_frames :
      (s s' : Session) (r r' : Reader)
      → read_frames c 0 s r ≡ (s', (r', ok []))
      → (s ≡ s') × (r ≡ r')
  unfolding read_frames
  no_frames s s' r r' e = (
    ap (λ (x : Session × (Reader × Result Error (List Message))). x.0) e,
    ap (λ (x : Session × (Reader × Result Error (List Message))). x.1.0) e,
  )

  -- A session whose link is open and whose forwarder has reported nothing, on a stream of data frames
  -- and a close frame at the end: the upstream gets every payload that is not empty, once and in
  -- order, then its link is closed and the session ends without an error, provided that the upstream
  -- takes that many buffers.
  pub session_loop-upload :
      (ps : List Bytes) (goodbye : Bytes) (fuel : ℕ) (s : Relay) (link : Link) (s' : Session)
      (r' : Reader)
      → s.link ≡ some link
      → s.upstream_err ≡ none
      → length (payloads ps) ≤ link.accepts
      → length ps < fuel
      → read_frames c (suc (length ps)) s.session s.reader ≡ (s', (r', ok (upload ps goodbye)))
      → session_loop c dispatch fuel s ≡ (
        record s {
          session = s';
          reader = r';
          link = some (record (filled link (payloads ps)) { closed = true });
        },
        some (ok tt),
      )
  unfolding upload payloads
  session_loop-upload ps goodbye zero s link s' r' linked quiet room enough reads =
      absurd (omega arith)
  session_loop-upload [] goodbye (suc fuel) s link s' r' linked quiet room enough reads =
      let (s1, r1, frame, read, same, rest) = read_frames-Heads _ _ _ s' r' _ _ reads in
      let (session, reader) = no_frames s1 s' r1 r' rest in
      session_loop-stops fuel s _ (ok tt) (step_close s link s1 r1 frame goodbye linked read same)
      ∙ λ i. (
        record s {
          session = session i;
          reader = reader i;
          link = some (record (sym (filled-nil link) i) { closed = true });
        },
        some (ok tt),
      )
  session_loop-upload (p ∷ ps) goodbye (suc fuel) s link s' r' linked quiet room enough reads =
      let (s1, r1, frame, read, same, rest) = read_frames-Heads _ _ _ s' r' _ _ reads in
      session_loop-goes_on fuel s _ (
        step_data s link s1 r1 frame p linked quiet (omega (arith, room-cons p (payloads ps), room))
          read same)
      ∙ session_loop-upload ps goodbye fuel
          (record s { session = s1; reader = r1; link = some (filled link (cons_payload p [])) })
          (filled link (cons_payload p [])) s' r' refl quiet
          (omega (arith, room-cons p (payloads ps), room)) (omega (arith, enough)) rest
      ∙ λ i. (
        record s {
          session = s';
          reader = r';
          link = some (record (filled-filled link p (payloads ps) i) { closed = true });
        },
        some (ok tt),
      )
