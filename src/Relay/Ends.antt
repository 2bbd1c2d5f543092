-- ===== src/Relay/Ends.antt =====
-- The loop of `handleSession` on a stream that ends.
use reflex.Prelude.{
  ℕ, zero, suc, ◌<◌, ◌≡◌, ◌≢◌, refl, ap, ◌∙◌, inl, inr, true, Bool-cases, Option, none, some,
  length, ◌==◌, arith,
}
use reflex.Prelude.Bytes.{Bytes}
use reflex.Prelude.Result.{Result, ok, err}
use reflex.Io.{Error, io, eof}
use reflex.Crypto.{Crypto}
use reflex.Profile.{profile_from_policy}
use reflex.Session.{
  Frame, Session, set_traffic_profile, read_frame, new_session, frame_type_data, frame_type_padding,
  frame_type_timing, frame_type_close,
}
use reflex.Session.Progress.{read_frame-shorter}
use reflex.Relay.{
  Destination, Link, write_upstream, Relay, Outcome, continues, ends, after_write, close_client,
  stop, select, selected, dispatched, first_data, data_frame, controlled, handle_frame, with_frame,
  session_step, next_round, session_loop, started, handle_session,
}

module _ (c : Crypto) (dispatch : Destination → Option Link) where
  after_write-reader :
      (s : Relay) (next : Outcome) (written : Link × Result Error (Unit {0}))
      → (after_write s next written).0.reader ≡ s.reader
  unfolding after_write
  after_write-reader s next (link, err e) = refl
  after_write-reader s next (link, ok u) = refl

  select-reader : (s : Relay) (e : Option Error) → (select c dispatch s e).0.reader ≡ s.reader
  unfolding select close_client stop
  select-reader s none = refl
  select-reader s (some (io eof)) = refl
  select-reader s (some e) = refl

  selected-reader :
      (s : Relay) (x : Relay × Outcome)
      → x.0.reader ≡ s.reader
      → (selected c dispatch x).0.reader ≡ s.reader
  unfolding selected
  selected-reader s (s', continues) e = select-reader s' s'.upstream_err ∙ e
  selected-reader s (s', ends result) e = e

  dispatched-reader :
      (s : Relay) (payload : Bytes) (link : Option Link)
      → (dispatched c dispatch s payload link).0.reader ≡ s.reader
  unfolding dispatched
  dispatched-reader s payload none = refl
  dispatched-reader s payload (some link) = after_write-reader (record s { forwarding = true }) _ _

  first_data-reader :
      (s : Relay) (parsed : Result Error (Destination × Bytes))
      → (first_data c dispatch s parsed).0.reader ≡ s.reader
  unfolding first_data
  first_data-reader s (err e) = refl
  first_data-reader s (ok (dest, payload)) = dispatched-reader s payload _

  data_frame-reader :
      (s : Relay) (payload : Bytes) (link : Option Link)
      → (data_frame c dispatch s payload link).0.reader ≡ s.reader
  unfolding data_frame
  data_frame-reader s payload none = first_data-reader s _
  data_frame-reader s payload (some link) =
      selected-reader s (after_write s continues (write_upstream link payload))
        (after_write-reader s continues (write_upstream link payload))

  controlled-reader :
      (s : Relay) (x : Session × Result Error (Unit {0}))
      → (controlled c dispatch s x).0.reader ≡ s.reader
  unfolding controlled
  controlled-reader s (session, err e) = refl
  controlled-reader s (session, ok u) = refl

  -- Handling a frame reads nothing.
  handle_frame-reader :
      (s : Relay) (frame : Frame) → (handle_frame c dispatch s frame).0.reader ≡ s.reader
  unfolding handle_frame
  handle_frame-reader s frame = elim (Bool-cases (frame.frame_type == frame_type_data)) [
    | inl this ↦ rw this (data_frame-reader s frame.payload s.link)
    | inr no_data ↦ elim (Bool-cases (frame.frame_type == frame_type_padding)) [
      | inl this ↦ rw (no_data, this) (controlled-reader s _)
      | inr no_padding ↦ elim (Bool-cases (frame.frame_type == frame_type_timing)) [
        | inl this ↦ rw (no_data, no_padding, this) (controlled-reader s _)
        | inr no_timing ↦ elim (Bool-cases (frame.frame_type == frame_type_close)) [
          | inl this ↦ rw (no_data, no_padding, no_timing, this) refl
          | inr no_close ↦ rw (no_data, no_padding, no_timing, no_close) refl
        ]
      ]
    ]
  ]

  with_frame-shorter :
      (s s1 : Relay) (result : Result Error Frame)
      → ((f : Frame) → result ≡ ok f → length s.reader.pending < length s1.reader.pending)
      → (with_frame c dispatch s result).1 ≡ continues
      → length (with_frame c dispatch s result).0.reader.pending < length s1.reader.pending
  unfolding with_frame
  with_frame-shorter s s1 (ok frame) shorter e =
      rw (handle_frame-reader s frame) (shorter frame refl)
  with_frame-shorter s s1 (err (io eof)) shorter e = ground arith
  with_frame-shorter s s1 (err e') shorter e = ground arith

  -- A round that goes on has taken bytes off the stream.
  session_step-shorter :
      (s : Relay)
      → (session_step c dispatch s).1 ≡ continues
      → length (session_step c dispatch s).0.reader.pending < length s.reader.pending
  unfolding session_step
  session_step-shorter s e =
      let read = read_frame c s.session s.reader in
      with_frame-shorter _ s read.1.1
        (λ f ok_f.
          read_frame-shorter c s.session read.0 s.reader read.1.0 f
            (ap (λ (x : Result Error Frame). (read.0, (read.1.0, x))) ok_f))
        e

  next_round-ends :
      (x : Relay × Outcome) (loop : Relay → Relay × Option (Result Error (Unit {0})))
      → (x.1 ≡ continues → (loop x.0).1 ≢ none)
      → (next_round x loop).1 ≢ none
  unfolding next_round
  next_round-ends (s, continues) loop h e = h refl e
  next_round-ends (s, ends result) loop h e = cc

  session_loop-ends :
      (fuel : ℕ) (s : Relay)
      → length s.reader.pending < fuel
      → (session_loop c dispatch fuel s).1 ≢ none
  unfolding session_loop
  session_loop-ends zero s enough = absurd (omega arith)
  session_loop-ends (suc fuel) s enough =
      next_round-ends (session_step c dispatch s) _
        (λ going. session_loop-ends fuel _ (omega (arith, session_step-shorter s going, enough)))

  -- On a stream that ends, with the forwarder at rest, `handleSession` returns, with an error or without
  -- one: the fuel is enough.
  pub handle_session-ends :
      (key policy : Bytes) (s : Relay) → (handle_session c dispatch key policy s).1 ≢ none
  unfolding handle_session started
  handle_session-ends key policy s = go (new_session key)
    where
      go : (made : Result Error Session) → (started c dispatch policy s made).1 ≢ none
      go (err e) h = cc
      go (ok session) h =
          session_loop-ends (suc (length s.reader.pending))
            (record s { session = set_traffic_profile session (profile_from_policy policy) })
            (omega arith) h
