-- ===== src/Relay.antt =====
-- proxy/reflex/inbound/session.go, the relay behind a handshake: `handleSession` with its helpers, and
-- `forwardUpstreamToClient`, which runs beside it. A step of either is one transition of a `Relay`;
-- the forwarder's step is one buffer, or the end of the upstream.
pub mod Parsing
pub mod Ends
pub mod Delivery
mod Tests
use reflex.Prelude.{
  ℕ, zero, suc, ◌+◌, ◌-◌, ◌/◌, ◌%◌, Bool, true, false, Option, none, some, List, [], ◌∷◌, ◌++◌,
  length, take, drop, ltb, ◌==◌, if◌then◌else◌,
}
use reflex.Prelude.Bytes.{Bytes, uint}
use reflex.Prelude.Float.{FloatOps, Rand}
use reflex.Prelude.Result.{Result, ok, err}
use reflex.Io.{
  IoError, eof, unexpected_eof, broken, Reader, Writer, Error, io, data_frame_too_short,
  missing_destination, unknown_frame_type, dispatch_failed, upstream_failed,
}
use reflex.Crypto.{Crypto}
use reflex.Profile.{profile_from_policy}
use reflex.Session.{
  Frame, Session, new_session, set_traffic_profile, read_frame, write_frame, frame_type_data,
  frame_type_padding, frame_type_timing, frame_type_close,
}
use reflex.Morphing.{handle_control_frame, write_frame_with_morphing}

-- A TCP destination. `address` is the text that `net.ParseAddress` gets.
pub record Destination : Type 0 where
  pub address : Bytes
  pub port : ℕ

unfoldable pub parse_destination : Bytes → Result Error (Destination × Bytes)
parse_destination [] = err data_frame_too_short
parse_destination (n ∷ body) =
    if ltb (1 + length body) 3
    then err data_frame_too_short
    else if ltb (1 + length body) (1 + n + 2)
    then err missing_destination
    else ok
        (record { address = take n body; port = uint (take 2 (drop n body)) }, drop (n + 2) body)

-- The writer of a link: the buffers it has taken, how many it takes before it fails, and whether it
-- is closed.
pub record Link : Type 0 where
  pub dest : Destination
  pub delivered : List Bytes
  pub accepts : ℕ
  pub closed : Bool

take_buffer : Link → Bytes → ℕ → Link × Result Error (Unit {0})
take_buffer link payload zero = (link, err upstream_failed)
take_buffer link payload (suc n) =
    (record link { delivered = link.delivered ++ (payload ∷ []); accepts = n }, ok tt)

-- An empty payload is not written.
unfoldable pub write_upstream : Link → Bytes → Link × Result Error (Unit {0})
unfolding take_buffer
write_upstream link [] = (link, ok tt)
write_upstream link (b ∷ bs) = take_buffer link (b ∷ bs) link.accepts

-- What both sides share. `upstream_err` is the channel, which holds one error; `forwarding` says
-- whether the forwarder still runs.
pub record Relay : Type 0 where
  pub session : Session
  pub reader : Reader
  pub client : Writer
  pub rand : Rand
  pub link : Option Link
  pub upstream_err : Option Error
  pub forwarding : Bool

-- A step goes on with the loop, or ends the handler.
pub data Outcome : Type 0 where
  continues : Outcome
  ends : Result Error (Unit {0}) → Outcome

after_write : Relay → Outcome → Link × Result Error (Unit {0}) → Relay × Outcome
after_write s next (link, err e) = (record s { link = some link }, ends (err e))
after_write s next (link, ok u) = (record s { link = some link }, next)

-- Another round, or the result.
next_round :
    Relay × Outcome
    → (Relay → Relay × Option (Result Error (Unit {0})))
    → Relay × Option (Result Error (Unit {0}))
next_round (s, continues) loop = loop s
next_round (s, ends result) loop = (s, some result)

module _ (c : Crypto) (dispatch : Destination → Option Link) where
  -- An end of the upstream is passed on as a close frame, whether or not it can be written.
  close_client : Relay → Relay
  close_client s =
      let (session, (client, result)) = write_frame c s.session s.client frame_type_close [] in
      record s { session = session; client = client; upstream_err = none }

  stop : Relay → Error → Relay × Outcome
  stop s e = (record s { upstream_err = none }, ends (err e))

  -- The `select` at the end of the loop, which does not wait.
  select : Relay → Option Error → Relay × Outcome
  unfolding close_client stop
  select s none = (s, continues)
  select s (some (io eof)) = (close_client s, ends (ok tt))
  select s (some e) = stop s e

  selected : Relay × Outcome → Relay × Outcome
  unfolding select
  selected (s, ends result) = (s, ends result)
  selected (s, continues) = select s s.upstream_err

  dispatched : Relay → Bytes → Option Link → Relay × Outcome
  unfolding after_write
  dispatched s payload none = (s, ends (err dispatch_failed))
  dispatched s payload (some link) =
      after_write (record s { forwarding = true }) continues (write_upstream link payload)

  first_data : Relay → Result Error (Destination × Bytes) → Relay × Outcome
  unfolding dispatched
  first_data s (err e) = (s, ends (err e))
  first_data s (ok (dest, payload)) = dispatched s payload (dispatch dest)

  data_frame : Relay → Bytes → Option Link → Relay × Outcome
  unfolding first_data after_write selected
  data_frame s payload none = first_data s (parse_destination payload)
  data_frame s payload (some link) =
      selected (after_write s continues (write_upstream link payload))

  controlled : Relay → Session × Result Error (Unit {0}) → Relay × Outcome
  controlled s (session, err e) = (record s { session = session }, ends (err e))
  controlled s (session, ok u) = (record s { session = session }, continues)

  close_link : Option Link → Option Link
  close_link none = none
  close_link (some link) = some (record link { closed = true })

  -- The `switch` on the frame's type.
  unfoldable pub handle_frame : Relay → Frame → Relay × Outcome
  unfolding data_frame controlled close_link
  handle_frame s frame =
      if frame.frame_type == frame_type_data
      then data_frame s frame.payload s.link
      else if frame.frame_type == frame_type_padding
      then controlled s (handle_control_frame s.session frame)
      else if frame.frame_type == frame_type_timing
      then controlled s (handle_control_frame s.session frame)
      else if frame.frame_type == frame_type_close
      then (record s { link = close_link s.link }, ends (ok tt))
      else (s, ends (err unknown_frame_type))

  -- One round of `handleSession`: a clean end of the stream ends the session without an error.
  with_frame : Relay → Result Error Frame → Relay × Outcome
  unfolding handle_frame
  with_frame s (ok frame) = handle_frame s frame
  with_frame s (err (io eof)) = (s, ends (ok tt))
  with_frame s (err e) = (s, ends (err e))

  unfoldable pub session_step : Relay → Relay × Outcome
  unfolding with_frame
  session_step s =
      let (session, (reader, result)) = read_frame c s.session s.reader in
      with_frame (record s { session = session; reader = reader }) result

  -- The whole loop, when the forwarder has nothing to do: a round takes three bytes of the stream at
  -- least, or ends it.
  unfoldable pub session_loop : ℕ → Relay → Relay × Option (Result Error (Unit {0}))
  unfolding next_round
  session_loop zero s = (s, none)
  session_loop (suc fuel) s = next_round (session_step s) (λ s'. session_loop fuel s')

  started : Bytes → Relay → Result Error Session → Relay × Option (Result Error (Unit {0}))
  unfolding session_loop
  started policy s (err e) = (s, some (err e))
  started policy s (ok session) =
      session_loop (suc (length s.reader.pending))
        (record s { session = set_traffic_profile session (profile_from_policy policy) })

  unfoldable pub handle_session : Bytes → Bytes → Relay → Relay × Option (Result Error (Unit {0}))
  unfolding started
  handle_session key policy s = started policy s (new_session key)

module _ (c : Crypto) (fl : FloatOps) where
  forwarded : Relay → (Session × (Writer × Result Error (Unit {0}))) × Rand → Relay
  forwarded s ((session, (client, ok u)), rand) = record s {
    session = session;
    client = client;
    rand = rand;
  }
  forwarded s ((session, (client, err e)), rand) = record s {
    session = session;
    client = client;
    rand = rand;
    upstream_err = some e;
    forwarding = false;
  }

  forward_read : Relay → Result Error Bytes → Relay
  unfolding forwarded
  forward_read s (err e) = record s { upstream_err = some e; forwarding = false }
  forward_read s (ok buffer) =
      forwarded s (write_frame_with_morphing c fl s.session s.client s.rand frame_type_data buffer)

  -- One step of `forwardUpstreamToClient`: a buffer, or the error that reading the upstream gives.
  unfoldable pub forward_step : Relay → Result Error Bytes → Relay
  unfolding forward_read
  forward_step s input = if s.forwarding then forward_read s input else s
