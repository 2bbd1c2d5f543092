-- ===== src/Morphing.antt =====
-- Traffic shaping: the control frames of proxy/reflex/inbound/morphing.go and
-- `WriteFrameWithMorphing` of session.go. Sleeping has no effect on the state and is left out.
pub mod Plan
pub mod Control
pub mod Delivery
mod Tests
use reflex.Prelude.{
  ℕ, zero, suc, ◌+◌, ◌*◌, ◌/◌, ◌%◌, ◌^◌, Bool, true, false, ◌||◌, Option, none, some, List, [], ◌∷◌,
  length, take, drop, ltb, ◌==◌, if◌then◌else◌,
}
use reflex.Prelude.Bytes.{Bytes, uint, put_uint}
use reflex.Prelude.Int.{ℤ, pos, pos_part, ltb_ℤ, signed64}
use reflex.Prelude.Float.{FloatOps, Rand}
use reflex.Prelude.Result.{Result, ok, err}
use reflex.Io.{
  Writer, Error, invalid_target_size, invalid_delay, invalid_padding_payload,
  invalid_timing_payload,
}
use reflex.Crypto.{Crypto}
use reflex.Profile.{
  TrafficProfile, millisecond, get_packet_size, get_delay, set_next_packet_size, set_next_delay,
}
use reflex.Session.{
  Frame, Session, Written, and_then, set_traffic_profile, write_frame, frame_type_data,
  frame_type_padding, frame_type_timing,
}

-- `HandleControlFrame` once the profile is known: an override is set by a frame of the right size.
control_profile : ℕ → Bytes → TrafficProfile → Result Error TrafficProfile
control_profile frame_type payload p =
    if frame_type == frame_type_padding
    then if length payload == 2
      then ok (set_next_packet_size (pos (uint payload)) p)
      else err invalid_padding_payload
    else if frame_type == frame_type_timing
    then if length payload == 8
      then ok (set_next_delay (signed64 (uint payload * millisecond % 2 ^ 64)) p)
      else err invalid_timing_payload
    else ok p

with_profile : Session → Result Error TrafficProfile → Session × Result Error (Unit {0})
with_profile s (ok p) = (set_traffic_profile s p, ok tt)
with_profile s (err e) = (s, err e)

control_session : Session → Frame → Option TrafficProfile → Session × Result Error (Unit {0})
unfolding control_profile with_profile
control_session s frame none = (s, ok tt)
control_session s frame (some p) = with_profile s (control_profile frame.frame_type frame.payload p)

unfoldable pub handle_control_frame : Session → Frame → Session × Result Error (Unit {0})
unfolding control_session
handle_control_frame s frame = control_session s frame s.profile

module _ (c : Crypto) where
  unfoldable pub send_padding_control : Session → Writer → ℤ → Written
  send_padding_control s w target =
      if ltb_ℤ (pos 0) target
      then if ltb_ℤ (pos 65535) target
        then (s, (w, err invalid_target_size))
        else write_frame c s w frame_type_padding (put_uint 2 (pos_part target))
      else (s, (w, err invalid_target_size))

  -- The delay goes out in whole milliseconds.
  unfoldable pub send_timing_control : Session → Writer → ℤ → Written
  send_timing_control s w delay =
      if ltb_ℤ (pos 0) delay
      then write_frame c s w frame_type_timing (put_uint 8 (pos_part delay / millisecond))
      else (s, (w, err invalid_delay))

-- A target that is not positive stands for all that remains.
abbrev pub target_size : ℤ → ℕ → ℤ
target_size size remaining = if ltb_ℤ (pos 0) size then size else pos remaining

abbrev pub chunk_size : ℤ → ℕ → ℕ
chunk_size target remaining = if ltb_ℤ target (pos remaining) then pos_part target else remaining

-- What a round or the loop leaves behind: the session, the connection and the error; the profile
-- that the session points to; and the random source.
abbrev pub Shaped : Type 0
Shaped = Written × (TrafficProfile × Rand)

abbrev pub shape_next : Shaped → (Session → Writer → TrafficProfile → Rand → Shaped) → Shaped
shape_next ((s, (w, ok u)), (p, rnd)) f = f s w p rnd
shape_next ((s, (w, err e)), (p, rnd)) f = ((s, (w, err e)), (p, rnd))

module _ (c : Crypto) (fl : FloatOps) where
  -- The end of a round, behind the padding frame.
  send_delay : Session → Writer → TrafficProfile → Rand → Shaped
  send_delay s w p rnd =
      let (p', (delay, rnd')) = get_delay fl p rnd in
      let s' = set_traffic_profile s p' in
      (
        if ltb_ℤ (pos 0) delay then send_timing_control c s' w delay else (s', (w, ok tt)),
        (p', rnd'),
      )

  -- One round of the loop: a chunk of the data, a padding frame, and a timing frame.
  send_chunk : Session → TrafficProfile → Writer → Rand → Bytes → ℤ → Shaped
  unfolding send_delay
  send_chunk s p w rnd remaining target =
      shape_next
        (
          and_then
              (write_frame c (set_traffic_profile s p) w frame_type_data
                (take (chunk_size target (length remaining)) remaining))
              (λ s' w'. send_padding_control c s' w' target),
          (p, rnd),
        )
        send_delay

  -- The loop, with a round of fuel for each byte of the data: a round takes one byte at least.
  pub shape : ℕ → Session → TrafficProfile → Writer → Rand → Bytes → Shaped
  unfolding send_chunk
  shape zero s p w rnd remaining = ((s, (w, ok tt)), (p, rnd))
  shape (suc fuel) s p w rnd [] = ((s, (w, ok tt)), (p, rnd))
  shape (suc fuel) s p w rnd (b ∷ bs) =
      let remaining = b ∷ bs in
      let (p', (size, rnd')) = get_packet_size fl p rnd in
      let target = target_size size (length remaining) in
      shape_next (send_chunk s p' w rnd' remaining target) (λ s'' w'' p'' rnd''.
        shape fuel s'' p'' w'' rnd'' (drop (chunk_size target (length remaining)) remaining))

  unfoldable pub write_frame_with_morphing : Session → Writer → Rand → ℕ → Bytes → Written × Rand
  unfolding shape
  write_frame_with_morphing s w rnd frame_type payload =
      if frame_type == frame_type_data
      then elim s.profile [
        | none ↦ (write_frame c s w frame_type payload, rnd)
        | some p ↦ let shaped = shape (length payload) s p w rnd payload in (shaped.0, shaped.1.1)
      ]
      else (write_frame c s w frame_type payload, rnd)
