-- ===== src/Morphing/Control.antt =====
-- The control frames of morphing.go: what one side announces is what the other side does next.
use reflex.Prelude.{
  ℕ, ◌+◌, ◌*◌, ◌/◌, ◌%◌, ◌^◌, ◌≤◌, ◌<◌, ◌≡◌, ◌⊎◌, inl, inr, refl, sym, ap, ◌∙◌, [], ◌++◌,
  append-nil, true, Option, some, length, All, ==→eq, ltb, ◌==◌, if◌then◌else◌, arith, Bool-cases,
}
use mathlib.Core.Path.{subst}
use reflex.Prelude.Bytes.{Bytes, IsByte, uint, put_uint, uint-put_uint, length-put_uint, uint-lt}
use reflex.Prelude.Int.{ℤ, pos, ltb_ℤ, signed64}
use reflex.Prelude.Result.{Result, ok, err}
use reflex.Io.{Reader, Writer, Error, invalid_padding_payload, invalid_timing_payload}
use reflex.Profile.{TrafficProfile, millisecond, set_next_packet_size, set_next_delay}
use reflex.Profile.Picks.{Bounded}
use reflex.Session.{
  Written, next_nonce, read_frame, Frame, Session, set_traffic_profile, frame_type_padding,
  frame_type_timing,
}
use reflex.Session.Stream.{Message}
use reflex.Morphing.{
  send_timing_control, control_profile, control_session, handle_control_frame, with_profile,
}
use reflex.Crypto.{Crypto, CryptoLaws, overhead}
use reflex.Replay.{remember}
use reflex.Session.RoundTrip.{sealed, frame_bytes, read_frame_lem, write_frame_lem}
use reflex.Morphing.Plan.{padding_message, timing_message, send_timing_control_lem}

abbrev frame_of : ℕ → Message → Frame
frame_of size m = record { size = size; frame_type = m.frame_type; payload = m.payload }

-- The padding frame for a target from 1 to 65535 makes the peer's next packet exactly so large.
pub handle_control_frame-padding :
    (s : Session) (p : TrafficProfile) (n size : ℕ)
    → s.profile ≡ some p
    → 0 < n
    → n ≤ 65535
    → handle_control_frame s (frame_of size (padding_message (pos n)))
      ≡ (set_traffic_profile s (record p { next_packet_size = pos n }), ok tt)
unfolding handle_control_frame set_next_packet_size
handle_control_frame-padding s p n size e some_size fits =
    rw (e, ==_two, uint-put_uint 2 n (omega arith)) (ground arith)
  where
    ==_two : (length (put_uint 2 n) == 2) ≡ true
    ==_two = ground (arith, length-put_uint 2 n)

handle_timing :
    (s : Session) (p : TrafficProfile) (n size : ℕ)
    → s.profile ≡ some p
    → n < 2 ^ 63
    → handle_control_frame s (frame_of size (timing_message (pos n))) ≡ (
      set_traffic_profile s (
          if ltb n millisecond
          then p
          else record p { next_delay = pos (n / millisecond * millisecond) }),
      ok tt,
    )
unfolding handle_control_frame set_next_delay
handle_timing s p n size e range =
    rw (e, ==_eight, uint-put_uint 8 (n / millisecond) (omega arith)) (ground arith)
  where
    ==_eight : (length (put_uint 8 (n / millisecond)) == 8) ≡ true
    ==_eight = ground (arith, length-put_uint 8 (n / millisecond))

-- `HandleControlFrame` on the frame that `ReadFrame` gave, if it gave one.
unfoldable pub controlled_by :
    Session × (Reader × Result Error Frame) → Session × Result Error (Unit {0})
controlled_by (s, (r, err e)) = (s, err e)
controlled_by (s, (r, ok frame)) = handle_control_frame s frame

-- The delay that one side announces is the delay that the other side then has: what `SendTimingControl`
-- of a positive delay of less than 2 ^ 63 nanoseconds puts on an empty connection with room is read and
-- handled by a peer with a profile, the same key, and its read counter at the writer's, to which the
-- ciphertext is new. It carries whole milliseconds: a delay of a millisecond or more arrives rounded
-- down, and a shorter one changes nothing in the profile. Besides the profile only the peer's read counter
-- and its replay memory have moved on.
pub send_timing_control-handled :
    (c : Crypto)
    → CryptoLaws c
    → (s peer : Session) (p : TrafficProfile) (w : Writer) (r : Reader) (n : ℕ) → 0 < n
    → n < 2 ^ 63
    → 27 ≤ w.room
    → w.sent ≡ []
    → peer.key ≡ s.key
    → peer.read_nonce ≡ s.write_nonce
    → peer.profile ≡ some p
    → (remember peer.replay
        (c.sum256 (sealed c peer.key peer.read_nonce (put_uint 8 (n / millisecond))))).1
      ≡ true
    → r.pending ≡ (send_timing_control c s w (pos n)).1.0.sent
    → controlled_by (read_frame c peer r) ≡ (
      set_traffic_profile
          (record peer {
            read_nonce = next_nonce peer.read_nonce;
            replay =
                (remember peer.replay
                  (c.sum256 (sealed c peer.key peer.read_nonce (put_uint 8 (n / millisecond))))).0;
          })
          (if ltb n millisecond
            then p
            else record p { next_delay = pos (n / millisecond * millisecond) }),
      ok tt,
    )
unfolding controlled_by send_timing_control
send_timing_control-handled c laws s peer p w r n some_delay range room empty same_key in_step
      profile new e =
    ap controlled_by
      (read_frame_lem c laws peer frame_type_timing payload [] r arrived (omega (arith, eight)) new)
    ∙ handle_timing
        (record peer {
          read_nonce = next_nonce peer.read_nonce;
          replay = (remember peer.replay (c.sum256 (sealed c peer.key peer.read_nonce payload))).0;
        })
        p n (length payload + overhead) profile range
  where
    payload : Bytes
    payload = put_uint 8 (n / millisecond)

    eight : length payload ≡ 8
    eight = length-put_uint 8 (n / millisecond)

    arrived : r.pending ≡ frame_bytes c peer.key peer.read_nonce frame_type_timing payload ++ []
    arrived =
        e
        ∙ ap (λ (x : Written). x.1.0.sent)
            (send_timing_control_lem c s w (pos n) (ground (arith, some_delay))
              ∙ write_frame_lem c laws s w frame_type_timing payload (omega (arith, eight))
                  (omega (arith, eight, room)))
        ∙ rw (empty, same_key, in_step)
            (sym (append-nil (frame_bytes c s.key s.write_nonce frame_type_timing payload)))

set_next_packet_size-Bounded :
    (n : ℕ) (p : TrafficProfile) → n ≤ 65535 → Bounded p → Bounded (set_next_packet_size (pos n) p)
unfolding set_next_packet_size
set_next_packet_size-Bounded n p fits b = elim (Bool-cases (ltb_ℤ (pos 0) (pos n))) [
  | inl set ↦ rw set (record { sizes = b.sizes; next = omega arith })
  | inr unset ↦ rw unset b
]

set_next_delay-Bounded : (d : ℤ) (p : TrafficProfile) → Bounded p → Bounded (set_next_delay d p)
unfolding set_next_delay
set_next_delay-Bounded d p b = elim (Bool-cases (ltb_ℤ (pos 0) d)) [
  | inl set ↦ rw set (record { sizes = b.sizes; next = b.next })
  | inr unset ↦ rw unset b
]

two_bytes : (xs : Bytes) → All IsByte xs → (length xs == 2) ≡ true → uint xs ≤ 65535
two_bytes xs bytes two =
    omega (arith, subst (λ (k : ℕ). uint xs < 256 ^ k) (==→eq (length xs) 2 two) (uint-lt xs bytes))

-- A control frame of any type and payload: its result, and a profile that may be used after it.
abbrev pub Controlled : Session × Result Error (Unit {0}) → Session → Type 0
Controlled (s', result) s =
    (p' : TrafficProfile) × (s' ≡ set_traffic_profile s p')
    × Bounded p'
    × ((result ≡ ok tt)
        ⊎ ((result ≡ err invalid_padding_payload) × (s' ≡ s))
        ⊎ ((result ≡ err invalid_timing_payload) × (s' ≡ s)))

control_Controlled :
    (s : Session) (p : TrafficProfile) (frame_type : ℕ) (payload : Bytes)
    → s.profile ≡ some p
    → Bounded p
    → All IsByte payload
    → Controlled (with_profile s (control_profile frame_type payload p)) s
unfolding control_profile with_profile
control_Controlled s p frame_type payload e b bytes =
    elim (Bool-cases (frame_type == frame_type_padding)) [
      | inl padding ↦ rw padding (elim (Bool-cases (length payload == 2)) [
        | inl two ↦ rw two (
          set_next_packet_size (pos (uint payload)) p,
          refl,
          set_next_packet_size-Bounded (uint payload) p (two_bytes payload bytes two) b,
          inl refl,
        )
        | inr other ↦ rw other (p, same, b, inr (inl (refl, refl)))
      ])
      | inr n ↦ rw n (elim (Bool-cases (frame_type == frame_type_timing)) [
        | inl timing ↦ rw timing (elim (Bool-cases (length payload == 8)) [
          | inl eight ↦ rw eight (
            set_next_delay (signed64 (uint payload * millisecond % 2 ^ 64)) p,
            refl,
            set_next_delay-Bounded (signed64 (uint payload * millisecond % 2 ^ 64)) p b,
            inl refl,
          )
          | inr other ↦ rw other (p, same, b, inr (inr (refl, refl)))
        ])
        | inr m ↦ rw m (p, refl, b, inl refl)
      ])
    ]
  where
    same : s ≡ set_traffic_profile s p
    same = λ i. record s { profile = e i }

-- Whatever frame `HandleControlFrame` gets, on a session with a bounded profile: only the profile of
-- the session changes, and stays bounded, so that no size is over 65535. The result is no error or one of
-- the two for a payload of the wrong length, and with an error nothing has changed.
pub handle_control_frame-Controlled :
    (s : Session) (p : TrafficProfile) (frame : Frame)
    → s.profile ≡ some p
    → Bounded p
    → All IsByte frame.payload
    → Controlled (handle_control_frame s frame) s
unfolding handle_control_frame
handle_control_frame-Controlled s p frame e b bytes =
    subst (λ (o : Option TrafficProfile). Controlled (control_session s frame o) s) (sym e)
      (control_Controlled s p frame.frame_type frame.payload e b bytes)
