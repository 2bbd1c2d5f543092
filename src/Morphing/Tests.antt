-- ===== src/Morphing/Tests.antt =====
-- A shaped connection at concrete inputs.
use reflex.Prelude.{◌*◌, ◌≡◌, refl, some, List, [], ◌∷◌, length, replicate, arith}
use reflex.Prelude.Bytes.{Bytes, codes, put_uint, bytes_eq}
use reflex.Prelude.Int.{pos}
use reflex.Prelude.Keys.{mem}
use reflex.Prelude.Result.{ok}
use reflex.Io.{Reader, Writer, eof}
use reflex.Crypto.Sample.{sample, sample-CryptoLaws}
use reflex.Replay.{remember, answers}
use reflex.Profile.{
  zoom, millisecond, get_packet_size, get_delay, weighted_pick_size, weighted_pick_delay,
}
use reflex.Profile.Picks.{Bounded}
use reflex.Profile.Sample.{whole, zeros}
use reflex.Session.{
  Session, Frame, read_frame, make_nonce, set_traffic_profile, frame_type_data, frame_type_padding,
}
use reflex.Session.RoundTrip.{sealed, frame_bytes}
use reflex.Session.Stream.{Message, read_frames, write_frames, stream_bytes, digests}
use reflex.Morphing.{send_timing_control, handle_control_frame, write_frame_with_morphing}
use reflex.Morphing.Plan.{plan, bare, forget}
use reflex.Morphing.Delivery.{
  data_of, write_frame_with_morphing-plan, write_frame_with_morphing-delivers,
}
use reflex.Morphing.Control.{
  controlled_by, send_timing_control-handled, Controlled, handle_control_frame-Controlled,
}

abbrev shaped : Session
shaped = record {
  key = replicate 32 7;
  read_nonce = 0;
  write_nonce = 0;
  profile = some zoom;
  replay = record { seen = []; order = [] };
}

abbrev roomy : Writer
roomy = record { sent = []; room = 10000 }

zoom-Bounded : Bounded zoom
zoom-Bounded = record { sizes = omega arith; next = omega arith }

-- With zeros drawn, zoom sends five hundred bytes, then a frame every thirty milliseconds.
abbrev payload : Bytes
payload = codes "hi"

abbrev planned : List Message
planned =
    record { frame_type = 1; payload = payload }
    ∷ record { frame_type = 2; payload = 1 ∷ 244 ∷ [] }
    ∷ record { frame_type = 3; payload = 0 ∷ 0 ∷ 0 ∷ 0 ∷ 0 ∷ 0 ∷ 0 ∷ 30 ∷ [] }
    ∷ []

payload_planned : plan whole (length payload) zoom zeros payload ≡ planned
unfolding plan get_packet_size get_delay weighted_pick_size weighted_pick_delay put_uint
payload_planned = refl

write_frame_with_morphing-plan_example :
    forget (write_frame_with_morphing sample whole shaped roomy zeros frame_type_data payload).0
    ≡ write_frames sample (bare shaped) roomy (plan whole 2 zoom zeros payload)
write_frame_with_morphing-plan_example =
    write_frame_with_morphing-plan sample whole shaped zoom roomy zeros payload refl zoom-Bounded
      (omega arith)

abbrev arriving : Reader
arriving = record {
  pending =
      (write_frame_with_morphing sample whole shaped roomy zeros frame_type_data
        payload).0.1.0.sent;
  ends = eof;
}

write_frame_with_morphing-delivers_example :
    (got : List Message) × ((read_frames sample (length got) shaped arriving).1
      ≡ (record arriving { pending = [] }, ok got))
    × (data_of got ≡ payload)
write_frame_with_morphing-delivers_example =
    write_frame_with_morphing-delivers sample whole sample-CryptoLaws shaped shaped zoom roomy zeros
      payload arriving refl zoom-Bounded (omega arith) refl refl refl
      (rw payload_planned (unfold stream_bytes frame_bytes put_uint make_nonce in omega arith))
      (rw payload_planned (
        unfold answers digests remember mem bytes_eq make_nonce put_uint in
        (refl, (refl, (refl, tt)))))
      refl

-- Two and a half milliseconds, announced as two.
abbrev announced : Reader
announced = record {
  pending = (send_timing_control sample shaped roomy (pos 2500000)).1.0.sent;
  ends = eof;
}

send_timing_control-handled_example : controlled_by (read_frame sample shaped announced) ≡ (
  set_traffic_profile
      (record shaped {
        read_nonce = 1;
        replay = (remember shaped.replay (sealed sample shaped.key 0 (put_uint 8 2))).0;
      })
      (record zoom { next_delay = pos (2 * millisecond) }),
  ok tt,
)
send_timing_control-handled_example =
    send_timing_control-handled sample sample-CryptoLaws shaped shaped zoom roomy announced 2500000
      (omega arith) (omega arith) (omega arith) refl refl refl refl (unfold remember mem in refl)
      refl

abbrev padding : Frame
padding = record { size = 18; frame_type = frame_type_padding; payload = 2 ∷ 188 ∷ [] }

handle_control_frame-Controlled_example : Controlled (handle_control_frame shaped padding) shaped
handle_control_frame-Controlled_example =
    handle_control_frame-Controlled shaped zoom padding refl zoom-Bounded (omega arith)
