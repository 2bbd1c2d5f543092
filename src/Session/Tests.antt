-- ===== src/Session/Tests.antt =====
-- Concrete runs of session.go, and its theorems at concrete inputs.
use reflex.Prelude.{◌≡◌, ◌≢◌, refl, sym, List, [], ◌∷◌, ◌++◌, replicate, arith, none}
use reflex.Prelude.Bytes.{Bytes, bytes_eq, put_uint, codes, uint_from}
use reflex.Prelude.Keys.{mem, delete}
use reflex.Prelude.Result.{ok, err}
use reflex.Io.{Reader, Writer, eof, read_full, write, io, replay_detected, open_failed}
use reflex.Crypto.Sample.{sample, sample-CryptoLaws, tag, checked_sample, checked_sample-CryptoLaws}
use reflex.Replay.{new_replay, remember, answers}
use reflex.Replay.Window.{new_replay-IsWindow}
use reflex.Session.{
  Session, new_session, make_nonce, read_frame, write_frame, frame_type_data, frame_type_padding,
}
use reflex.Session.RoundTrip.{frame_bytes, framed}
use reflex.Session.Stream.{
  Message, write_frames, read_frames, stream_bytes, digests, read_frames-write_frames,
}
use reflex.Session.Rejects.{read_frame_replayed, Reads, read_frame-Reads, write_frame_gap}
use reflex.Session.Nonces.{after_writes, GoesOut, write_frame_nonces, read_frame_reflected}

abbrev key : Bytes
key = replicate 32 7

abbrev fresh_session : Session
fresh_session = record {
  key = key;
  read_nonce = 0;
  write_nonce = 0;
  profile = none;
  replay = record { seen = []; order = [] };
}

abbrev hello : List Message
hello =
    record { frame_type = frame_type_data; payload = codes "hello" }
    ∷ record { frame_type = frame_type_padding; payload = 1 ∷ 2 ∷ [] }
    ∷ []

abbrev hello_first : List Message
hello_first = record { frame_type = frame_type_data; payload = codes "hello" } ∷ []

abbrev empty_writer : Writer
empty_writer = record { sent = []; room = 1000 }

abbrev sent_bytes : Bytes
sent_bytes = (0 ∷ 21 ∷ 1 ∷ codes "hello" ++ replicate 16 0) ++ (0 ∷ 18 ∷ 2 ∷ 1 ∷ 2 ∷ replicate 16 0)

abbrev arriving : Bytes → Reader
arriving p = record { pending = p; ends = eof }

hello_sent : (write_frames sample fresh_session empty_writer hello).1.0.sent ≡ sent_bytes
unfolding write_frames write_frame write put_uint make_nonce
hello_sent = refl

hello_read : (read_frames sample 2 fresh_session (arriving sent_bytes)).1 ≡ (arriving [], ok hello)
unfolding read_frames read_frame read_full remember bytes_eq mem delete make_nonce uint_from
hello_read = refl

-- A stream that stops right behind a frame's head ends with plain EOF, not with an unexpected one.
cut_behind_head : (read_frame sample fresh_session (arriving (0 ∷ 21 ∷ 1 ∷ []))).1.1 ≡ err (io eof)
unfolding read_frame read_full uint_from
cut_behind_head = refl

read_frames-write_frames_example :
    (read_frames sample 2 fresh_session (arriving sent_bytes)).1 ≡ (arriving [], ok hello)
read_frames-write_frames_example =
    (read_frames-write_frames sample sample-CryptoLaws hello fresh_session fresh_session
      empty_writer (arriving sent_bytes) refl refl refl (omega arith)
      (unfold stream_bytes frame_bytes put_uint make_nonce in omega arith)
      (unfold answers digests remember mem bytes_eq make_nonce put_uint in (refl, (refl, tt)))
      (sym hello_sent)).0

replayed : Bytes
replayed = codes "hello" ++ replicate 16 0

read_frame_replayed_example :
    read_frame sample
      (read_frame sample fresh_session (arriving (0 ∷ 21 ∷ 1 ∷ replayed))).0
      (arriving (0 ∷ 21 ∷ 2 ∷ replayed))
    ≡ (
      (read_frame sample fresh_session (arriving (0 ∷ 21 ∷ 1 ∷ replayed))).0,
      (arriving [], err replay_detected),
    )
unfolding replayed
read_frame_replayed_example =
    read_frame_replayed sample fresh_session 1 2 replayed [] [] (arriving (0 ∷ 21 ∷ 1 ∷ replayed))
      (arriving (0 ∷ 21 ∷ 2 ∷ replayed)) (unfold new_replay in new_replay-IsWindow) (omega arith)
      (omega arith) (unfold remember mem in refl) (unfold framed put_uint in refl)
      (unfold framed put_uint in refl)

read_frame-Reads_example :
    Reads sample fresh_session (read_frame sample fresh_session (arriving sent_bytes)).0
read_frame-Reads_example = read_frame-Reads sample fresh_session (arriving sent_bytes)

abbrev one_byte : Message
one_byte = record { frame_type = 1; payload = 9 ∷ [] }

write_frame_nonces_example :
    GoesOut sample key (make_nonce 0) (fresh_session, empty_writer) one_byte
    × GoesOut sample key
        (make_nonce 2)
        (after_writes sample fresh_session empty_writer (one_byte ∷ hello_first))
        one_byte
    × (make_nonce 0 ≢ make_nonce 2)
unfolding after_writes write_frame
write_frame_nonces_example =
    write_frame_nonces sample sample-CryptoLaws [] hello_first one_byte one_byte fresh_session
      empty_writer (omega arith) (omega arith, omega arith)
      (unfold write put_uint make_nonce in (omega arith, omega arith))

-- The frame of counter one that goes out behind a refused one.
abbrev gap_bytes : Bytes
gap_bytes = 0 ∷ 17 ∷ 1 ∷ 9 ∷ 1 ∷ replicate 15 0

write_frame_gap_example :
    (read_frame checked_sample fresh_session (arriving gap_bytes)).1.1 ≡ err open_failed
write_frame_gap_example =
    write_frame_gap checked_sample checked_sample-CryptoLaws fresh_session fresh_session
      empty_writer (arriving gap_bytes) 1 1 (replicate 65520 0) (9 ∷ []) (omega arith) (omega arith)
      (omega arith) refl refl refl (unfold tag make_nonce put_uint uint_from bytes_eq in refl)
      (unfold remember mem in refl)
      (unfold write_frame write tag make_nonce put_uint uint_from in refl)

read_frame_reflected_example :
    (read_frame sample
      (write_frame sample fresh_session empty_writer 1 (codes "hello")).0
      (arriving (0 ∷ 21 ∷ 1 ∷ replayed))).1.1
    ≡ ok (record { size = 21; frame_type = 1; payload = codes "hello" })
unfolding replayed
read_frame_reflected_example =
    read_frame_reflected sample sample-CryptoLaws key (codes "hello") 1 fresh_session empty_writer
      (arriving (0 ∷ 21 ∷ 1 ∷ replayed)) (unfold new_session new_replay in refl) refl (omega arith)
      (omega arith) (unfold write_frame write put_uint make_nonce in refl)
