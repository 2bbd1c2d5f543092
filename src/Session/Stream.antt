-- ===== src/Session/Stream.antt =====
-- Runs of frames over one connection: what one side writes, the other side reads, in order.
use reflex.Prelude.{
  ℕ, zero, suc, ◌+◌, ◌-◌, ◌≤◌, ◌≡◌, refl, sym, ap, ◌∙◌, true, List, [], ◌∷◌, ◌++◌, append_assoc,
  append-nil, length, length-append, All, arith,
}
use reflex.Prelude.Bytes.{Bytes}
use reflex.Prelude.Result.{Result, ok, err}
use reflex.Io.{Reader, Writer, Error}
use reflex.Crypto.{Crypto, CryptoLaws, overhead}
use reflex.Replay.{remember, answers}
use reflex.Session.{
  Frame, Session, Written, and_then, next_nonce, max_frame_payload_size, read_frame, write_frame,
}
use reflex.Session.RoundTrip.{
  sealed, frame_bytes, length-frame_bytes, write_frame_lem, read_frame_lem,
}

-- What a caller hands to `WriteFrame`, and finds in the frame that `ReadFrame` returns.
pub record Message : Type 0 where
  pub frame_type : ℕ
  pub payload : Bytes

abbrev pub Fits : Message → Type 0
Fits m = length m.payload + overhead ≤ max_frame_payload_size

abbrev pub message : Frame → Message
message f = record { frame_type = f.frame_type; payload = f.payload }

-- `read_frames` collects the messages in front of those that it reads later.
abbrev pub cons_message :
    Message
    → Session × (Reader × Result Error (List Message))
    → Session × (Reader × Result Error (List Message))
cons_message m (s, (r, ok ms)) = (s, (r, ok (m ∷ ms)))
cons_message m (s, (r, err e)) = (s, (r, err e))

abbrev advance_nonce : ℕ → ℕ → ℕ
advance_nonce n zero = n
advance_nonce n (suc k) = advance_nonce (next_nonce n) k

module _ (c : Crypto) where
  -- A caller that writes until an error.
  unfoldable pub write_frames : Session → Writer → List Message → Written
  write_frames s w [] = (s, (w, ok tt))
  write_frames s w (m ∷ ms) =
      and_then (write_frame c s w m.frame_type m.payload) (λ s' w'. write_frames s' w' ms)

  unfoldable pub collect :
      Session × (Reader × Result Error Frame)
      → (Session → Reader → Session × (Reader × Result Error (List Message)))
      → Session × (Reader × Result Error (List Message))
  collect (s, (r, err e)) f = (s, (r, err e))
  collect (s, (r, ok frame)) f = cons_message (message frame) (f s r)

  -- A caller that reads `n` frames.
  unfoldable pub read_frames :
      ℕ → Session → Reader → Session × (Reader × Result Error (List Message))
  unfolding collect
  read_frames zero s r = (s, (r, ok []))
  read_frames (suc n) s r = collect (read_frame c s r) (λ s' r'. read_frames n s' r')

  -- The bytes of a run of frames from the counter `n` on, and the digests that the reader takes.
  unfoldable pub stream_bytes : Bytes → ℕ → List Message → Bytes
  stream_bytes key n [] = []
  stream_bytes key n (m ∷ ms) =
      frame_bytes c key n m.frame_type m.payload ++ stream_bytes key (next_nonce n) ms

  unfoldable pub digests : Bytes → ℕ → List Message → List Bytes
  digests key n [] = []
  digests key n (m ∷ ms) = c.sum256 (sealed c key n m.payload) ∷ digests key (next_nonce n) ms

module _ (c : Crypto) (laws : CryptoLaws c) where
  pub write_frames_lem :
      (ms : List Message) (s : Session) (w : Writer)
      → All Fits ms
      → length (stream_bytes c s.key s.write_nonce ms) ≤ w.room
      → write_frames c s w ms ≡ (
        record s { write_nonce = advance_nonce s.write_nonce (length ms) },
        (
          record {
            sent = w.sent ++ stream_bytes c s.key s.write_nonce ms;
            room = w.room - length (stream_bytes c s.key s.write_nonce ms);
          },
          ok tt,
        ),
      )
  unfolding write_frames stream_bytes
  write_frames_lem [] s w fits room =
      λ i. (s, (record { sent = sym (append-nil w.sent) i; room = zero_less i }, ok tt))
    where
      zero_less : w.room ≡ w.room - 0
      zero_less = omega arith
  write_frames_lem (m ∷ ms) s w (fits, rest) room =
      rw (write_frame_lem c laws s w m.frame_type m.payload fits (omega (arith, sizes, one))) (
        write_frames_lem ms s1 w1 rest (omega (arith, sizes, one)) ∙ λ i. (
          record s { write_nonce = advance_nonce s.write_nonce (suc (length ms)) },
          (record { sent = append_assoc w.sent bytes more i; room = left i }, ok tt),
        ))
    where
      bytes : Bytes
      bytes = frame_bytes c s.key s.write_nonce m.frame_type m.payload

      more : Bytes
      more = stream_bytes c s.key (next_nonce s.write_nonce) ms

      s1 : Session
      s1 = record s { write_nonce = next_nonce s.write_nonce }

      w1 : Writer
      w1 = record { sent = w.sent ++ bytes; room = w.room - (length m.payload + 19) }

      sizes : length (bytes ++ more) ≡ length bytes + length more
      sizes = length-append bytes more

      one : length bytes ≡ length m.payload + 19
      one = length-frame_bytes c laws s.key s.write_nonce m.frame_type m.payload

      left : w.room - (length m.payload + 19) - length more ≡ w.room - length (bytes ++ more)
      left = omega (arith, sizes, one)

  pub read_frames_lem :
      (ms : List Message) (s : Session) (rest : Bytes) (r : Reader)
      → r.pending ≡ stream_bytes c s.key s.read_nonce ms ++ rest
      → All Fits ms
      → All (λ fresh. fresh ≡ true) (answers s.replay (digests c s.key s.read_nonce ms))
      → (s' : Session) × (s'.read_nonce ≡ advance_nonce s.read_nonce (length ms))
        × (read_frames c (length ms) s r ≡ (s', (record r { pending = rest }, ok ms)))
  unfolding read_frames stream_bytes digests answers
  read_frames_lem [] s rest r e fits fresh =
      (s, refl, λ i. (s, (record r { pending = e i }, ok [])))
  read_frames_lem (m ∷ ms) s rest r e (fit, fits) (new, fresh) =
      let (s', counted, result) =
        read_frames_lem ms s1 rest (record r { pending = more ++ rest }) refl fits fresh in
      (
        s',
        counted,
        rw
            (read_frame_lem c laws s m.frame_type m.payload (more ++ rest) r
              (e ∙ append_assoc bytes more rest) fit new)
            (ap (cons_message m) result),
      )
    where
      bytes : Bytes
      bytes = frame_bytes c s.key s.read_nonce m.frame_type m.payload

      more : Bytes
      more = stream_bytes c s.key (next_nonce s.read_nonce) ms

      s1 : Session
      s1 = record s {
        read_nonce = next_nonce s.read_nonce;
        replay = (remember s.replay (c.sum256 (sealed c s.key s.read_nonce m.payload))).0;
      }

  -- Two sessions with the same key, the reader's counter at the writer's: frames that fit, written
  -- to a connection with room for them, are read back in order and whole, with nothing left over and
  -- the two counters equal again, provided that no ciphertext has the digest of one that is
  -- still in the reader's replay memory.
  pub read_frames-write_frames :
      (ms : List Message) (s peer : Session) (w : Writer) (r : Reader)
      → peer.key ≡ s.key
      → peer.read_nonce ≡ s.write_nonce
      → w.sent ≡ []
      → All Fits ms
      → length (stream_bytes c s.key s.write_nonce ms) ≤ w.room
      → All (λ fresh. fresh ≡ true) (answers peer.replay (digests c s.key s.write_nonce ms))
      → r.pending ≡ (write_frames c s w ms).1.0.sent
      → ((read_frames c (length ms) peer r).1 ≡ (record r { pending = [] }, ok ms))
        × ((read_frames c (length ms) peer r).0.read_nonce ≡ (write_frames c s w ms).0.write_nonce)
        × ((write_frames c s w ms).1.1 ≡ ok tt)
  read_frames-write_frames ms s peer w r key nonce empty fits room fresh e =
      let (peer', counted, result) = reads in
      (
        ap (λ (x : Session × (Reader × Result Error (List Message))). x.1) result,
        ap (λ (x : Session × (Reader × Result Error (List Message))). x.0.read_nonce) result
            ∙ counted
            ∙ ap (λ (n : ℕ). advance_nonce n (length ms)) nonce
            ∙ rw written,
        rw written,
      )
    where
      written : write_frames c s w ms ≡ (
        record s { write_nonce = advance_nonce s.write_nonce (length ms) },
        (
          record {
            sent = w.sent ++ stream_bytes c s.key s.write_nonce ms;
            room = w.room - length (stream_bytes c s.key s.write_nonce ms);
          },
          ok tt,
        ),
      )
      written = write_frames_lem ms s w fits room

      arrived : r.pending ≡ stream_bytes c peer.key peer.read_nonce ms ++ []
      arrived = e ∙ rw (written, empty, key, nonce, append-nil)

      reads :
          (peer' : Session) × (peer'.read_nonce ≡ advance_nonce peer.read_nonce (length ms))
          × (read_frames c (length ms) peer r ≡ (peer', (record r { pending = [] }, ok ms)))
      reads = read_frames_lem ms peer [] r arrived fits (rw (key, nonce) fresh)
