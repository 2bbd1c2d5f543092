-- ===== src/Session/RoundTrip.antt =====
-- One frame of session.go, written and read: the bytes on the wire, and what the peer makes of them.
use reflex.Prelude.{
  ℕ, ◌+◌, ◌-◌, ◌≤◌, ◌<◌, ◌≡◌, refl, sym, ap, ◌∙◌, Bool, true, false, ◌||◌, [], ◌∷◌, ◌++◌,
  append_assoc, length, length-append, take, get_or, ltb, ◌==◌, arith, ge→ltb, take-length,
}
use reflex.Prelude.Bytes.{Bytes, uint, put_uint, uint-put_uint, length-put_uint}
use reflex.Prelude.Result.{ok}
use reflex.Io.{Reader, Writer, read_full_at, write_lem}
use reflex.Crypto.{Crypto, CryptoLaws, overhead}
use reflex.Replay.{remember}
use reflex.Session.{
  Session, make_nonce, next_nonce, max_frame_payload_size, remember_ciphertext, read_frame,
  write_frame, unseal_frame, accept_frame,
}

header_size : (n frame_type : ℕ) → length (put_uint 2 n ++ (frame_type ∷ [])) ≡ 3
header_size n frame_type =
    omega (arith, length-append (put_uint 2 n) (frame_type ∷ []), length-put_uint 2 n)

frame_type_at : (n frame_type : ℕ) → get_or (put_uint 2 n ++ (frame_type ∷ [])) 2 0 ≡ frame_type
unfolding put_uint
frame_type_at n frame_type = refl

-- A frame's head, and whatever ciphertext behind it.
unfoldable pub framed : Bytes → ℕ → Bytes
framed enc frame_type = (put_uint 2 (length enc) ++ (frame_type ∷ [])) ++ enc

module _ (c : Crypto) where
  -- The ciphertext of a payload under the counter `n`, and the frame's bytes.
  abbrev pub sealed : Bytes → ℕ → Bytes → Bytes
  sealed key n payload = c.seal key (make_nonce n) payload

  unfoldable pub frame_bytes : Bytes → ℕ → ℕ → Bytes → Bytes
  frame_bytes key n frame_type payload =
      (put_uint 2 (length (sealed key n payload)) ++ (frame_type ∷ [])) ++ sealed key n payload

  pub read_frame-framed :
      (s : Session) (frame_type : ℕ) (enc rest : Bytes) (r : Reader)
      → r.pending ≡ framed enc frame_type ++ rest
      → 0 < length enc
      → length enc ≤ max_frame_payload_size
      → read_frame c s r ≡ (
        (accept_frame c (length enc) frame_type enc (remember_ciphertext c s enc)).0,
        (
          record r { pending = rest },
          (accept_frame c (length enc) frame_type enc (remember_ciphertext c s enc)).1,
        ),
      )
  unfolding read_frame framed
  read_frame-framed s frame_type enc rest r e nonempty fits =
      rw
        (
          read_full_at 3 header (enc ++ rest) r (e ∙ append_assoc header enc rest)
              (omega (arith, header_size (length enc) frame_type)),
          size_read,
        )
        (rw accepts (
          rw (read_full_at (length enc) enc rest (record r { pending = enc ++ rest }) refl refl)
            (rw (frame_type_at (length enc) frame_type))))
    where
      header : Bytes
      header = put_uint 2 (length enc) ++ (frame_type ∷ [])

      size_read : uint (take 2 header) ≡ length enc
      size_read =
          ap uint (
            take-length (put_uint 2 (length enc)) (frame_type ∷ []) 2
              (sym (length-put_uint 2 (length enc))))
          ∙ uint-put_uint 2 (length enc) (omega arith)

      accepts : (length enc == 0 || ltb max_frame_payload_size (length enc)) ≡ false
      accepts = ground arith

module _ (c : Crypto) (laws : CryptoLaws c) where
  pub length-frame_bytes :
      (key : Bytes) (n frame_type : ℕ) (payload : Bytes)
      → length (frame_bytes c key n frame_type payload) ≡ length payload + 19
  unfolding frame_bytes
  length-frame_bytes key n frame_type payload = omega (
    arith,
    length-append (put_uint 2 (length (sealed c key n payload)) ++ (frame_type ∷ []))
        (sealed c key n payload),
    header_size (length (sealed c key n payload)) frame_type,
    laws.length-seal key (make_nonce n) payload,
  )

  -- A frame that fits goes out whole.
  pub write_frame_lem :
      (s : Session) (w : Writer) (frame_type : ℕ) (payload : Bytes)
      → length payload + overhead ≤ max_frame_payload_size
      → length payload + 19 ≤ w.room
      → write_frame c s w frame_type payload ≡ (
        record s { write_nonce = next_nonce s.write_nonce },
        (
          record {
            sent = w.sent ++ frame_bytes c s.key s.write_nonce frame_type payload;
            room = w.room - (length payload + 19);
          },
          ok tt,
        ),
      )
  unfolding write_frame frame_bytes
  write_frame_lem s w frame_type payload fits room =
      rw
        (
          ge→ltb max_frame_payload_size (length enc) (omega (arith, size)),
          write_lem w header (omega (arith, three)),
        )
        (rw
          (write_lem (record { sent = w.sent ++ header; room = w.room - length header }) enc
            (omega (arith, size, three)))
          (λ i. (
            record s { write_nonce = next_nonce s.write_nonce },
            (record { sent = append_assoc w.sent header enc i; room = left i }, ok tt),
          )))
    where
      enc : Bytes
      enc = sealed c s.key s.write_nonce payload

      header : Bytes
      header = put_uint 2 (length enc) ++ (frame_type ∷ [])

      size : length enc ≡ length payload + overhead
      size = laws.length-seal s.key (make_nonce s.write_nonce) payload

      three : length header ≡ 3
      three = header_size (length enc) frame_type

      left : w.room - length header - length enc ≡ w.room - (length payload + 19)
      left = omega (arith, size, three)

  -- The peer opens the frame that its counter is at, if its ciphertext is new to the peer.
  pub read_frame_lem :
      (s : Session) (frame_type : ℕ) (payload rest : Bytes) (r : Reader)
      → r.pending ≡ frame_bytes c s.key s.read_nonce frame_type payload ++ rest
      → length payload + overhead ≤ max_frame_payload_size
      → (remember s.replay (c.sum256 (sealed c s.key s.read_nonce payload))).1 ≡ true
      → read_frame c s r ≡ (
        record s {
          read_nonce = next_nonce s.read_nonce;
          replay = (remember s.replay (c.sum256 (sealed c s.key s.read_nonce payload))).0;
        },
        (
          record r { pending = rest },
          ok (record {
            size = length payload + overhead;
            frame_type = frame_type;
            payload = payload;
          }),
        ),
      )
  unfolding frame_bytes framed accept_frame unseal_frame remember_ciphertext
  read_frame_lem s frame_type payload rest r e fits fresh = rw (
    read_frame-framed c s frame_type enc rest r e (omega (arith, size)) (omega (arith, size)),
    accepted,
    laws.unseal-seal s.key (make_nonce s.read_nonce) payload,
    size,
  )
    where
      enc : Bytes
      enc = sealed c s.key s.read_nonce payload

      size : length enc ≡ length payload + overhead
      size = laws.length-seal s.key (make_nonce s.read_nonce) payload

      accepted :
          accept_frame c (length enc) frame_type enc (remember_ciphertext c s enc)
          ≡ unseal_frame c
              (record s { replay = (remember s.replay (c.sum256 enc)).0 })
              (length enc)
              frame_type
              enc
      accepted =
          ap
            (λ (b : Bool).
              accept_frame c (length enc) frame_type enc
                (record s { replay = (remember s.replay (c.sum256 enc)).0 }, b))
            fresh
