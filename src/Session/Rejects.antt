-- ===== src/Session/Rejects.antt =====
-- What session.go refuses, and what each call does to the counters on every branch.
use reflex.Prelude.{
  ℕ, ◌+◌, ◌≤◌, ◌<◌, ◌≡◌, ◌⊎◌, inl, inr, refl, sym, ap, none, ◌∙◌, [], append-nil, Bool, true, false,
  ◌||◌, ◌++◌, length, take, get_or, ltb, ◌==◌, arith, lt→ltb, Bool-cases,
}
use reflex.Prelude.Bytes.{Bytes, uint}
use reflex.Prelude.Keys.{mem}
use reflex.Prelude.Result.{Result, ok, err}
use reflex.Io.{
  IoError, Reader, Writer, read_full, replay_detected, frame_too_large, open_failed, Error,
}
use reflex.Crypto.{Crypto, CryptoLaws, overhead}
use reflex.Replay.{Replay, remember}
use reflex.Replay.Window.{IsWindow, remember_old, remember_new, remember_seen}
use reflex.Session.{
  Session, make_nonce, next_nonce, max_frame_payload_size, remember_ciphertext, read_frame,
  write_frame, accept_frame, unseal_frame, read_header, read_body, Written, Frame,
}
use reflex.Session.RoundTrip.{framed, frame_bytes, read_frame-framed, write_frame_lem}

module _ (c : Crypto) where
  accept_frame-replay :
      (size frame_type : ℕ) (enc : Bytes) (s : Session) (fresh : Bool)
      → (accept_frame c size frame_type enc (s, fresh)).0.replay ≡ s.replay
  unfolding accept_frame unseal_frame
  accept_frame-replay size frame_type enc s true = refl
  accept_frame-replay size frame_type enc s false = refl

  read_frame-replay :
      (s : Session) (frame_type : ℕ) (enc rest : Bytes) (r : Reader)
      → 0 < length enc
      → length enc ≤ max_frame_payload_size
      → r.pending ≡ framed enc frame_type ++ rest
      → (read_frame c s r).0.replay ≡ (remember s.replay (c.sum256 enc)).0
  unfolding remember_ciphertext
  read_frame-replay s frame_type enc rest r nonempty fits e =
      rw (read_frame-framed c s frame_type enc rest r e nonempty fits)
        (accept_frame-replay (length enc) frame_type enc _ _)

  -- A ciphertext that `ReadFrame` has just let through its replay check, whatever came of opening it,
  -- is refused when it comes again, under any frame type; the session stays as it is.
  pub read_frame_replayed :
      (s : Session) (frame_type again : ℕ) (enc rest more : Bytes) (r r' : Reader)
      → IsWindow s.replay
      → 0 < length enc
      → length enc ≤ max_frame_payload_size
      → (remember s.replay (c.sum256 enc)).1 ≡ true
      → r.pending ≡ framed enc frame_type ++ rest
      → r'.pending ≡ framed enc again ++ more
      → read_frame c (read_frame c s r).0 r'
        ≡ ((read_frame c s r).0, (record r' { pending = more }, err replay_detected))
  unfolding accept_frame unseal_frame remember_ciphertext
  read_frame_replayed s frame_type again enc rest more r r' w nonempty fits new e e' =
      read_frame-framed c s1 again enc more r' e' nonempty fits ∙ rw refused
    where
      s1 : Session
      s1 = (read_frame c s r).0

      kept : s1.replay ≡ (remember s.replay (c.sum256 enc)).0
      kept = read_frame-replay s frame_type enc rest r nonempty fits e

      refused : remember s1.replay (c.sum256 enc) ≡ (s1.replay, false)
      refused = remember_old s1.replay (c.sum256 enc) (
          ap (λ (m : Replay). mem (c.sum256 enc) m.seen) kept
          ∙ remember_seen s.replay (c.sum256 enc) w new)

  -- The session that a ciphertext with a new digest leaves behind.
  abbrev pub moved_on : Session → Bytes → Session
  moved_on s enc = record s {
    read_nonce = next_nonce s.read_nonce;
    replay = (remember s.replay (c.sum256 enc)).0;
  }

  -- A reader's session before and after: nothing has changed, or one new ciphertext has come in.
  abbrev pub Reads : Session → Session → Type 0
  Reads s s' =
      (s' ≡ s)
      ⊎ ((enc : Bytes) × (mem (c.sum256 enc) s.replay.seen ≡ false) × (s' ≡ moved_on s enc))

  accept_Reads :
      (s : Session) (size frame_type : ℕ) (enc : Bytes)
      → Reads s (accept_frame c size frame_type enc (remember_ciphertext c s enc)).0
  unfolding accept_frame unseal_frame remember_ciphertext
  accept_Reads s size frame_type enc = elim (Bool-cases (mem (c.sum256 enc) s.replay.seen)) [
    | inl old ↦ inl (
        ap
          (λ (m : Replay × Bool).
            (accept_frame c size frame_type enc (record s { replay = m.0 }, m.1)).0)
          (remember_old s.replay (c.sum256 enc) old))
    | inr new ↦ inr (
      enc,
      new,
      ap
          (λ (b : Bool).
            (accept_frame c size frame_type enc
              (record s { replay = (remember s.replay (c.sum256 enc)).0 }, b)).0)
          (remember_new s.replay (c.sum256 enc) new),
    )
  ]

  body_Reads :
      (s : Session) (size frame_type : ℕ) (input : Reader × Result IoError Bytes)
      → Reads s (read_body c s size frame_type input).0
  unfolding read_body
  body_Reads s size frame_type (r, err e) = inl refl
  body_Reads s size frame_type (r, ok enc) = accept_Reads s size frame_type enc

  header_Reads :
      (s : Session) (input : Reader × Result IoError Bytes) → Reads s (read_header c s input).0
  unfolding read_header
  header_Reads s (r, err e) = inl refl
  header_Reads s (r, ok header) =
      elim (Bool-cases
        (uint (take 2 header) == 0 || ltb max_frame_payload_size (uint (take 2 header)))) [
          | inl bad ↦ rw bad (inl refl)
          | inr good ↦ rw good (
              body_Reads s (uint (take 2 header)) (get_or header 2 0)
                (read_full (uint (take 2 header)) r))
        ]

  -- Whatever arrives, `ReadFrame` changes the session only for a ciphertext whose digest is not in
  -- the replay memory: then the digest is remembered and the read counter moves by one, also if the
  -- ciphertext does not open. Key, profile and write counter stay.
  pub read_frame-Reads : (s : Session) (r : Reader) → Reads s (read_frame c s r).0
  unfolding read_frame
  read_frame-Reads s r = header_Reads s (read_full 3 r)

  -- A frame whose ciphertext does not fit the length field is refused, and nothing of it is sent; the
  -- write counter has moved on all the same.
  pub write_frame_too_large :
      CryptoLaws c
      → (s : Session) (w : Writer) (frame_type : ℕ) (payload : Bytes)
      → max_frame_payload_size < length payload + overhead
      → write_frame c s w frame_type payload
        ≡ (record s { write_nonce = next_nonce s.write_nonce }, (w, err frame_too_large))
  unfolding write_frame
  write_frame_too_large laws s w frame_type payload big = rw (
      lt→ltb max_frame_payload_size (length (c.seal s.key (make_nonce s.write_nonce) payload))
        (omega (arith, laws.length-seal s.key (make_nonce s.write_nonce) payload)))

  -- After a frame that was refused as too large a peer that was in step, with the same key, cannot open
  -- the next frame, which fits and finds room on the empty connection: it was sealed under the counter
  -- behind the one that the peer is at. The cipher does not open this ciphertext under the peer's nonce,
  -- and the ciphertext is new to the peer.
  pub write_frame_gap :
      CryptoLaws c
      → (s peer : Session) (w : Writer) (r : Reader) (frame_type frame_type' : ℕ)
        (big small : Bytes)
      → max_frame_payload_size < length big + overhead
      → length small + overhead ≤ max_frame_payload_size
      → length small + 19 ≤ w.room
      → w.sent ≡ []
      → peer.key ≡ s.key
      → peer.read_nonce ≡ s.write_nonce
      → c.unseal s.key
          (make_nonce s.write_nonce)
          (c.seal s.key (make_nonce (next_nonce s.write_nonce)) small)
        ≡ none
      → (remember peer.replay
          (c.sum256 (c.seal s.key (make_nonce (next_nonce s.write_nonce)) small))).1
        ≡ true
      → r.pending
        ≡ (write_frame c
            (write_frame c s w frame_type big).0
            (write_frame c s w frame_type big).1.0
            frame_type'
            small).1.0.sent
      → (read_frame c peer r).1.1 ≡ err open_failed
  unfolding framed frame_bytes remember_ciphertext accept_frame unseal_frame
  write_frame_gap laws s peer w r frame_type frame_type' big small large fits room empty same_key
        in_step wrong new e =
      ap (λ (x : Session × (Reader × Result Error Frame)). x.1.1)
        (read_frame-framed c peer frame_type' enc [] r arrived (omega (arith, size))
          (omega (arith, size, fits)))
      ∙ rw (new, same_key, in_step, wrong) refl
    where
      s1 : Session
      s1 = record s { write_nonce = next_nonce s.write_nonce }

      enc : Bytes
      enc = c.seal s.key (make_nonce (next_nonce s.write_nonce)) small

      size : length enc ≡ length small + overhead
      size = laws.length-seal s.key (make_nonce (next_nonce s.write_nonce)) small

      arrived : r.pending ≡ framed enc frame_type' ++ []
      arrived =
          e
          ∙ ap (λ (x : Written). (write_frame c x.0 x.1.0 frame_type' small).1.0.sent)
              (write_frame_too_large laws s w frame_type big large)
          ∙ ap (λ (x : Written). x.1.0.sent)
              (write_frame_lem c laws s1 w frame_type' small fits room)
          ∙ rw empty (sym (append-nil (framed enc frame_type')))
