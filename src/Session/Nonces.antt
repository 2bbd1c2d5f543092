-- ===== src/Session/Nonces.antt =====
-- The nonces of session.go: never twice in one direction, but the same in both directions.
use reflex.Prelude.{
  ℕ, suc, ◌+◌, ◌-◌, ◌^◌, ◌≤◌, ◌<◌, ◌≡◌, ◌≢◌, refl, sym, ap, ◌∙◌, true, List, [], ◌∷◌, ◌++◌,
  append-nil, length, length-append, drop, arith,
}
use reflex.Prelude.Bytes.{Bytes, uint, uint-put_uint}
use reflex.Prelude.Keys.{mem}
use reflex.Prelude.Result.{Result, ok}
use reflex.Io.{Reader, Writer, Error}
use reflex.Crypto.{Crypto, CryptoLaws, overhead}
use reflex.Replay.{new_replay, remember}
use reflex.Replay.Window.{remember_new}
use reflex.Session.{
  Frame, Session, make_nonce, next_nonce, max_frame_payload_size, new_session, read_frame,
  write_frame, Written,
}
use reflex.Session.RoundTrip.{framed, sealed, frame_bytes, read_frame_lem, write_frame_lem}
use reflex.Session.Stream.{Message}

make_nonce-injective : (a b : ℕ) → a < 2 ^ 64 → b < 2 ^ 64 → make_nonce a ≡ make_nonce b → a ≡ b
unfolding make_nonce
make_nonce-injective a b ha hb e =
    sym (uint-put_uint 8 a ha) ∙ ap (λ (n : Bytes). uint (drop 4 n)) e ∙ uint-put_uint 8 b hb

new_session_start :
    (key : Bytes) (s : Session)
    → new_session key ≡ ok s
    → (s.read_nonce ≡ s.write_nonce) × (s.replay ≡ new_replay)
unfolding new_session
new_session_start key s e = ground arith

module _ (c : Crypto) where
  write_frame-session :
      (s : Session) (w : Writer) (frame_type : ℕ) (payload : Bytes)
      → (write_frame c s w frame_type payload).0
        ≡ record s { write_nonce = next_nonce s.write_nonce }
  unfolding write_frame
  write_frame-session s w frame_type payload = ground arith

  -- The session and the connection after a run of `WriteFrame` calls, whatever came of each.
  unfoldable pub after_writes : Session → Writer → List Message → Session × Writer
  after_writes s w [] = (s, w)
  after_writes s w (m ∷ ms) =
      let (s', (w', result)) = write_frame c s w m.frame_type m.payload in after_writes s' w' ms

  after_writes-counter :
      (ms : List Message) (s : Session) (w : Writer)
      → s.write_nonce + length ms < 2 ^ 64
      → ((after_writes s w ms).0.write_nonce ≡ s.write_nonce + length ms)
        × ((after_writes s w ms).0.key ≡ s.key)
  unfolding after_writes
  after_writes-counter [] s w h = (omega arith, refl)
  after_writes-counter (m ∷ ms) s w h =
      let (counter, same_key) =
        after_writes-counter ms (write_frame c s w m.frame_type m.payload).0
          (write_frame c s w m.frame_type m.payload).1.0 (omega (arith, h, moved)) in
      (
        omega (arith, counter, moved, h),
        same_key ∙ ap (λ (t : Session). t.key) (write_frame-session s w m.frame_type m.payload),
      )
    where
      moved : (write_frame c s w m.frame_type m.payload).0.write_nonce ≡ next_nonce s.write_nonce
      moved = ap (λ (t : Session). t.write_nonce) (write_frame-session s w m.frame_type m.payload)

  -- The frame that a call of `WriteFrame` puts on the connection has the payload sealed under a nonce.
  abbrev pub GoesOut : Bytes → Bytes → Session × Writer → Message → Type 0
  GoesOut key nonce (s, w) m =
      (write_frame c s w m.frame_type m.payload).1.0.sent
      ≡ w.sent ++ framed (c.seal key nonce m.payload) m.frame_type

  abbrev pub HasRoom : Writer → Message → Type 0
  HasRoom w m =
      (length m.payload + overhead ≤ max_frame_payload_size) × (length m.payload + 19 ≤ w.room)

  goes_out :
      CryptoLaws c
      → (key : Bytes) (s : Session) (w : Writer) (m : Message) → s.key ≡ key
      → HasRoom w m
      → GoesOut key (make_nonce s.write_nonce) (s, w) m
  unfolding frame_bytes framed
  goes_out laws key s w m same (fits, room) =
      ap (λ (x : Written). x.1.0.sent) (write_frame_lem c laws s w m.frame_type m.payload fits room)
      ∙ ap
          (λ (k : Bytes).
            w.sent ++ framed (c.seal k (make_nonce s.write_nonce) m.payload) m.frame_type)
          same

  -- No nonce is used twice: of two calls of one session, with any others before and between them, each
  -- puts its frame on the connection sealed under the session's key and the nonce of its counter, and
  -- the two nonces differ, as long as the counter stays below 2 ^ 64 and the two frames fit and
  -- find room.
  pub write_frame_nonces :
      CryptoLaws c
      → (before between : List Message) (m m' : Message) (s : Session) (w : Writer)
      → s.write_nonce + length (before ++ (m ∷ between)) < 2 ^ 64
      → HasRoom (after_writes s w before).1 m
      → HasRoom (after_writes s w (before ++ (m ∷ between))).1 m'
      → GoesOut s.key
          (make_nonce (after_writes s w before).0.write_nonce)
          (after_writes s w before)
          m
        × GoesOut s.key
            (make_nonce (after_writes s w (before ++ (m ∷ between))).0.write_nonce)
            (after_writes s w (before ++ (m ∷ between)))
            m'
        × (make_nonce (after_writes s w before).0.write_nonce
            ≢ make_nonce (after_writes s w (before ++ (m ∷ between))).0.write_nonce)
  write_frame_nonces laws before between m m' s w h room room' =
      let (counter, same_key) = after_writes-counter before s w (omega (arith, h, sizes)) in
      let (counter', same_key') = after_writes-counter (before ++ (m ∷ between)) s w h in
      (
        goes_out laws s.key (after_writes s w before).0 (after_writes s w before).1 m same_key room,
        goes_out laws s.key (after_writes s w (before ++ (m ∷ between))).0
            (after_writes s w (before ++ (m ∷ between))).1 m' same_key' room',
        (λ e.
            apart
              (make_nonce-injective _ _ (omega (arith, counter, h, sizes))
                (omega (arith, counter', h)) e)
              counter counter'),
      )
    where
      sizes : length (before ++ (m ∷ between)) ≡ length before + suc (length between)
      sizes = length-append before (m ∷ between)

      apart :
          {a b : ℕ}
          → a ≡ b
          → a ≡ s.write_nonce + length before
          → b ≡ s.write_nonce + length (before ++ (m ∷ between))
          → ⊥
      apart e f g = omega (arith, e, f, g, sizes)

  -- The two directions of a connection share the key, and both counters start at zero: a session
  -- takes a frame of its own that is sent back to it for one of its peer's.
  pub read_frame_reflected :
      CryptoLaws c
      → (key payload : Bytes) (frame_type : ℕ) (s : Session) (w : Writer) (r : Reader)
      → new_session key ≡ ok s
      → w.sent ≡ []
      → length payload + overhead ≤ max_frame_payload_size
      → length payload + 19 ≤ w.room
      → r.pending ≡ (write_frame c s w frame_type payload).1.0.sent
      → (read_frame c (write_frame c s w frame_type payload).0 r).1.1
        ≡ ok (record {
          size = length payload + overhead;
          frame_type = frame_type;
          payload = payload;
        })
  read_frame_reflected laws key payload frame_type s w r fresh empty fits room e = rw written (
      ap (λ (x : Session × (Reader × Result Error Frame)). x.1.1)
        (read_frame_lem c laws s1 frame_type payload [] r arrived fits unseen))
    where
      s1 : Session
      s1 = record s { write_nonce = next_nonce s.write_nonce }

      written : write_frame c s w frame_type payload ≡ (
        s1,
        (
          record {
            sent = w.sent ++ frame_bytes c s.key s.write_nonce frame_type payload;
            room = w.room - (length payload + 19);
          },
          ok tt,
        ),
      )
      written = write_frame_lem c laws s w frame_type payload fits room

      start : (s.read_nonce ≡ s.write_nonce) × (s.replay ≡ new_replay)
      start = new_session_start key s fresh

      arrived : r.pending ≡ frame_bytes c s1.key s1.read_nonce frame_type payload ++ []
      arrived = e ∙ rw (written, empty, start.0, append-nil)

      unseen : (remember s1.replay (c.sum256 (sealed c s1.key s1.read_nonce payload))).1 ≡ true
      unseen = rw start.1 (remember_new new_replay _ (unfold new_replay mem in refl))
