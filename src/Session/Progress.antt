-- ===== src/Session/Progress.antt =====
-- Each frame takes bytes off the stream.
use reflex.Prelude.{
  ℕ, ◌+◌, ◌≤◌, ◌<◌, ◌≡◌, refl, ap, ◌∙◌, inl, inr, Bool-cases, length, length-append, take, get_or,
  ltb, ◌==◌, ◌||◌, arith,
}
use reflex.Prelude.Bytes.{Bytes, uint}
use reflex.Prelude.Result.{Result, ok, err}
use reflex.Io.{Reader, IoError, Error, invalid_frame_length, read_full, read_full-ok}
use reflex.Crypto.{Crypto}
use reflex.Session.{Session, Frame, read_frame, read_header, read_body, max_frame_payload_size}

read_full-length :
    (n : ℕ) (r r' : Reader) (xs : Bytes)
    → read_full n r ≡ (r', ok xs)
    → length r.pending ≡ n + length r'.pending
read_full-length n r r' xs e =
    let (split, size) = read_full-ok n r r' xs e in
    ap length split ∙ omega (arith, length-append xs r'.pending, size)

module _ (c : Crypto) where
  body_reader :
      (s s' : Session) (size frame_type : ℕ) (r r' : Reader) (f : Frame)
      (input : Reader × Result IoError Bytes)
      → read_full size r ≡ input
      → read_body c s size frame_type input ≡ (s', (r', ok f))
      → length r'.pending ≤ length r.pending
  unfolding read_body
  body_reader s s' size frame_type r r' f (r1, err e) read h = ground arith
  body_reader s s' size frame_type r r' f (r1, ok enc) read h =
      let same = ap (λ (x : Session × (Reader × Result Error Frame)). x.1.0) h in
      rw (← same) (omega (arith, read_full-length size r r1 enc read))

  refused :
      (s s' : Session) (r r' r1 : Reader) (e : Error) (f : Frame)
      → ◌≡◌ {A = Session × (Reader × Result Error Frame)} (s, (r1, err e)) (s', (r', ok f))
      → length r'.pending < length r.pending
  refused s s' r r' r1 e f h = ground arith

  header_reader :
      (s s' : Session) (r r' : Reader) (f : Frame) (input : Reader × Result IoError Bytes)
      → read_full 3 r ≡ input
      → read_header c s input ≡ (s', (r', ok f))
      → length r'.pending < length r.pending
  unfolding read_header
  header_reader s s' r r' f (r1, err e) read h = ground arith
  header_reader s s' r r' f (r1, ok header) read h =
      elim (Bool-cases
        (uint (take 2 header) == 0 || ltb max_frame_payload_size (uint (take 2 header)))) [
          | inl bad ↦ refused s s' r r' r1 invalid_frame_length f (rw bad at h)
          | inr good ↦ omega (
            arith,
            body_reader s s' (uint (take 2 header)) (get_or header 2 0) r1 r' f _ refl
                (rw good at h),
            read_full-length 3 r r1 header read,
          )
        ]

  -- A frame that is read takes three bytes of the stream at least.
  pub read_frame-shorter :
      (s s' : Session) (r r' : Reader) (f : Frame)
      → read_frame c s r ≡ (s', (r', ok f))
      → length r'.pending < length r.pending
  unfolding read_frame
  read_frame-shorter s s' r r' f h = header_reader s s' r r' f (read_full 3 r) refl h
