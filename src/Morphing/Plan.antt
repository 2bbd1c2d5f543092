-- ===== src/Morphing/Plan.antt =====
-- `WriteFrameWithMorphing` as a plan of plain frames that is written frame by frame.
use reflex.Prelude.{
  ℕ, zero, suc, ◌/◌, ◌≤◌, ◌<◌, ◌≡◌, refl, ap, ◌∙◌, inl, inr, true, none, List, [], ◌∷◌, length,
  take, drop, if◌then◌else◌, arith, Bool-cases, length-drop,
}
use reflex.Prelude.Bytes.{Bytes, put_uint}
use reflex.Prelude.Int.{ℤ, pos, pos_part, ltb_ℤ, ◌≤ℤ◌}
use reflex.Prelude.Float.{FloatOps, Rand}
use reflex.Prelude.Result.{ok, err}
use reflex.Io.{Writer}
use reflex.Crypto.{Crypto}
use reflex.Profile.{TrafficProfile, millisecond, get_packet_size, get_delay}
use reflex.Profile.Picks.{Bounded, get_packet_size-Bounded, get_delay-Bounded}
use reflex.Session.{
  Session, Written, and_then, set_traffic_profile, write_frame, frame_type_data, frame_type_padding,
  frame_type_timing,
}
use reflex.Session.Stream.{Message, write_frames}
use reflex.Morphing.{
  Shaped, shape_next, send_padding_control, send_timing_control, target_size, chunk_size,
  send_delay, send_chunk, shape,
}

abbrev pub data_message : Bytes → Message
data_message chunk = record { frame_type = frame_type_data; payload = chunk }

abbrev pub padding_message : ℤ → Message
padding_message target = record {
  frame_type = frame_type_padding;
  payload = put_uint 2 (pos_part target);
}

abbrev pub timing_message : ℤ → Message
timing_message delay = record {
  frame_type = frame_type_timing;
  payload = put_uint 8 (pos_part delay / millisecond);
}

-- The messages for the data that remains: a chunk, the target that it was cut to, and the delay that
-- follows, unless that is zero.
module _ (fl : FloatOps) where
  unfoldable pub plan : ℕ → TrafficProfile → Rand → Bytes → List Message
  plan zero p rnd remaining = []
  plan (suc fuel) p rnd [] = []
  plan (suc fuel) p rnd (b ∷ bs) =
      let remaining = b ∷ bs in
      let (p', (size, rnd')) = get_packet_size fl p rnd in
      let target = target_size size (length remaining) in
      let (p'', (delay, rnd'')) = get_delay fl p' rnd' in
      let chunk = chunk_size target (length remaining) in
      let rest = plan fuel p'' rnd'' (drop chunk remaining) in
      data_message (take chunk remaining)
      ∷ padding_message target
      ∷ (if ltb_ℤ (pos 0) delay then timing_message delay ∷ rest else rest)

-- A session without its profile, which writing does not look at.
abbrev pub bare : Session → Session
bare s = record s { profile = none }

abbrev pub forget : Written → Written
forget (s, out) = (bare s, out)

module _ (c : Crypto) where
  forget-write_frame :
      (s : Session) (w : Writer) (frame_type : ℕ) (payload : Bytes)
      → forget (write_frame c s w frame_type payload) ≡ write_frame c (bare s) w frame_type payload
  unfolding write_frame
  forget-write_frame s w frame_type payload = ground arith

  send_padding_control_lem :
      (s : Session) (w : Writer) (size : ℤ) (n : ℕ)
      → size ≤ℤ pos 65535
      → 0 < n
      → n ≤ 65535
      → send_padding_control c s w (target_size size n)
        ≡ write_frame c s w frame_type_padding (put_uint 2 (pos_part (target_size size n)))
  unfolding send_padding_control
  send_padding_control_lem s w size n h some_left fits = ground arith

  pub send_timing_control_lem :
      (s : Session) (w : Writer) (delay : ℤ)
      → ltb_ℤ (pos 0) delay ≡ true
      → send_timing_control c s w delay
        ≡ write_frame c s w frame_type_timing (put_uint 8 (pos_part delay / millisecond))
  unfolding send_timing_control
  send_timing_control_lem s w delay h = rw h

-- The two loops stop at the same errors.
shape-and_then :
    (x : Written) (g : Session → Writer → Written) (p : TrafficProfile) (rnd : Rand)
    (h : Session → Writer → TrafficProfile → Rand → Shaped) (k : Session → Writer → Written)
    → ((s : Session) (w : Writer) → forget (shape_next (g s w, (p, rnd)) h).0 ≡ k (bare s) w)
    → forget (shape_next (and_then x g, (p, rnd)) h).0 ≡ and_then (forget x) k
shape-and_then (s, (w, ok u)) g p rnd h k same = same s w
shape-and_then (s, (w, err e)) g p rnd h k same = refl

shape-written :
    (x : Written) (p : TrafficProfile) (rnd : Rand)
    (h : Session → Writer → TrafficProfile → Rand → Shaped) (k : Session → Writer → Written)
    → ((s : Session) (w : Writer) → forget (h s w p rnd).0 ≡ k (bare s) w)
    → forget (shape_next (x, (p, rnd)) h).0 ≡ and_then (forget x) k
shape-written (s, (w, ok u)) p rnd h k same = same s w
shape-written (s, (w, err e)) p rnd h k same = refl

shape-write_frame :
    (c : Crypto) (s : Session) (w : Writer) (m : Message) (p : TrafficProfile) (rnd : Rand)
    (h : Session → Writer → TrafficProfile → Rand → Shaped) (k : Session → Writer → Written)
    → ((t : Session) (v : Writer) → forget (h t v p rnd).0 ≡ k (bare t) v)
    → forget (shape_next (write_frame c s w m.frame_type m.payload, (p, rnd)) h).0
      ≡ and_then (write_frame c (bare s) w m.frame_type m.payload) k
shape-write_frame c s w m p rnd h k same =
    shape-written (write_frame c s w m.frame_type m.payload) p rnd h k same
    ∙ ap (λ (x : Written). and_then x k) (forget-write_frame c s w m.frame_type m.payload)

shape_next_assoc :
    (x : Written) (p : TrafficProfile) (rnd : Rand)
    (g h : Session → Writer → TrafficProfile → Rand → Shaped)
    → shape_next (shape_next (x, (p, rnd)) g) h
      ≡ shape_next (x, (p, rnd)) (λ s w p' rnd'. shape_next (g s w p' rnd') h)
shape_next_assoc (s, (w, ok u)) p rnd g h = refl
shape_next_assoc (s, (w, err e)) p rnd g h = refl

module _ (c : Crypto) (fl : FloatOps) (next : Session → Writer → TrafficProfile → Rand → Shaped)
    (rest : List Message) (p : TrafficProfile) (rnd : Rand)
    (ih : (s : Session) (w : Writer)
      → forget (next s w (get_delay fl p rnd).0 (get_delay fl p rnd).1.1).0
        ≡ write_frames c (bare s) w rest) where
  -- What comes behind the padding frame.
  abbrev timed : List Message
  timed =
      if ltb_ℤ (pos 0) (get_delay fl p rnd).1.0
      then timing_message (get_delay fl p rnd).1.0 ∷ rest
      else rest

  delay-plan :
      (s : Session) (w : Writer)
      → forget (shape_next (send_delay c fl s w p rnd) next).0 ≡ write_frames c (bare s) w timed
  unfolding send_delay write_frames
  delay-plan s w = elim (Bool-cases (ltb_ℤ (pos 0) (get_delay fl p rnd).1.0)) [
    | inl wait ↦
        rw (wait, send_timing_control_lem c s' w (get_delay fl p rnd).1.0 wait)
          (shape-write_frame c s' w (timing_message (get_delay fl p rnd).1.0) (get_delay fl p rnd).0
            (get_delay fl p rnd).1.1 next (λ t v. write_frames c t v rest) ih)
    | inr go ↦ rw go (ih s' w)
  ]
    where
      s' : Session
      s' = set_traffic_profile s (get_delay fl p rnd).0

  chunk-plan :
      (s : Session) (w : Writer) (remaining : Bytes) (size : ℤ)
      → size ≤ℤ pos 65535
      → 0 < length remaining
      → length remaining ≤ 65535
      → let target = target_size size (length remaining) in
        forget (shape_next (send_chunk c fl s p w rnd remaining target) next).0
        ≡ write_frames c (bare s) w (
            data_message (take (chunk_size target (length remaining)) remaining)
            ∷ padding_message target
            ∷ timed)
  unfolding send_chunk write_frames
  chunk-plan s w remaining size bounded nonempty fits =
      ap (λ (x : Shaped). forget x.0) (shape_next_assoc chunked p rnd (send_delay c fl) next)
      ∙ shape-and_then (write_frame c (set_traffic_profile s p) w frame_type_data chunk)
          (λ t v. send_padding_control c t v target) p rnd
          (λ s' w' p' rnd'. shape_next (send_delay c fl s' w' p' rnd') next)
          (λ t v. write_frames c t v (padding_message target ∷ timed)) padded
      ∙ ap
          (λ (x : Written). and_then x (λ t v. write_frames c t v (padding_message target ∷ timed)))
          (forget-write_frame c (set_traffic_profile s p) w frame_type_data chunk)
    where
      target : ℤ
      target = target_size size (length remaining)

      chunk : Bytes
      chunk = take (chunk_size target (length remaining)) remaining

      chunked : Written
      chunked =
          and_then (write_frame c (set_traffic_profile s p) w frame_type_data chunk)
            (λ t v. send_padding_control c t v target)

      padded :
          (t : Session) (v : Writer)
          → forget
              (shape_next
                (send_padding_control c t v target, (p, rnd))
                (λ s' w' p' rnd'. shape_next (send_delay c fl s' w' p' rnd') next)).0
            ≡ write_frames c (bare t) v (padding_message target ∷ timed)
      padded t v =
          rw (send_padding_control_lem c t v size (length remaining) bounded nonempty fits) (
            shape-write_frame c t v (padding_message target) p rnd
              (λ s' w' p' rnd'. shape_next (send_delay c fl s' w' p' rnd') next)
              (λ t' v'. write_frames c t' v' timed) delay-plan)

module _ (c : Crypto) (fl : FloatOps) where
  pub shape-plan :
      (fuel : ℕ) (s : Session) (p : TrafficProfile) (w : Writer) (rnd : Rand) (remaining : Bytes)
      → Bounded p
      → length remaining ≤ 65535
      → forget (shape c fl fuel s p w rnd remaining).0
        ≡ write_frames c (bare s) w (plan fl fuel p rnd remaining)
  unfolding shape plan
  shape-plan zero s p w rnd remaining b fits = unfold write_frames in refl
  shape-plan (suc fuel) s p w rnd [] b fits = unfold write_frames in refl
  shape-plan (suc fuel) s p w rnd (x ∷ xs) b fits =
      let (b', small) = get_packet_size-Bounded fl p rnd b in
      let p' = (get_packet_size fl p rnd).0 in
      let rnd' = (get_packet_size fl p rnd).1.1 in
      let target = target_size (get_packet_size fl p rnd).1.0 (suc (length xs)) in
      let left = drop (chunk_size target (suc (length xs))) (x ∷ xs) in
      chunk-plan c fl (λ s'' w'' p'' rnd''. shape c fl fuel s'' p'' w'' rnd'' left)
        (plan fl fuel (get_delay fl p' rnd').0 (get_delay fl p' rnd').1.1 left) p' rnd'
        (λ t v.
          shape-plan fuel t (get_delay fl p' rnd').0 v (get_delay fl p' rnd').1.1 left
            (get_delay-Bounded fl p' rnd' b')
            (omega (arith, length-drop (chunk_size target (suc (length xs))) (x ∷ xs))))
        s w (x ∷ xs) (get_packet_size fl p rnd).1.0 small (omega arith) fits
