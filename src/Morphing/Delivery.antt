-- ===== src/Morphing/Delivery.antt =====
-- Shaping changes the frames and not the data: what `WriteFrameWithMorphing` sends, and what the peer
-- puts together from it.
use reflex.Prelude.{
  ℕ, zero, suc, ◌/◌, ◌≤◌, ◌<◌, ◌≡◌, refl, ap, ◌∙◌, inl, inr, true, some, List, [], ◌∷◌, ◌++◌,
  length, take, drop, All, ◌==◌, if◌then◌else◌, arith, Bool-cases, length-take, length-drop,
  take-append-drop,
}
use reflex.Prelude.Bytes.{Bytes, length-put_uint}
use reflex.Prelude.Int.{ℤ, pos, pos_part, ltb_ℤ}
use reflex.Prelude.Float.{FloatOps, Rand}
use reflex.Prelude.Result.{ok}
use reflex.Io.{Reader, Writer}
use reflex.Crypto.{Crypto, CryptoLaws}
use reflex.Replay.{answers}
use reflex.Profile.{TrafficProfile, millisecond, get_packet_size, get_delay}
use reflex.Profile.Picks.{Bounded}
use reflex.Session.{Session, Written, frame_type_data}
use reflex.Session.Stream.{
  Message, Fits, write_frames, read_frames, stream_bytes, digests, read_frames-write_frames,
}
use reflex.Morphing.{target_size, chunk_size, write_frame_with_morphing}
use reflex.Morphing.Plan.{plan, shape-plan, bare, forget, timing_message}

-- The data that a receiver forwards: the payloads of the data frames, in order.
unfoldable pub data_of : List Message → Bytes
data_of [] = []
data_of (m ∷ ms) = if m.frame_type == frame_type_data then m.payload ++ data_of ms else data_of ms

chunk_positive : (size : ℤ) (n : ℕ) → 0 < n → 0 < chunk_size (target_size size n) n
chunk_positive size n h = ground arith

drop_shrinks : (k n : ℕ) (xs : Bytes) → 0 < k → length xs ≤ suc n → length (drop k xs) ≤ n
drop_shrinks k n xs h fits = omega (arith, length-drop k xs)

data_of-timed :
    (delay : ℤ) (rest : List Message)
    → data_of (if ltb_ℤ (pos 0) delay then timing_message delay ∷ rest else rest) ≡ data_of rest
unfolding data_of
data_of-timed delay rest = ground arith

Fits-timed :
    (delay : ℤ) (rest : List Message)
    → All Fits rest
    → All Fits (if ltb_ℤ (pos 0) delay then timing_message delay ∷ rest else rest)
Fits-timed delay rest h = elim (Bool-cases (ltb_ℤ (pos 0) delay)) [
  | inl wait ↦ rw wait (omega (arith, length-put_uint 8 (pos_part delay / millisecond)), h)
  | inr go ↦ rw go h
]

module _ (fl : FloatOps) where
  -- Nothing of the data is lost, repeated or moved.
  data_of-plan :
      (fuel : ℕ) (p : TrafficProfile) (rnd : Rand) (remaining : Bytes)
      → length remaining ≤ fuel
      → data_of (plan fl fuel p rnd remaining) ≡ remaining
  unfolding plan data_of
  data_of-plan zero p rnd [] h = refl
  data_of-plan zero p rnd (b ∷ bs) h = absurd (omega arith)
  data_of-plan (suc fuel) p rnd [] h = refl
  data_of-plan (suc fuel) p rnd (b ∷ bs) h =
      let p' = (get_packet_size fl p rnd).0 in
      let rnd' = (get_packet_size fl p rnd).1.1 in
      let size = (get_packet_size fl p rnd).1.0 in
      let chunk = chunk_size (target_size size (suc (length bs))) (suc (length bs)) in
      let p'' = (get_delay fl p' rnd').0 in
      let rnd'' = (get_delay fl p' rnd').1.1 in
      let left = drop chunk (b ∷ bs) in
      ap (λ (d : Bytes). take chunk (b ∷ bs) ++ d)
        (data_of-timed (get_delay fl p' rnd').1.0 (plan fl fuel p'' rnd'' left)
          ∙ data_of-plan fuel p'' rnd'' left (
              drop_shrinks chunk fuel (b ∷ bs) (chunk_positive size (suc (length bs)) (omega arith))
                h))
      ∙ take-append-drop chunk (b ∷ bs)

  plan-Fits :
      (fuel : ℕ) (p : TrafficProfile) (rnd : Rand) (remaining : Bytes)
      → length remaining ≤ 65519
      → All Fits (plan fl fuel p rnd remaining)
  unfolding plan
  plan-Fits zero p rnd remaining h = tt
  plan-Fits (suc fuel) p rnd [] h = tt
  plan-Fits (suc fuel) p rnd (b ∷ bs) h =
      let p' = (get_packet_size fl p rnd).0 in
      let rnd' = (get_packet_size fl p rnd).1.1 in
      let target = target_size (get_packet_size fl p rnd).1.0 (suc (length bs)) in
      let chunk = chunk_size target (suc (length bs)) in
      let p'' = (get_delay fl p' rnd').0 in
      let rnd'' = (get_delay fl p' rnd').1.1 in
      let left = drop chunk (b ∷ bs) in
      (
        omega (arith, length-take chunk (b ∷ bs)),
        (
          omega (arith, length-put_uint 2 (pos_part target)),
          Fits-timed (get_delay fl p' rnd').1.0 (plan fl fuel p'' rnd'' left)
              (plan-Fits fuel p'' rnd'' left (omega (arith, length-drop chunk (b ∷ bs)))),
        ),
      )

module _ (c : Crypto) (fl : FloatOps) where
  -- A data frame on a session with a profile is sent as its plan, frame by frame and up to the same
  -- error: the same bytes, the same counter, the same result.
  pub write_frame_with_morphing-plan :
      (s : Session) (p : TrafficProfile) (w : Writer) (rnd : Rand) (payload : Bytes)
      → s.profile ≡ some p
      → Bounded p
      → length payload ≤ 65535
      → forget (write_frame_with_morphing c fl s w rnd frame_type_data payload).0
        ≡ write_frames c (bare s) w (plan fl (length payload) p rnd payload)
  unfolding write_frame_with_morphing
  write_frame_with_morphing-plan s p w rnd payload e b fits =
      rw e (shape-plan c fl (length payload) s p w rnd payload b fits)

  -- The peer of a shaped connection reads frames whose data, put together, is what was written. The
  -- connection has room, and no ciphertext repeats one in the peer's replay memory.
  pub write_frame_with_morphing-delivers :
      CryptoLaws c
      → (s peer : Session) (p : TrafficProfile) (w : Writer) (rnd : Rand) (payload : Bytes)
        (r : Reader)
      → s.profile ≡ some p
      → Bounded p
      → length payload ≤ 65519
      → peer.key ≡ s.key
      → peer.read_nonce ≡ s.write_nonce
      → w.sent ≡ []
      → length (stream_bytes c s.key s.write_nonce (plan fl (length payload) p rnd payload))
        ≤ w.room
      → All
          (λ fresh. fresh ≡ true)
          (answers peer.replay
            (digests c s.key s.write_nonce (plan fl (length payload) p rnd payload)))
      → r.pending ≡ (write_frame_with_morphing c fl s w rnd frame_type_data payload).0.1.0.sent
      → (got : List Message) × ((read_frames c (length got) peer r).1
          ≡ (record r { pending = [] }, ok got))
        × (data_of got ≡ payload)
  write_frame_with_morphing-delivers laws s peer p w rnd payload r e b fits key nonce empty room
        fresh arrived =
      let sent = write_frame_with_morphing-plan s p w rnd payload e b (omega arith) in
      let (reads, counted, written) =
        read_frames-write_frames c laws (plan fl (length payload) p rnd payload) (bare s) peer w r
          key nonce empty (plan-Fits fl (length payload) p rnd payload fits) room fresh
          (arrived ∙ ap (λ (x : Written). x.1.0.sent) sent) in
      (
        plan fl (length payload) p rnd payload,
        reads,
        data_of-plan fl (length payload) p rnd payload (omega arith),
      )
