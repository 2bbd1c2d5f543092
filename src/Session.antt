-- ===== src/Session.antt =====
-- proxy/reflex/inbound/session.go: the frames of a Reflex connection and the state that encrypts
-- them. `writeMu` makes each `WriteFrame` one step, as it is here. A `Session` is passed on also by
-- a call that fails, since Go has changed it by then.
pub mod RoundTrip
pub mod Stream
pub mod Rejects
pub mod Nonces
pub mod Progress
mod Tests
use reflex.Prelude.{
  ℕ, suc, ◌+◌, ◌%◌, ◌^◌, ◌≡◌, Bool, true, false, ◌||◌, Option, none, some, List, [], ◌∷◌, ◌++◌,
  length, take, drop, get_or, ltb, ◌==◌, if◌then◌else◌,
}
use reflex.Prelude.Bytes.{Bytes, uint, put_uint}
use reflex.Prelude.Result.{Result, ok, err}
use reflex.Io.{
  IoError, Reader, Writer, read_full, write, Error, io, bad_key_length, invalid_frame_length,
  replay_detected, open_failed, frame_too_large,
}
use reflex.Crypto.{Crypto, key_size}
use reflex.Replay.{Replay, new_replay, remember}
use reflex.Profile.{TrafficProfile}

abbrev pub frame_type_data : ℕ
frame_type_data = 0x01

abbrev pub frame_type_padding : ℕ
frame_type_padding = 0x02

abbrev pub frame_type_timing : ℕ
frame_type_timing = 0x03

abbrev pub frame_type_close : ℕ
frame_type_close = 0x04

abbrev pub max_frame_payload_size : ℕ
max_frame_payload_size = 65535

pub record Frame : Type 0 where
  pub size : ℕ
  pub frame_type : ℕ
  pub payload : Bytes

-- The AEAD of the source is `key`, from which it is made. `replay` is the pair of `replaySeen` and
-- `replayOrder`.
pub record Session : Type 0 where
  pub key : Bytes
  pub read_nonce : ℕ
  pub write_nonce : ℕ
  pub profile : Option TrafficProfile
  pub replay : Replay

-- `chacha20poly1305.New` refuses a key of another length.
unfoldable pub new_session : Bytes → Result Error Session
new_session key =
    if length key == key_size
    then ok
        (record { key = key; read_nonce = 0; write_nonce = 0; profile = none; replay = new_replay })
    else err bad_key_length

abbrev pub set_traffic_profile : Session → TrafficProfile → Session
set_traffic_profile s p = record s { profile = some p }

-- The state after a call that writes, and its error.
abbrev pub Written : Type 0
Written = Session × (Writer × Result Error (Unit {0}))

-- `if err := …; err != nil { return err }`.
abbrev pub and_then : Written → (Session → Writer → Written) → Written
and_then (s, (w, ok u)) f = f s w
and_then (s, (w, err e)) f = (s, (w, err e))

-- Four zero bytes, then the counter.
unfoldable pub make_nonce : ℕ → Bytes
make_nonce counter = (0 ∷ 0 ∷ 0 ∷ 0 ∷ []) ++ put_uint 8 counter

-- `counter++` on a uint64.
abbrev pub next_nonce : ℕ → ℕ
next_nonce n = (n + 1) % 2 ^ 64

module _ (c : Crypto) where
  unfoldable pub remember_ciphertext : Session → Bytes → Session × Bool
  remember_ciphertext s ciphertext =
      let (replay, fresh) = remember s.replay (c.sum256 ciphertext) in
      (record s { replay = replay }, fresh)

  -- The nonce counter has moved on when `Open` fails.
  pub unseal_frame : Session → ℕ → ℕ → Bytes → Session × Result Error Frame
  unseal_frame s size frame_type encrypted = (
    record s { read_nonce = next_nonce s.read_nonce },
    elim (c.unseal s.key (make_nonce s.read_nonce) encrypted) [
      | none ↦ err open_failed
      | some payload ↦ ok (record { size = size; frame_type = frame_type; payload = payload })
    ],
  )

  pub accept_frame : ℕ → ℕ → Bytes → Session × Bool → Session × Result Error Frame
  accept_frame size frame_type encrypted (s, true) = unseal_frame s size frame_type encrypted
  accept_frame size frame_type encrypted (s, false) = (s, err replay_detected)

  read_body :
      Session → ℕ → ℕ → Reader × Result IoError Bytes → Session × (Reader × Result Error Frame)
  read_body s size frame_type (r, err e) = (s, (r, err (io e)))
  read_body s size frame_type (r, ok encrypted) =
      let (s', result) = accept_frame size frame_type encrypted (remember_ciphertext s encrypted) in
      (s', (r, result))

  read_header : Session → Reader × Result IoError Bytes → Session × (Reader × Result Error Frame)
  read_header s (r, err e) = (s, (r, err (io e)))
  read_header s (r, ok header) =
      let size = uint (take 2 header) in
      if size == 0 || ltb max_frame_payload_size size
      then (s, (r, err invalid_frame_length))
      else read_body s size (get_or header 2 0) (read_full size r)

  unfoldable pub read_frame : Session → Reader → Session × (Reader × Result Error Frame)
  unfolding read_header read_body accept_frame unseal_frame remember_ciphertext
  read_frame s r = read_header s (read_full 3 r)

  write_next : Writer × Result IoError (Unit {0}) → Bytes → Writer × Result Error (Unit {0})
  write_next (w, err e) p = (w, err (io e))
  write_next (w, ok u) p = lift_io (write w p)
    where
      lift_io : Writer × Result IoError (Unit {0}) → Writer × Result Error (Unit {0})
      lift_io (v, err e) = (v, err (io e))
      lift_io (v, ok u) = (v, ok u)

  -- The nonce counter has moved on when the frame is too large, or the connection fails.
  unfoldable pub write_frame : Session → Writer → ℕ → Bytes → Written
  unfolding write_next
  write_frame s w frame_type payload =
      let encrypted = c.seal s.key (make_nonce s.write_nonce) payload in
      let s' = record s { write_nonce = next_nonce s.write_nonce } in
      if ltb max_frame_payload_size (length encrypted)
      then (s', (w, err frame_too_large))
      else (s', write_next (write w (put_uint 2 (length encrypted) ++ (frame_type ∷ []))) encrypted)
