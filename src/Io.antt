-- ===== src/Io.antt =====
-- The connection as the code sees it: Go's io.Reader with io.ReadFull, and io.Writer.
use reflex.Prelude.{
  ℕ, ◌-◌, ◌≤◌, ◌≡◌, ap, ◌∙◌, [], ◌∷◌, ◌++◌, length, take, drop, leb, if◌then◌else◌, arith,
  take-length, drop-length, le→leb, length-append, take-append-drop, length-take,
}
use reflex.Prelude.Bytes.{Bytes}
use reflex.Prelude.Result.{Result, ok, err}

-- `io.EOF`, `io.ErrUnexpectedEOF`, and any other failure of the connection.
pub data IoError : Type 0 where
  eof unexpected_eof broken : IoError

-- The bytes that will arrive, and the error that follows them.
pub record Reader : Type 0 where
  pub pending : Bytes
  pub ends : IoError

short_read : Bytes → IoError → IoError
short_read [] e = e
short_read (b ∷ bs) eof = unexpected_eof
short_read (b ∷ bs) unexpected_eof = unexpected_eof
short_read (b ∷ bs) broken = broken

-- `io.ReadFull(r, make([]byte, n))`. A short read takes what there was.
unfoldable pub read_full : ℕ → Reader → Reader × Result IoError Bytes
unfolding short_read
read_full n r =
    if leb n (length r.pending)
    then (record r { pending = drop n r.pending }, ok (take n r.pending))
    else (record r { pending = [] }, err (short_read r.pending r.ends))

-- What the peer has been sent, and how many bytes the connection still takes before it fails.
pub record Writer : Type 0 where
  pub sent : Bytes
  pub room : ℕ

-- `w.Write(p)`. A write that fails may have sent a part.
unfoldable pub write : Writer → Bytes → Writer × Result IoError (Unit {0})
write w p =
    if leb (length p) w.room
    then (record { sent = w.sent ++ p; room = w.room - length p }, ok tt)
    else (record { sent = w.sent ++ take w.room p; room = 0 }, err broken)

pub read_full_lem :
    (n : ℕ) (xs ys : Bytes) (e : IoError)
    → n ≡ length xs
    → read_full n (record { pending = xs ++ ys; ends = e })
      ≡ (record { pending = ys; ends = e }, ok xs)
unfolding read_full
read_full_lem n xs ys e h = rw (
  le→leb n (length (xs ++ ys)) (omega (arith, length-append xs ys)),
  take-length xs ys n h,
  drop-length xs ys n h,
)

pub read_full_at :
    (n : ℕ) (xs ys : Bytes) (r : Reader)
    → r.pending ≡ xs ++ ys
    → n ≡ length xs
    → read_full n r ≡ (record r { pending = ys }, ok xs)
read_full_at n xs ys r e h =
    ap (λ (p : Bytes). read_full n (record { pending = p; ends = r.ends })) e
    ∙ read_full_lem n xs ys r.ends h

-- What a full read took stood in front of what is left.
pub read_full-ok :
    (n : ℕ) (r r' : Reader) (xs : Bytes)
    → read_full n r ≡ (r', ok xs)
    → (r.pending ≡ xs ++ r'.pending) × (length xs ≡ n)
unfolding read_full
read_full-ok n r r' xs e = ground (arith, take-append-drop n r.pending, length-take n r.pending)

pub write_lem :
    (w : Writer) (p : Bytes)
    → length p ≤ w.room
    → write w p ≡ (record { sent = w.sent ++ p; room = w.room - length p }, ok tt)
unfolding write
write_lem w p h = rw (le→leb (length p) w.room h)

-- The errors that the inbound handler returns.
pub data Error : Type 0 where
  io : IoError → Error
  bad_key_length invalid_frame_length replay_detected open_failed frame_too_large : Error
  invalid_target_size invalid_delay invalid_padding_payload invalid_timing_payload : Error
  data_frame_too_short missing_destination unknown_frame_type : Error
  dispatch_failed upstream_failed : Error
  policy_too_large handshake_too_short handshake_malformed : Error
  timestamp_out_of_range user_not_found key_generation_failed session_key_failed grant_failed :
      Error
  fallback_not_configured dial_failed tcp_only : Error
