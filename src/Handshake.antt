-- ===== src/Handshake.antt =====
-- proxy/reflex/inbound/handshake.go, the wire format: detection, the client's handshake in its two
-- readings, and the server's answer.
pub mod Parsing
pub mod Encoding
mod Tests
use reflex.Prelude.{
  ℕ, suc, ◌+◌, ◌-◌, ◌*◌, ◌/◌, ◌%◌, ◌^◌, Bool, true, false, ◌&&◌, ◌||◌, Option, none, some, List, [],
  ◌∷◌, ◌++◌, length, take, drop, ltb, leb, ◌==◌, if◌then◌else◌,
}
use reflex.Prelude.Bytes.{Bytes, bytes_eq, codes, uint, put_uint}
use reflex.Prelude.Int.{ℤ, pos, negsuc, signed64}
use reflex.Prelude.Result.{Result, ok, err}
use reflex.Io.{
  IoError, eof, unexpected_eof, broken, Reader, read_full, Error, io, policy_too_large,
  handshake_too_short, handshake_malformed,
}

abbrev pub reflex_magic : ℕ
reflex_magic = 0x5246584C

abbrev pub max_policy_payload_size : ℕ
max_policy_payload_size = 4096

pub record ClientHandshake : Type 0 where
  pub public_key : Bytes
  pub user_id : Bytes
  pub policy_req : Bytes
  pub timestamp : ℤ
  pub nonce : Bytes

pub record ServerHandshake : Type 0 where
  pub public_key : Bytes
  pub policy_grant : Bytes

-- `data[i : i+n]`.
abbrev pub slice : ℕ → ℕ → Bytes → Bytes
slice i n xs = take n (drop i xs)

short_peek : IoError → Bytes → Result IoError Bytes
short_peek eof [] = err eof
short_peek eof (b ∷ bs) = ok (b ∷ bs)
short_peek unexpected_eof bs = err unexpected_eof
short_peek broken bs = err broken

-- `reader.Peek(n)` on a buffer that holds `n` bytes: the bytes, or those that came before the end.
unfoldable pub peek_for_detection : ℕ → Reader → Result IoError Bytes
unfolding short_peek
peek_for_detection n r =
    if leb n (length r.pending) then ok (take n r.pending) else short_peek r.ends r.pending

unfoldable pub is_reflex_magic : Bytes → Bool
is_reflex_magic bytes = leb 4 (length bytes) && uint (take 4 bytes) == reflex_magic

unfoldable pub is_http_post_like : Bytes → Bool
is_http_post_like bytes = leb 5 (length bytes) && bytes_eq (take 5 bytes) (codes "POST ")

unfoldable pub is_reflex_handshake : Bytes → Bool
unfolding is_reflex_magic is_http_post_like
is_reflex_handshake bytes = is_reflex_magic bytes || is_http_post_like bytes

abbrev pub head_size : ℕ
head_size = 74

-- The fields of the fixed part, and the policy request behind it.
abbrev pub handshake_fields : Bytes → Bytes → ClientHandshake
handshake_fields head policy = record {
  public_key = slice 0 32 head;
  user_id = slice 32 16 head;
  policy_req = policy;
  timestamp = signed64 (uint (slice 48 8 head));
  nonce = slice 56 16 head;
}

read_policy : Bytes → Reader × Result IoError Bytes → Reader × Result Error ClientHandshake
read_policy head (r, err e) = (r, err (io e))
read_policy head (r, ok policy) = (r, ok (handshake_fields head policy))

read_head : Reader × Result IoError Bytes → Reader × Result Error ClientHandshake
unfolding read_policy
read_head (r, err e) = (r, err (io e))
read_head (r, ok head) =
    let policy_len = uint (slice 72 2 head) in
    if ltb max_policy_payload_size policy_len
    then (r, err policy_too_large)
    else if ltb 0 policy_len
    then read_policy head (read_full policy_len r)
    else (r, ok (handshake_fields head []))

unfoldable pub read_binary_handshake : Reader → Reader × Result Error ClientHandshake
unfolding read_head
read_binary_handshake r = read_head (read_full head_size r)

unfoldable pub parse_binary_handshake : Bytes → Result Error ClientHandshake
parse_binary_handshake raw =
    let policy_len = uint (slice 72 2 raw) in
    if ltb (length raw) head_size
    then err handshake_too_short
    else if ltb max_policy_payload_size policy_len
    then err policy_too_large
    else if length raw == head_size + policy_len
    then ok (handshake_fields raw (if ltb 0 policy_len then drop head_size raw else []))
    else err handshake_malformed

-- The length of the grant is cut to sixteen bits.
unfoldable pub marshal_server_handshake : ServerHandshake → Bytes
marshal_server_handshake hs =
    take 32 hs.public_key ++ (put_uint 2 (length hs.policy_grant) ++ hs.policy_grant)
