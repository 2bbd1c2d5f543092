-- ===== src/Handshake/Tests.antt =====
-- A handshake on the wire.
use reflex.Prelude.{◌≡◌, refl, [], ◌∷◌, ◌++◌, arith, replicate}
use reflex.Prelude.Bytes.{Bytes, codes, uint_from}
use reflex.Prelude.Int.{pos}
use reflex.Prelude.Result.{ok, err}
use reflex.Io.{Reader, eof, read_full, handshake_too_short}
use reflex.Handshake.{ClientHandshake, read_binary_handshake, parse_binary_handshake}
use reflex.Handshake.Parsing.{read_binary_handshake-parse}
use reflex.Handshake.Encoding.{
  encode_client_handshake, IsHandshake, encode-parse_binary_handshake,
  parse_binary_handshake-encode,
}

abbrev handshake : ClientHandshake
handshake = record {
  public_key = replicate 32 9;
  user_id = replicate 16 1;
  policy_req = codes "zoom";
  timestamp = pos 1700000000;
  nonce = replicate 16 5;
}

abbrev raw : Bytes
raw =
    replicate 32 9
    ++ replicate 16 1
    ++ (0 ∷ 0 ∷ 0 ∷ 0 ∷ 101 ∷ 83 ∷ 241 ∷ 0 ∷ [])
    ++ replicate 16 5
    ++ (0 ∷ 4 ∷ codes "zoom")

abbrev arriving : Bytes → Reader
arriving p = record { pending = p; ends = eof }

parsed : parse_binary_handshake raw ≡ ok handshake
unfolding parse_binary_handshake uint_from
parsed = refl

truncated : parse_binary_handshake (replicate 73 1) ≡ err handshake_too_short
unfolding parse_binary_handshake
truncated = refl

handshake-IsHandshake : IsHandshake handshake
handshake-IsHandshake = record {
  public_key = refl;
  user_id = refl;
  nonce = refl;
  timestamp = omega arith;
  policy_req = omega arith;
}

parse_binary_handshake-encode_example :
    parse_binary_handshake (encode_client_handshake handshake) ≡ ok handshake
parse_binary_handshake-encode_example =
    parse_binary_handshake-encode handshake handshake-IsHandshake

encode-parse_binary_handshake_example : encode_client_handshake handshake ≡ raw
encode-parse_binary_handshake_example =
    encode-parse_binary_handshake raw handshake (omega arith) parsed

read_binary_handshake-parse_example :
    read_binary_handshake (arriving (raw ++ codes "rest")) ≡ (arriving (codes "rest"), ok handshake)
read_binary_handshake-parse_example =
    read_binary_handshake-parse raw (codes "rest") handshake (arriving (raw ++ codes "rest")) parsed
      refl

stream_read :
    read_binary_handshake (arriving (raw ++ codes "rest")) ≡ (arriving (codes "rest"), ok handshake)
unfolding read_binary_handshake read_full uint_from
stream_read = refl
