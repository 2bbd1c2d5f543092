-- ===== src/Inbound/Detect.antt =====
-- `Process` of inbound.go, and the two ways into a handshake of handshake.go.
use reflex.Prelude.{Option, none, some, [], ◌∷◌, length, take, drop, leb, ◌&&◌, ◌==◌, if◌then◌else◌}
use reflex.Prelude.Bytes.{Bytes, bytes_eq, uint, codes}
use reflex.Prelude.Result.{Result, ok, err}
use reflex.Io.{IoError, eof, unexpected_eof, broken, Reader, Writer, read_full, Error, io, tcp_only}
use reflex.Crypto.{Crypto}
use reflex.Handshake.{
  ClientHandshake, peek_for_detection, is_reflex_magic, is_http_post_like, reflex_magic,
  max_policy_payload_size, read_binary_handshake, parse_binary_handshake,
}
use reflex.Inbound.{
  Handler, KeyExchange, Env, returns, Processed, handle_fallback, process_handshake,
}
use reflex.Inbound.Http.{HttpCodec, HttpRequest}

-- A payload from an HTTP body may still have the magic in front.
unfoldable pub strip_magic : Bytes → Bytes
strip_magic raw =
    if leb 4 (length raw) && uint (take 4 raw) == reflex_magic then drop 4 raw else raw

-- `http.MethodPost`.
abbrev method_post : Bytes
method_post = codes "POST"

-- The networks that a connection may come from.
pub data Network : Type 0 where
  network_tcp network_udp network_unix network_unknown : Network

module _ (c : Crypto) (http : HttpCodec) (kx : KeyExchange) where
  -- Any failure leads to the fallback with what the reader has left.
  unfoldable pub or_fallback :
      Env → Handler → Reader → Writer → Result Error ClientHandshake → Processed
  or_fallback env h r w (err e) = (h, (w, handle_fallback h r))
  or_fallback env h r w (ok hs) = process_handshake c http kx env h r w hs

  unfoldable pub read_handshake :
      Env → Handler → Writer → Reader × Result Error ClientHandshake → Processed
  read_handshake env h w (r, result) = or_fallback env h r w result

  unfoldable pub after_magic : Env → Handler → Writer → Reader × Result IoError Bytes → Processed
  unfolding read_handshake or_fallback
  after_magic env h w (r, err e) = (h, (w, returns (err (io e))))
  after_magic env h w (r, ok magic) =
      if uint magic == reflex_magic
      then read_handshake env h w (read_binary_handshake r)
      else (h, (w, handle_fallback h r))

  unfoldable pub handle_reflex_magic : Env → Handler → Reader → Writer → Processed
  unfolding after_magic
  handle_reflex_magic env h r w = after_magic env h w (read_full 4 r)

  decoded : Env → Handler → Reader → Writer → Option Bytes → Processed
  unfolding or_fallback
  decoded env h r w none = (h, (w, handle_fallback h r))
  decoded env h r w (some raw) = or_fallback env h r w (parse_binary_handshake (strip_magic raw))

  enveloped : Env → Handler → Reader → Writer → Option Bytes → Processed
  unfolding decoded
  enveloped env h r w none = (h, (w, handle_fallback h r))
  enveloped env h r w (some encoded) = decoded env h r w (http.base64_decode encoded)

  -- Of the body, the first 4096 bytes are read. An error of the body behind them, and what of it then
  -- stays unread on the connection, are left out.
  with_body : Env → Handler → Reader → Writer → Result IoError Bytes → Processed
  unfolding enveloped
  with_body env h r w (err e) = (h, (w, handle_fallback h r))
  with_body env h r w (ok body) =
      enveloped env h r w (http.envelope_data (take max_policy_payload_size body))

  with_request : Env → Handler → Writer → Reader × Option HttpRequest → Processed
  unfolding with_body
  with_request env h w (r, none) = (h, (w, handle_fallback h r))
  with_request env h w (r, some request) =
      if bytes_eq request.method method_post
      then with_body env h r w request.body
      else (h, (w, handle_fallback h r))

  unfoldable pub handle_reflex_http : Env → Handler → Reader → Writer → Processed
  unfolding with_request
  handle_reflex_http env h r w = with_request env h w (http.read_request r)

  unfoldable pub peeked : Env → Handler → Reader → Writer → Result IoError Bytes → Processed
  peeked env h r w (err eof) = (h, (w, returns (ok tt)))
  peeked env h r w (err unexpected_eof) = (h, (w, returns (err (io unexpected_eof))))
  peeked env h r w (err broken) = (h, (w, returns (err (io broken))))
  peeked env h r w (ok []) = (h, (w, returns (ok tt)))
  peeked env h r w (ok (b ∷ bs)) =
      if is_reflex_magic (b ∷ bs)
      then handle_reflex_magic env h r w
      else if is_http_post_like (b ∷ bs)
      then handle_reflex_http env h r w
      else (h, (w, handle_fallback h r))

  unfoldable pub from_tcp : Network → Processed → Processed → Processed
  from_tcp network_tcp p q = p
  from_tcp network_udp p q = q
  from_tcp network_unix p q = q
  from_tcp network_unknown p q = q

  unfoldable pub process : Env → Handler → Network → Reader → Writer → Processed
  unfolding peeked from_tcp
  process env h network r w =
      from_tcp network (peeked env h r w (peek_for_detection 5 r)) (h, (w, returns (err tcp_only)))
