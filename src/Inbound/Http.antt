-- ===== src/Inbound/Http.antt =====
-- The HTTP texts of handshake.go. Requests, JSON and base64 are Go's own packages, and parameters here.
use reflex.Prelude.{ℕ, zero, suc, ◌+◌, ◌/◌, ◌%◌, Option, [], ◌∷◌, ◌++◌, length, ltb, if◌then◌else◌}
use reflex.Prelude.Bytes.{Bytes, codes}
use reflex.Prelude.Result.{Result}
use reflex.Io.{Reader, IoError}
use reflex.Handshake.{ServerHandshake, marshal_server_handshake}

-- A request: its method, and its body or the error that reading it meets.
pub record HttpRequest : Type 0 where
  pub method : Bytes
  pub body : Result IoError Bytes

-- `http.ReadRequest`, `http.StatusText`, `json.Unmarshal` of the field `data`, and base64.
pub record HttpCodec : Type 0 where
  pub read_request : Reader → Reader × Option HttpRequest
  pub status_text : ℕ → Bytes
  pub envelope_data : Bytes → Option Bytes
  pub base64_decode : Bytes → Option Bytes
  pub base64_encode : Bytes → Bytes

-- `%d`, with fuel for the digits.
digits : ℕ → ℕ → Bytes
digits zero n = []
digits (suc fuel) n =
    let front = digits fuel (n / 10) in
    if ltb n 10 then (b'0' + n) ∷ [] else front ++ ((b'0' + n % 10) ∷ [])

unfoldable pub decimal : ℕ → Bytes
unfolding digits
decimal n = digits (suc n) n

abbrev crlf : Bytes
crlf = 13 ∷ 10 ∷ []

or_error : Bytes → Bytes
or_error [] = codes "Error"
or_error (b ∷ bs) = b ∷ bs

-- The bytes that `writeHTTPError` writes.
unfoldable pub http_error : HttpCodec → ℕ → Bytes
unfolding or_error decimal
http_error http status =
    let text = or_error (http.status_text status) in
    codes "HTTP/1.1 "
    ++ decimal status
    ++ codes " "
    ++ text
    ++ crlf
    ++ codes "Content-Type: text/plain"
    ++ crlf
    ++ codes "Content-Length: "
    ++ decimal (length text)
    ++ crlf
    ++ codes "Connection: close"
    ++ crlf
    ++ crlf
    ++ text

-- The JSON object of `handshakeHTTPEnvelope`; base64 needs no escapes in it.
unfoldable pub envelope : Bytes → Bytes
envelope encoded = codes "{" ++ (34 ∷ codes "data") ++ (34 ∷ 58 ∷ 34 ∷ encoded) ++ (34 ∷ codes "}")

-- The bytes that `writeHandshakeResponse` writes.
unfoldable pub handshake_response : HttpCodec → ServerHandshake → Bytes
unfolding decimal envelope
handshake_response http hs =
    let body = envelope (http.base64_encode (marshal_server_handshake hs)) in
    codes "HTTP/1.1 200 OK"
    ++ crlf
    ++ codes "Content-Type: application/json"
    ++ crlf
    ++ codes "Content-Length: "
    ++ decimal (length body)
    ++ crlf
    ++ codes "Connection: keep-alive"
    ++ crlf
    ++ crlf
    ++ body
