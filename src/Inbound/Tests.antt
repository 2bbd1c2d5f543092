-- ===== src/Inbound/Tests.antt =====
-- A handler, a client and their handshakes at concrete inputs.
use reflex.Prelude.{ℕ, ◌*◌, ◌≡◌, ◌≢◌, refl, none, some, [], ◌∷◌, ◌++◌, replicate, arith}
use reflex.Prelude.Bytes.{Bytes, codes, bytes_eq, put_uint}
use reflex.Prelude.Int.{pos}
use reflex.Io.{Reader, Writer, eof, write}
use reflex.Crypto.Sample.{sample}
use reflex.Uuid.{uuid_string, parse_bytes}
use reflex.Handshake.{ClientHandshake}
use reflex.Handshake.Encoding.{encode_client_handshake, IsHandshake}
use reflex.Nonces.{
  second, validate_handshake_timestamp, check_and_store_nonce, seen_at, cleanup_expired_nonces,
}
use reflex.Inbound.{
  memory_account, MemoryUser, InboundConfig, Handler, new_handler, authenticate_user, user_policy,
  KeyExchange, Env, falls_back, session, encrypt_policy_grant, process_handshake,
}
use reflex.Inbound.Http.{HttpCodec, http_error, handshake_response, envelope, decimal}
use reflex.Inbound.Detect.{network_tcp, process}
use reflex.Inbound.Safety.{Admitted, process_handshake-Admitted}
use reflex.Inbound.Replays.{Attempt, after_attempts, process_handshake-once}
use reflex.Inbound.Fallback.{magic_bytes, process-stale, process-starts}
use reflex.Inbound.Users.{authenticate_user-configured}

abbrev uid : Bytes
uid = replicate 16 1

abbrev zoom_policy : Bytes
zoom_policy = codes "zoom"

abbrev config : InboundConfig
config = record {
  clients = (codes "other", []) ∷ (uuid_string uid, zoom_policy) ∷ [];
  fallback = some 8080;
}

abbrev user : MemoryUser
user = record { email = uuid_string uid; account = memory_account (uuid_string uid) zoom_policy }

abbrev handler : Handler
handler = new_handler config

-- Every request and every body is refused.
abbrev http : HttpCodec
http = record {
  read_request = λ r. (r, none);
  status_text = λ status. codes "Forbidden";
  envelope_data = λ body. none;
  base64_decode = λ encoded. none;
  base64_encode = λ raw. codes "AAAA";
}

abbrev exchange : KeyExchange
exchange = record {
  ecdh = λ private public. some (replicate 32 3);
  hkdf = λ shared salt. some (replicate 32 4);
}

abbrev handshake : ClientHandshake
handshake = record {
  public_key = replicate 32 9;
  user_id = uid;
  policy_req = zoom_policy;
  timestamp = pos 1700000000;
  nonce = replicate 16 5;
}

handshake-IsHandshake : IsHandshake handshake
handshake-IsHandshake = record {
  public_key = refl;
  user_id = refl;
  nonce = refl;
  timestamp = omega arith;
  policy_req = omega arith;
}

abbrev env_at : ℕ → Env
env_at now = record {
  validated_at = now * second;
  checked_at = now * second;
  key_pair = some (replicate 32 1, replicate 32 2);
  grant_nonce = some (replicate 12 6);
}

abbrev arriving : Bytes → Reader
arriving p = record { pending = p; ends = eof }

abbrev client : Writer
client = record { sent = []; room = 1000 }

user_known : authenticate_user handler.clients uid ≡ some user
unfolding authenticate_user new_handler parse_bytes bytes_eq uuid_string
user_known = refl

user_found : authenticate_user handler.clients uid ≡ some user
user_found =
    authenticate_user-configured config uid zoom_policy ((codes "other", []) ∷ []) [] refl refl
      (unfold uuid_string in ((λ e. cc), tt))

abbrev greeting : Bytes
greeting = (82 ∷ 70 ∷ 88 ∷ 76 ∷ []) ++ encode_client_handshake handshake ++ codes "rest"

process-stale_example :
    process sample http exchange (env_at 1700000301) handler network_tcp (arriving greeting) client
    ≡ (handler, ((write client (http_error http 403)).0, falls_back 8080 (arriving (codes "rest"))))
process-stale_example =
    process-stale sample http exchange (env_at 1700000301) handler (arriving greeting) client
      handshake (codes "rest") 8080 handshake-IsHandshake (unfold magic_bytes put_uint in refl)
      (unfold validate_handshake_timestamp in refl) (unfold new_handler in refl) (omega arith)

process-starts_example :
    (process sample http exchange
      (env_at 1700000300)
      handler
      network_tcp
      (arriving greeting)
      client).1.1
    ≡ session (replicate 32 4) user (arriving (codes "rest"))
process-starts_example =
    process-starts sample http exchange (env_at 1700000300) handler (arriving greeting) client
      handshake (codes "rest") (replicate 32 1) (replicate 32 2) (replicate 32 3) (replicate 32 4)
      (replicate 12 6) user handshake-IsHandshake (unfold magic_bytes put_uint in refl)
      (unfold validate_handshake_timestamp in refl)
      (unfold check_and_store_nonce new_handler seen_at cleanup_expired_nonces in refl) refl refl
      refl refl user_known refl
      (unfold handshake_response envelope decimal user_policy in omega arith)

session_started :
    (process_handshake sample http exchange
      (env_at 1700000000)
      handler
      (arriving [])
      client
      handshake).1.1
    ≡ session (replicate 32 4) user (arriving [])
unfolding process_handshake validate_handshake_timestamp check_and_store_nonce seen_at
    cleanup_expired_nonces new_handler encrypt_policy_grant write handshake_response envelope
    decimal authenticate_user parse_bytes bytes_eq uuid_string user_policy
session_started = refl

process_handshake-Admitted_example :
    Admitted sample http exchange (env_at 1700000000) handler handshake (replicate 32 4) user
process_handshake-Admitted_example =
    process_handshake-Admitted sample http exchange (env_at 1700000000) handler (arriving [])
      (arriving []) client handshake (replicate 32 4) user session_started

abbrev attempt_at : ℕ → Attempt
attempt_at now = record {
  env = env_at now;
  reader = arriving [];
  writer = client;
  handshake = handshake;
}

process_handshake-once_example :
    (process_handshake sample http exchange
      (env_at 1700000200)
      (after_attempts sample http exchange
        (process_handshake sample http exchange
          (env_at 1700000000)
          handler
          (arriving [])
          client
          handshake).0
        (attempt_at 1700000100 ∷ []))
      (arriving [])
      client
      handshake).1.1
    ≢ session (replicate 32 4) user (arriving [])
process_handshake-once_example =
    process_handshake-once sample http exchange handler (attempt_at 1700000000)
      (attempt_at 1700000200) (attempt_at 1700000100 ∷ []) (arriving []) (arriving [])
      (replicate 32 4) (replicate 32 4) user user (unfold new_handler in refl) refl refl
      (omega arith) (omega arith) (omega arith) session_started
