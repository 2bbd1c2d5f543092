-- ===== src/Inbound/Fallback.antt =====
-- Which connections reach a handshake, and what the fallback server gets of the others.
use reflex.Prelude.{
  ℕ, ◌≤◌, ◌<◌, ◌≡◌, refl, ap, ◌∙◌, Bool, true, false, some, [], ◌∷◌, ◌++◌, length, arith,
  length-append, le→leb,
}
use reflex.Prelude.Bytes.{Bytes, put_uint, uint_from}
use reflex.Prelude.Result.{Result, ok}
use reflex.Io.{Error, Reader, Writer, read_full_at, write, write_lem}
use reflex.Crypto.{Crypto, key_size}
use reflex.Handshake.{
  ClientHandshake, reflex_magic, peek_for_detection, is_reflex_magic, read_binary_handshake,
}
use reflex.Handshake.Encoding.{
  encode_client_handshake, encode_head, IsHandshake, parse_binary_handshake-encode,
}
use reflex.Handshake.Parsing.{read_binary_handshake-parse}
use reflex.Nonces.{NonceTable, validate_handshake_timestamp, check_and_store_nonce}
use reflex.Inbound.{
  Handler, MemoryUser, KeyExchange, Env, falls_back, session, Processed, handle_fallback, refuse,
  process_handshake, fallback_to, nonce_stage, pair_stage, shared_stage, key_stage, user_stage,
  grant_stage, answer, authenticate_user, user_policy, encrypt_policy_grant,
}
use reflex.Inbound.Detect.{
  network_tcp, process, peeked, from_tcp, handle_reflex_magic, after_magic, read_handshake,
  or_fallback,
}
use reflex.Inbound.Http.{HttpCodec, http_error, handshake_response}

-- The first bytes of a connection of the program's own.
unfoldable pub magic_bytes : Bytes
magic_bytes = put_uint 4 reflex_magic

-- A client's whole greeting, in the binary form.
unfoldable pub greeting : ClientHandshake → Bytes
greeting hs = magic_bytes ++ encode_client_handshake hs

module _ (c : Crypto) (http : HttpCodec) (kx : KeyExchange) where
  peek_magic :
      (r : Reader) (b : ℕ) (bs : Bytes)
      → r.pending ≡ magic_bytes ++ (b ∷ bs)
      → peek_for_detection 5 r ≡ ok (82 ∷ 70 ∷ 88 ∷ 76 ∷ b ∷ [])
  unfolding peek_for_detection magic_bytes put_uint
  peek_magic r b bs e = rw (e, le→leb 5 (length (magic_bytes ++ (b ∷ bs))) (omega arith)) refl

  process_first :
      (env : Env) (h : Handler) (r : Reader) (w : Writer) (b : ℕ) (bs : Bytes)
      → r.pending ≡ magic_bytes ++ (b ∷ bs)
      → process c http kx env h network_tcp r w ≡ handle_reflex_magic c http kx env h r w
  unfolding process from_tcp peeked is_reflex_magic uint_from
  process_first env h r w b bs e = rw (peek_magic r b bs e) refl

  process_rest :
      (env : Env) (h : Handler) (r : Reader) (w : Writer) (hs : ClientHandshake) (raw rest : Bytes)
      → 0 < length raw
      → r.pending ≡ magic_bytes ++ (raw ++ rest)
      → process c http kx env h network_tcp r w ≡ handle_reflex_magic c http kx env h r w
  process_rest env h r w hs [] rest size e = absurd (omega arith)
  process_rest env h r w hs (b ∷ bs) rest size e = process_first env h r w b (bs ++ rest) e

  magic_read :
      (env : Env) (h : Handler) (r : Reader) (w : Writer) (body : Bytes)
      → r.pending ≡ magic_bytes ++ body
      → handle_reflex_magic c http kx env h r w
        ≡ read_handshake c http kx env h w (read_binary_handshake (record r { pending = body }))
  unfolding handle_reflex_magic after_magic magic_bytes put_uint uint_from
  magic_read env h r w body e = rw (read_full_at 4 magic_bytes body r e refl) refl

  length-encode : (hs : ClientHandshake) → IsHandshake hs → 0 < length (encode_client_handshake hs)
  unfolding encode_client_handshake encode_head
  length-encode hs fits = omega (
    arith,
    length-append (encode_head hs) hs.policy_req,
    length-append hs.public_key _,
    fits.public_key,
  )

  -- A TCP connection that starts with a greeting takes that handshake, and leaves what follows it.
  pub process-greeting :
      (env : Env) (h : Handler) (r : Reader) (w : Writer) (hs : ClientHandshake) (rest : Bytes)
      → IsHandshake hs
      → r.pending ≡ magic_bytes ++ (encode_client_handshake hs ++ rest)
      → process c http kx env h network_tcp r w
        ≡ process_handshake c http kx env h (record r { pending = rest }) w hs
  unfolding read_handshake or_fallback
  process-greeting env h r w hs rest fits e =
      process_rest env h r w hs (encode_client_handshake hs) rest (length-encode hs fits) e
      ∙ magic_read env h r w (encode_client_handshake hs ++ rest) e
      ∙ ap (λ (x : Reader × Result Error ClientHandshake). read_handshake c http kx env h w x)
          (read_binary_handshake-parse (encode_client_handshake hs) rest hs
            (record r { pending = encode_client_handshake hs ++ rest })
            (parse_binary_handshake-encode hs fits) refl)

  -- A greeting whose timestamp lies outside the window sends an error page to the client and then
  -- hands the connection to the fallback server, if one is configured: what that server gets starts
  -- behind the greeting.
  pub process-stale :
      (env : Env) (h : Handler) (r : Reader) (w : Writer) (hs : ClientHandshake) (rest : Bytes)
      (dest : ℕ)
      → IsHandshake hs
      → r.pending ≡ magic_bytes ++ (encode_client_handshake hs ++ rest)
      → validate_handshake_timestamp env.validated_at hs.timestamp ≡ false
      → h.fallback ≡ some dest
      → 0 < dest
      → process c http kx env h network_tcp r w
        ≡ (h, ((write w (http_error http 403)).0, falls_back dest (record r { pending = rest })))
  unfolding process_handshake refuse handle_fallback fallback_to
  process-stale env h r w hs rest dest fits e late configured port =
      process-greeting env h r w hs rest fits e ∙ rw (late, configured) (ground arith)

  fresh_stage :
      (env : Env) (h : Handler) (r : Reader) (w : Writer) (hs : ClientHandshake)
      (stored : NonceTable × Bool)
      → stored.1 ≡ true
      → nonce_stage c http kx env h r w hs stored
        ≡ pair_stage c http kx env (record h { seen_nonces = stored.0 }) r w hs env.key_pair
  unfolding nonce_stage
  fresh_stage env h r w hs (table, false) fresh = cc
  fresh_stage env h r w hs (table, true) fresh = refl

  -- A greeting of a configured user starts a session under the agreed key, with what follows the
  -- greeting still to be read: its timestamp is in the window, its nonce fresh, the random sources
  -- and the key exchange give something, the key has its size, and the answer can be written.
  pub process-starts :
      (env : Env) (h : Handler) (r : Reader) (w : Writer) (hs : ClientHandshake)
      (rest private pub_key shared key nonce : Bytes) (user : MemoryUser)
      → IsHandshake hs
      → r.pending ≡ magic_bytes ++ (encode_client_handshake hs ++ rest)
      → validate_handshake_timestamp env.validated_at hs.timestamp ≡ true
      → (check_and_store_nonce h.nonce_lifetime env.checked_at hs.nonce h.seen_nonces).1 ≡ true
      → env.key_pair ≡ some (private, pub_key)
      → kx.ecdh private hs.public_key ≡ some shared
      → kx.hkdf shared hs.nonce ≡ some key
      → length key ≡ key_size
      → authenticate_user h.clients hs.user_id ≡ some user
      → env.grant_nonce ≡ some nonce
      → length (
          handshake_response http (record {
            public_key = pub_key;
            policy_grant = nonce ++ c.seal key nonce (user_policy (some user));
          }))
        ≤ w.room
      → (process c http kx env h network_tcp r w).1.1
        ≡ session key user (record r { pending = rest })
  unfolding process_handshake pair_stage shared_stage key_stage user_stage grant_stage answer
      encrypt_policy_grant
  process-starts env h r w hs rest private pub_key shared key nonce user fits e timely fresh pair
        agreed derived size known salt room =
      ap (λ (x : Processed). x.1.1) (process-greeting env h r w hs rest fits e)
      ∙ rw timely (
          ap (λ (x : Processed). x.1.1)
            (fresh_stage env h (record r { pending = rest }) w hs
              (check_and_store_nonce h.nonce_lifetime env.checked_at hs.nonce h.seen_nonces) fresh)
          ∙ rw (pair, agreed, derived, known, salt, size, write_lem w _ room) refl)
