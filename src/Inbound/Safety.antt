-- ===== src/Inbound/Safety.antt =====
-- Who gets a session, and how often.
use reflex.Prelude.{
  ℕ, ◌≡◌, ◌≢◌, refl, ap, inl, inr, Bool, true, false, Option, none, some, arith, Bool-cases,
}
use reflex.Prelude.Bytes.{Bytes}
use reflex.Prelude.Result.{Result, ok, err}
use reflex.Io.{Reader, Writer, IoError}
use reflex.Crypto.{Crypto}
use reflex.Handshake.{ClientHandshake}
use reflex.Nonces.{NonceTable, validate_handshake_timestamp, check_and_store_nonce}
use reflex.Inbound.{
  Handler, MemoryUser, KeyExchange, Env, session, authenticate_user, process_handshake,
  handle_fallback, fallback_to, refuse, give_up, answer, grant_stage, user_stage, key_stage,
  shared_stage, pair_stage, nonce_stage,
}
use reflex.Inbound.Http.{HttpCodec}

-- What has been checked when a session starts.
pub record Admitted (c : Crypto) (http : HttpCodec) (kx : KeyExchange) (env : Env) (h : Handler)
    (hs : ClientHandshake) (key : Bytes) (user : MemoryUser) : Type 0 where
  pub timely : validate_handshake_timestamp env.validated_at hs.timestamp ≡ true
  pub fresh :
      (check_and_store_nonce h.nonce_lifetime env.checked_at hs.nonce h.seen_nonces).1 ≡ true
  pub known : authenticate_user h.clients hs.user_id ≡ some user
  pub agreed :
      (private : Bytes) × (pub_key : Bytes) × (shared : Bytes) × (env.key_pair
        ≡ some (private, pub_key))
      × (kx.ecdh private hs.public_key ≡ some shared)
      × (kx.hkdf shared hs.nonce ≡ some key)

module _ (c : Crypto) (http : HttpCodec) (kx : KeyExchange) where
  refuse_starts_none :
      (h : Handler) (r : Reader) (w : Writer) (port : Option ℕ) (key : Bytes) (user : MemoryUser)
      (r' : Reader)
      → fallback_to port r ≢ session key user r'
  unfolding fallback_to
  refuse_starts_none h r w none key user r' e = cc
  refuse_starts_none h r w (some dest) key user r' e = ground arith

  refuse_none :
      (h : Handler) (r : Reader) (w : Writer) (key : Bytes) (user : MemoryUser) (r' : Reader)
      → (refuse c http kx h r w).1.1 ≢ session key user r'
  unfolding refuse handle_fallback
  refuse_none h r w key user r' e = refuse_starts_none h r w h.fallback key user r' e

  answer_starts :
      (h : Handler) (r r' : Reader) (key key' : Bytes) (user user' : MemoryUser)
      (written : Writer × Result IoError (Unit {0}))
      → (answer c http kx h r key' user' written).1.1 ≡ session key user r'
      → (key' ≡ key) × (user' ≡ user)
  unfolding answer
  answer_starts h r r' key key' user user' (w, err x) e = cc
  answer_starts h r r' key key' user user' (w, ok u) e = (cc, cc)

  grant_starts :
      (h : Handler) (r r' : Reader) (w : Writer) (pub_key key key' : Bytes)
      (user user' : MemoryUser) (grant : Option Bytes)
      → (grant_stage c http kx h r w pub_key key' user' grant).1.1 ≡ session key user r'
      → (key' ≡ key) × (user' ≡ user)
  unfolding grant_stage give_up
  grant_starts h r r' w pub_key key key' user user' none e = cc
  grant_starts h r r' w pub_key key key' user user' (some grant) e =
      answer_starts h r r' key key' user user' _ e

  user_starts :
      (env : Env) (h : Handler) (r r' : Reader) (w : Writer) (pub_key key key' : Bytes)
      (user : MemoryUser) (found : Option MemoryUser)
      → (user_stage c http kx env h r w pub_key key' found).1.1 ≡ session key user r'
      → (key' ≡ key) × (found ≡ some user)
  unfolding user_stage
  user_starts env h r r' w pub_key key key' user none e = absurd (refuse_none h r w key user r' e)
  user_starts env h r r' w pub_key key key' user (some found) e =
      let (same_key, same_user) = grant_starts h r r' w pub_key key key' user found _ e in
      (same_key, ap (λ (u : MemoryUser). some u) same_user)

  key_starts :
      (env : Env) (h : Handler) (r r' : Reader) (w : Writer) (hs : ClientHandshake)
      (pub_key key : Bytes) (user : MemoryUser) (derived : Option Bytes)
      → (key_stage c http kx env h r w hs pub_key derived).1.1 ≡ session key user r'
      → (derived ≡ some key) × (authenticate_user h.clients hs.user_id ≡ some user)
  unfolding key_stage give_up
  key_starts env h r r' w hs pub_key key user none e = cc
  key_starts env h r r' w hs pub_key key user (some derived) e =
      let (same_key, found) = user_starts env h r r' w pub_key key derived user _ e in
      (ap (λ (k : Bytes). some k) same_key, found)

  shared_starts :
      (env : Env) (h : Handler) (r r' : Reader) (w : Writer) (hs : ClientHandshake)
      (pub_key key : Bytes) (user : MemoryUser) (secret : Option Bytes)
      → (shared_stage c http kx env h r w hs pub_key secret).1.1 ≡ session key user r'
      → (shared : Bytes) × (secret ≡ some shared)
        × (kx.hkdf shared hs.nonce ≡ some key)
        × (authenticate_user h.clients hs.user_id ≡ some user)
  unfolding shared_stage
  shared_starts env h r r' w hs pub_key key user none e = absurd (refuse_none h r w key user r' e)
  shared_starts env h r r' w hs pub_key key user (some shared) e =
      let (derived, found) = key_starts env h r r' w hs pub_key key user _ e in
      (shared, refl, derived, found)

  -- What the stages behind the guards establish.
  abbrev Agreed :
      Env → Handler → ClientHandshake → Option (Bytes × Bytes) → Bytes → MemoryUser → Type 0
  Agreed env h hs pair key user =
      (private : Bytes) × (pub_key : Bytes) × (shared : Bytes) × (pair ≡ some (private, pub_key))
      × (kx.ecdh private hs.public_key ≡ some shared)
      × (kx.hkdf shared hs.nonce ≡ some key)
      × (authenticate_user h.clients hs.user_id ≡ some user)

  pair_starts :
      (env : Env) (h : Handler) (r r' : Reader) (w : Writer) (hs : ClientHandshake) (key : Bytes)
      (user : MemoryUser) (pair : Option (Bytes × Bytes))
      → (pair_stage c http kx env h r w hs pair).1.1 ≡ session key user r'
      → Agreed env h hs pair key user
  unfolding pair_stage give_up
  pair_starts env h r r' w hs key user none e = cc
  pair_starts env h r r' w hs key user (some (private, pub_key)) e =
      let (shared, agreed, derived, found) = shared_starts env h r r' w hs pub_key key user _ e in
      (private, pub_key, shared, refl, agreed, derived, found)

  nonce_starts :
      (env : Env) (h : Handler) (r r' : Reader) (w : Writer) (hs : ClientHandshake) (key : Bytes)
      (user : MemoryUser) (table : NonceTable) (fresh : Bool)
      → (nonce_stage c http kx env h r w hs (table, fresh)).1.1 ≡ session key user r'
      → (fresh ≡ true) × Agreed env h hs env.key_pair key user
  unfolding nonce_stage
  nonce_starts env h r r' w hs key user table false e = absurd (refuse_none _ r w key user r' e)
  nonce_starts env h r r' w hs key user table true e =
      (refl, pair_starts env (record h { seen_nonces = table }) r r' w hs key user env.key_pair e)

  -- A session starts only behind all checks: a timestamp in the window, a nonce that was not in the
  -- table, a configured user, and a key that was agreed on with this client.
  pub process_handshake-Admitted :
      (env : Env) (h : Handler) (r r' : Reader) (w : Writer) (hs : ClientHandshake) (key : Bytes)
      (user : MemoryUser)
      → (process_handshake c http kx env h r w hs).1.1 ≡ session key user r'
      → Admitted c http kx env h hs key user
  unfolding process_handshake
  process_handshake-Admitted env h r r' w hs key user e =
      elim (Bool-cases (validate_handshake_timestamp env.validated_at hs.timestamp)) [
        | inl timely ↦
            let (fresh, agreement) =
              nonce_starts env h r r' w hs key user (guard env h hs).0 (guard env h hs).1
                (rw timely at e) in
            let (private, pub_key, shared, pair, agreed, derived, found) = agreement in
            record {
              timely = timely;
              fresh = fresh;
              known = found;
              agreed = (private, pub_key, shared, pair, agreed, derived);
            }
        | inr late ↦ absurd (refuse_none h r w key user r' (rw late at e))
      ]
    where
      guard : Env → Handler → ClientHandshake → NonceTable × Bool
      guard env h hs = check_and_store_nonce h.nonce_lifetime env.checked_at hs.nonce h.seen_nonces
