-- ===== src/Inbound/Effects.antt =====
-- What a handshake leaves in the handler: only the table of nonces changes.
use reflex.Prelude.{◌≡◌, refl, ◌⊎◌, inl, inr, Bool, true, false, Option, none, some, Bool-cases}
use reflex.Prelude.Bytes.{Bytes}
use reflex.Prelude.Result.{Result, ok, err}
use reflex.Io.{Reader, Writer, IoError}
use reflex.Crypto.{Crypto}
use reflex.Handshake.{ClientHandshake}
use reflex.Nonces.{NonceTable, check_and_store_nonce, validate_handshake_timestamp}
use reflex.Inbound.{
  Handler, MemoryUser, KeyExchange, Env, process_handshake, refuse, give_up, answer, grant_stage,
  user_stage, key_stage, shared_stage, pair_stage, nonce_stage,
}
use reflex.Inbound.Http.{HttpCodec}

module _ (c : Crypto) (http : HttpCodec) (kx : KeyExchange) where
  answer-handler :
      (h : Handler) (r : Reader) (key : Bytes) (user : MemoryUser)
      (written : Writer × Result IoError (Unit {0}))
      → (answer c http kx h r key user written).0 ≡ h
  unfolding answer
  answer-handler h r key user (w, err e) = refl
  answer-handler h r key user (w, ok u) = refl

  grant-handler :
      (h : Handler) (r : Reader) (w : Writer) (pub_key key : Bytes) (user : MemoryUser)
      (grant : Option Bytes)
      → (grant_stage c http kx h r w pub_key key user grant).0 ≡ h
  unfolding grant_stage give_up
  grant-handler h r w pub_key key user none = refl
  grant-handler h r w pub_key key user (some grant) = answer-handler h r key user _

  user-handler :
      (env : Env) (h : Handler) (r : Reader) (w : Writer) (pub_key key : Bytes)
      (user : Option MemoryUser)
      → (user_stage c http kx env h r w pub_key key user).0 ≡ h
  unfolding user_stage refuse
  user-handler env h r w pub_key key none = refl
  user-handler env h r w pub_key key (some user) = grant-handler h r w pub_key key user _

  key-handler :
      (env : Env) (h : Handler) (r : Reader) (w : Writer) (hs : ClientHandshake) (pub_key : Bytes)
      (key : Option Bytes)
      → (key_stage c http kx env h r w hs pub_key key).0 ≡ h
  unfolding key_stage give_up
  key-handler env h r w hs pub_key none = refl
  key-handler env h r w hs pub_key (some key) = user-handler env h r w pub_key key _

  shared-handler :
      (env : Env) (h : Handler) (r : Reader) (w : Writer) (hs : ClientHandshake) (pub_key : Bytes)
      (shared : Option Bytes)
      → (shared_stage c http kx env h r w hs pub_key shared).0 ≡ h
  unfolding shared_stage refuse
  shared-handler env h r w hs pub_key none = refl
  shared-handler env h r w hs pub_key (some shared) = key-handler env h r w hs pub_key _

  pair-handler :
      (env : Env) (h : Handler) (r : Reader) (w : Writer) (hs : ClientHandshake)
      (pair : Option (Bytes × Bytes))
      → (pair_stage c http kx env h r w hs pair).0 ≡ h
  unfolding pair_stage give_up
  pair-handler env h r w hs none = refl
  pair-handler env h r w hs (some (private, pub_key)) = shared-handler env h r w hs pub_key _

  nonce-handler :
      (env : Env) (h : Handler) (r : Reader) (w : Writer) (hs : ClientHandshake)
      (table : NonceTable) (fresh : Bool)
      → (nonce_stage c http kx env h r w hs (table, fresh)).0 ≡ record h { seen_nonces = table }
  unfolding nonce_stage refuse
  nonce-handler env h r w hs table false = refl
  nonce-handler env h r w hs table true =
      pair-handler env (record h { seen_nonces = table }) r w hs env.key_pair

  abbrev pub checked : Env → Handler → ClientHandshake → NonceTable × Bool
  checked env h hs = check_and_store_nonce h.nonce_lifetime env.checked_at hs.nonce h.seen_nonces

  -- A handshake changes the handler by its nonce check, or not at all.
  pub process_handshake-handler :
      (env : Env) (h : Handler) (r : Reader) (w : Writer) (hs : ClientHandshake)
      → ((process_handshake c http kx env h r w hs).0 ≡ h)
        ⊎ ((process_handshake c http kx env h r w hs).0
            ≡ record h { seen_nonces = (checked env h hs).0 })
  unfolding process_handshake refuse
  process_handshake-handler env h r w hs =
      elim (Bool-cases (validate_handshake_timestamp env.validated_at hs.timestamp)) [
        | inl timely ↦ inr (rw timely (nonce-handler env h r w hs _ _))
        | inr late ↦ inl (rw late)
      ]

  pub process_handshake-nonces :
      (env : Env) (h : Handler) (r : Reader) (w : Writer) (hs : ClientHandshake)
      → validate_handshake_timestamp env.validated_at hs.timestamp ≡ true
      → (process_handshake c http kx env h r w hs).0
        ≡ record h { seen_nonces = (checked env h hs).0 }
  unfolding process_handshake
  process_handshake-nonces env h r w hs timely = rw timely (nonce-handler env h r w hs _ _)
