-- ===== src/Inbound.antt =====
-- proxy/reflex/inbound/inbound.go and handshake.go, the handler: users, detection, the handshake, and
-- the hand-over to a session or to the fallback server.
pub mod Http
pub mod Detect
pub mod Safety
pub mod Effects
pub mod Replays
pub mod Fallback
pub mod Users
mod Tests
use reflex.Prelude.{
  ℕ, suc, ◌+◌, ◌/◌, Bool, true, false, Option, none, some, List, [], ◌∷◌, ◌++◌, length, take, drop,
  leb, ◌&&◌, ◌==◌, if◌then◌else◌,
}
use reflex.Prelude.Bytes.{Bytes, bytes_eq, uint, codes}
use reflex.Prelude.Result.{Result, ok, err}
use reflex.Io.{
  IoError, eof, unexpected_eof, broken, Reader, Writer, read_full, write, Error, io,
  key_generation_failed, session_key_failed, grant_failed, fallback_not_configured, tcp_only,
}
use reflex.Crypto.{Crypto, key_size, nonce_size}
use reflex.Uuid.{UuidError, parse_bytes, uuid_string}
use reflex.Handshake.{
  ClientHandshake, ServerHandshake, peek_for_detection, is_reflex_magic, is_http_post_like,
  reflex_magic, max_policy_payload_size, read_binary_handshake, parse_binary_handshake,
}
use reflex.Nonces.{
  NonceTable, validate_handshake_timestamp, check_and_store_nonce, default_nonce_lifetime,
}
use Http.{HttpCodec, http_error, handshake_response, HttpRequest}

-- `protocol.Account`: the handler's own kind, or another.
pub data Account : Type 0 where
  memory_account : Bytes → Bytes → Account
  other_account : Account

pub record MemoryUser : Type 0 where
  pub email : Bytes
  pub account : Account

-- `(*MemoryAccount).Equals`: the id counts, the policy does not.
unfoldable pub account_equals : Account → Account → Bool
account_equals (memory_account id policy) (memory_account id' policy') = bytes_eq id id'
account_equals (memory_account id policy) other_account = false
account_equals other_account other = false

-- `reflex.InboundConfig`: the clients' ids and policies, and the fallback's port.
pub record InboundConfig : Type 0 where
  pub clients : List (Bytes × Bytes)
  pub fallback : Option ℕ

pub record Handler : Type 0 where
  pub clients : List MemoryUser
  pub fallback : Option ℕ
  pub seen_nonces : NonceTable
  pub nonce_lifetime : ℕ

users : List (Bytes × Bytes) → List MemoryUser
users [] = []
users ((id, policy) ∷ rest) = record { email = id; account = memory_account id policy } ∷ users rest

-- `New`.
unfoldable pub new_handler : InboundConfig → Handler
unfolding users
new_handler config = record {
  clients = users config.clients;
  fallback = config.fallback;
  seen_nonces = [];
  nonce_lifetime = default_nonce_lifetime;
}

has_id : Bytes → Account → Bool
has_id uid (memory_account id policy) = bytes_eq id uid
has_id uid other_account = false

find_user : Bytes → List MemoryUser → Option MemoryUser
find_user uid [] = none
find_user uid (user ∷ rest) = if has_id uid user.account then some user else find_user uid rest

find_parsed : Result UuidError Bytes → List MemoryUser → Option MemoryUser
find_parsed (err e) clients = none
find_parsed (ok uid) clients = find_user (uuid_string uid) clients

unfoldable pub authenticate_user : List MemoryUser → Bytes → Option MemoryUser
unfolding find_parsed find_user has_id
authenticate_user clients user_id = find_parsed (parse_bytes user_id) clients

account_policy : Account → Bytes
account_policy (memory_account id policy) = policy
account_policy other_account = []

unfoldable pub user_policy : Option MemoryUser → Bytes
unfolding account_policy
user_policy none = []
user_policy (some user) = account_policy user.account

-- X25519 and HKDF-SHA256, which fail on bad keys and on reading too much.
pub record KeyExchange : Type 0 where
  pub ecdh : Bytes → Bytes → Option Bytes
  pub hkdf : Bytes → Bytes → Option Bytes

-- What a handshake takes from outside: two clock readings, a key pair (private, public), and the
-- nonce of the policy grant. A source of randomness that fails gives `none`.
pub record Env : Type 0 where
  pub validated_at : ℕ
  pub checked_at : ℕ
  pub key_pair : Option (Bytes × Bytes)
  pub grant_nonce : Option Bytes

-- How the handler leaves a connection: with an error or none, with the fallback server at a port of
-- this machine and what is left to read, or with a session under a key.
pub data Next : Type 0 where
  returns : Result Error (Unit {0}) → Next
  falls_back : ℕ → Reader → Next
  session : Bytes → MemoryUser → Reader → Next

fallback_to : Option ℕ → Reader → Next
fallback_to none r = returns (err fallback_not_configured)
fallback_to (some dest) r =
    if dest == 0 then returns (err fallback_not_configured) else falls_back dest r

unfoldable pub handle_fallback : Handler → Reader → Next
unfolding fallback_to
handle_fallback h r = fallback_to h.fallback r

abbrev pub Processed : Type 0
Processed = Handler × (Writer × Next)

module _ (c : Crypto) (http : HttpCodec) (kx : KeyExchange) where
  -- Nonce, then the policy sealed under it.
  unfoldable pub encrypt_policy_grant : Bytes → Option Bytes → Bytes → Option Bytes
  encrypt_policy_grant key none policy = none
  encrypt_policy_grant key (some nonce) policy =
      if length key == key_size then some (nonce ++ c.seal key nonce policy) else none

  -- An error page; whether it could be written does not matter.
  refuse : Handler → Reader → Writer → Processed
  refuse h r w = (h, ((write w (http_error http 403)).0, handle_fallback h r))

  give_up : Handler → Writer → Error → Processed
  give_up h w e = (h, ((write w (http_error http 500)).0, returns (err e)))

  answer : Handler → Reader → Bytes → MemoryUser → Writer × Result IoError (Unit {0}) → Processed
  answer h r key user (w, err e) = (h, (w, returns (err (io e))))
  answer h r key user (w, ok u) = (h, (w, session key user r))

  -- The stages behind the two guards, in the order of the code.
  grant_stage : Handler → Reader → Writer → Bytes → Bytes → MemoryUser → Option Bytes → Processed
  unfolding give_up answer
  grant_stage h r w pub_key key user none = give_up h w grant_failed
  grant_stage h r w pub_key key user (some grant) =
      answer h r key user
        (write w (handshake_response http (record { public_key = pub_key; policy_grant = grant })))

  user_stage : Env → Handler → Reader → Writer → Bytes → Bytes → Option MemoryUser → Processed
  unfolding refuse grant_stage
  user_stage env h r w pub_key key none = refuse h r w
  user_stage env h r w pub_key key (some user) =
      grant_stage h r w pub_key key user
        (encrypt_policy_grant key env.grant_nonce (user_policy (some user)))

  key_stage : Env → Handler → Reader → Writer → ClientHandshake → Bytes → Option Bytes → Processed
  unfolding give_up user_stage
  key_stage env h r w hs pub_key none = give_up h w session_key_failed
  key_stage env h r w hs pub_key (some key) =
      user_stage env h r w pub_key key (authenticate_user h.clients hs.user_id)

  shared_stage :
      Env → Handler → Reader → Writer → ClientHandshake → Bytes → Option Bytes → Processed
  unfolding refuse key_stage
  shared_stage env h r w hs pub_key none = refuse h r w
  shared_stage env h r w hs pub_key (some shared) =
      key_stage env h r w hs pub_key (kx.hkdf shared hs.nonce)

  pair_stage :
      Env → Handler → Reader → Writer → ClientHandshake → Option (Bytes × Bytes) → Processed
  unfolding give_up shared_stage
  pair_stage env h r w hs none = give_up h w key_generation_failed
  pair_stage env h r w hs (some (private, pub_key)) =
      shared_stage env h r w hs pub_key (kx.ecdh private hs.public_key)

  nonce_stage : Env → Handler → Reader → Writer → ClientHandshake → NonceTable × Bool → Processed
  unfolding refuse pair_stage
  nonce_stage env h r w hs (table, false) = refuse (record h { seen_nonces = table }) r w
  nonce_stage env h r w hs (table, true) =
      pair_stage env (record h { seen_nonces = table }) r w hs env.key_pair

  unfoldable pub process_handshake : Env → Handler → Reader → Writer → ClientHandshake → Processed
  unfolding refuse nonce_stage
  process_handshake env h r w hs =
      if validate_handshake_timestamp env.validated_at hs.timestamp
      then nonce_stage env h r w hs
          (check_and_store_nonce h.nonce_lifetime env.checked_at hs.nonce h.seen_nonces)
      else refuse h r w
