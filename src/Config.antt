-- ===== src/Config.antt =====
-- infra/conf/reflex.go, from the JSON settings to the handler's configuration. `json.Unmarshal` is a
-- parameter, as is the hash that makes a UUID of a short name.
pub mod Users
mod Tests
use reflex.Prelude.{ℕ, Option, none, some, List, [], ◌∷◌, if◌then◌else◌, ◌==◌}
use reflex.Prelude.Bytes.{Bytes}
use reflex.Prelude.Result.{Result, ok, err}
use reflex.Uuid.{UuidError, parse_string, uuid_string}
use reflex.Inbound.{InboundConfig}

pub record ReflexUserConfig : Type 0 where
  pub id : Bytes
  pub policy : Bytes

-- The clients are raw JSON texts.
pub record ReflexInboundConfig : Type 0 where
  pub clients : List Bytes
  pub fallback : Option ℕ

pub data BuildError : Type 0 where
  invalid_user address_not_set port_not_set : BuildError
  invalid_id : UuidError → BuildError

add_client :
    Result BuildError (List (Bytes × Bytes))
    → Bytes
    → Bytes
    → Result BuildError (List (Bytes × Bytes))
add_client (err e) id policy = err e
add_client (ok rest) id policy = ok ((id, policy) ∷ rest)

with_id :
    Result UuidError Bytes
    → Bytes
    → Result BuildError (List (Bytes × Bytes))
    → Result BuildError (List (Bytes × Bytes))
unfolding add_client
with_id (err e) policy rest = err (invalid_id e)
with_id (ok u) policy rest = add_client rest (uuid_string u) policy

with_fallback :
    Option ℕ → Result BuildError (List (Bytes × Bytes)) → Result BuildError InboundConfig
with_fallback fallback (err e) = err e
with_fallback fallback (ok clients) = ok (record { clients = clients; fallback = fallback })

module _ (sha1 : Bytes → Bytes) (unmarshal : Bytes → Option ReflexUserConfig) where
  with_user :
      Option ReflexUserConfig
      → Result BuildError (List (Bytes × Bytes))
      → Result BuildError (List (Bytes × Bytes))
  unfolding with_id
  with_user none rest = err invalid_user
  with_user (some user) rest = with_id (parse_string sha1 user.id) user.policy rest

  -- The first client that cannot be built gives the error.
  build_clients : List Bytes → Result BuildError (List (Bytes × Bytes))
  unfolding with_user
  build_clients [] = ok []
  build_clients (raw ∷ rest) = with_user (unmarshal raw) (build_clients rest)

  -- `(*ReflexInboundConfig).Build`.
  unfoldable pub build_inbound : ReflexInboundConfig → Result BuildError InboundConfig
  unfolding build_clients with_fallback
  build_inbound config = with_fallback config.fallback (build_clients config.clients)

-- `reflex.OutboundConfig`. The address is the text that `Address.String` gives.
pub record OutboundConfig : Type 0 where
  pub address : Bytes
  pub port : ℕ
  pub id : Bytes

pub record ReflexOutboundConfig : Type 0 where
  pub address : Option Bytes
  pub port : ℕ
  pub id : Bytes

with_outbound_id : Bytes → ℕ → Result UuidError Bytes → Result BuildError OutboundConfig
with_outbound_id address port (err e) = err (invalid_id e)
with_outbound_id address port (ok u) =
    ok (record { address = address; port = port; id = uuid_string u })

with_address : (Bytes → Bytes) → Option Bytes → ℕ → Bytes → Result BuildError OutboundConfig
unfolding with_outbound_id
with_address sha1 none port id = err address_not_set
with_address sha1 (some address) port id =
    if port == 0 then err port_not_set else with_outbound_id address port (parse_string sha1 id)

-- `(*ReflexOutboundConfig).Build`.
unfoldable pub build_outbound :
    (Bytes → Bytes) → ReflexOutboundConfig → Result BuildError OutboundConfig
unfolding with_address
build_outbound sha1 config = with_address sha1 config.address config.port config.id
