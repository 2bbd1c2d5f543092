-- ===== src/Config/Tests.antt =====
-- Settings at concrete inputs.
use reflex.Prelude.{if◌then◌else◌, ◌≡◌, refl, some, Option, [], ◌∷◌, replicate, arith}
use reflex.Prelude.Bytes.{Bytes, bytes_eq, codes}
use reflex.Prelude.Result.{ok, err}
use reflex.Uuid.{uuid_string, parse_string}
use reflex.Inbound.{InboundConfig, new_handler, authenticate_user, memory_account}
use reflex.Config.{
  ReflexUserConfig, ReflexInboundConfig, build_inbound, build_outbound, port_not_set,
}
use reflex.Config.Users.{id_of, build_inbound-authenticates}

abbrev uid : Bytes
uid = replicate 16 17

abbrev other_uid : Bytes
other_uid = replicate 16 34

-- The text `zoom` is read as one user, every other as another.
abbrev unmarshal : Bytes → Option ReflexUserConfig
unmarshal raw = some (record {
  id = uuid_string (if bytes_eq raw (codes "zoom") then uid else other_uid);
  policy = raw;
})

abbrev settings : ReflexInboundConfig
settings = record { clients = codes "youtube" ∷ codes "zoom" ∷ []; fallback = some 80 }

abbrev made : InboundConfig
made = record {
  clients = (uuid_string other_uid, codes "youtube") ∷ (uuid_string uid, codes "zoom") ∷ [];
  fallback = some 80;
}

config_made : build_inbound (λ x. x) unmarshal settings ≡ ok made
unfolding build_inbound uuid_string parse_string bytes_eq
config_made = refl

no_port :
    build_outbound (λ x. x) (record { address = some (codes "example.org"); port = 0; id = [] })
    ≡ err port_not_set
unfolding build_outbound
no_port = refl

build_inbound-authenticates_example :
    authenticate_user (new_handler made).clients uid
    ≡ some (record {
      email = uuid_string uid;
      account = memory_account (uuid_string uid) (codes "zoom");
    })
build_inbound-authenticates_example =
    build_inbound-authenticates (λ x. x) unmarshal settings made uid (codes "zoom")
      (record { id = uuid_string uid; policy = codes "zoom" }) (codes "youtube" ∷ []) [] config_made
      refl (unfold bytes_eq in refl) refl refl (omega arith)
      (unfold id_of uuid_string parse_string bytes_eq in ((λ e. cc), tt))
