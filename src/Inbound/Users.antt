-- ===== src/Inbound/Users.antt =====
-- The users that a configuration makes, and how a handshake finds them.
use reflex.Prelude.{
  ◌≡◌, ◌≢◌, refl, Bool-cases, inl, inr, none, some, List, [], ◌∷◌, ◌++◌, length, All, ◌==◌,
}
use reflex.Prelude.Bytes.{Bytes, bytes_eq, bytes_eq_refl, bytes_eq→eq}
use reflex.Uuid.{parse_bytes, uuid_string}
use reflex.Inbound.{
  memory_account, InboundConfig, new_handler, users, authenticate_user, find_parsed, find_user,
  has_id,
}

find_user-users :
    (uid policy : Bytes) (before after : List (Bytes × Bytes))
    → All (λ client. client.0 ≢ uid) before
    → find_user uid (users (before ++ ((uid, policy) ∷ after)))
      ≡ some (record { email = uid; account = memory_account uid policy })
unfolding find_user users has_id
find_user-users uid policy [] after others = rw (bytes_eq_refl uid) refl
find_user-users uid policy ((id, p) ∷ before) after (other, others) =
    elim (Bool-cases (bytes_eq id uid)) [
      | inl same ↦ absurd (other (bytes_eq→eq id uid same))
      | inr differs ↦ rw differs (find_user-users uid policy before after others)
    ]

-- A handshake with the sixteen bytes of a configured id finds the first client of that id, with its
-- policy.
pub authenticate_user-configured :
    (config : InboundConfig) (user_id policy : Bytes) (before after : List (Bytes × Bytes))
    → length user_id ≡ 16
    → config.clients ≡ before ++ ((uuid_string user_id, policy) ∷ after)
    → All (λ client. client.0 ≢ uuid_string user_id) before
    → authenticate_user (new_handler config).clients user_id
      ≡ some (record {
        email = uuid_string user_id;
        account = memory_account (uuid_string user_id) policy;
      })
unfolding authenticate_user new_handler parse_bytes find_parsed
authenticate_user-configured config user_id policy before after size configured others =
    rw (size, configured) (find_user-users (uuid_string user_id) policy before after others)

find_user-none :
    (uid : Bytes) (clients : List (Bytes × Bytes))
    → All (λ client. client.0 ≢ uid) clients
    → find_user uid (users clients) ≡ none
unfolding find_user users has_id
find_user-none uid [] others = refl
find_user-none uid ((id, p) ∷ clients) (other, others) = elim (Bool-cases (bytes_eq id uid)) [
  | inl same ↦ absurd (other (bytes_eq→eq id uid same))
  | inr differs ↦ rw differs (find_user-none uid clients others)
]

-- An id that no client of the configuration has finds no user.
pub authenticate_user-unknown :
    (config : InboundConfig) (user_id : Bytes)
    → All (λ client. client.0 ≢ uuid_string user_id) config.clients
    → authenticate_user (new_handler config).clients user_id ≡ none
unfolding authenticate_user new_handler parse_bytes find_parsed
authenticate_user-unknown config user_id others = elim (Bool-cases (length user_id == 16)) [
  | inl size ↦ rw size (find_user-none (uuid_string user_id) config.clients others)
  | inr size ↦ rw size refl
]
