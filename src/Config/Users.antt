-- ===== src/Config/Users.antt =====
-- A user of the JSON settings is a user of the handler, with its policy.
use reflex.Prelude.{
  ℕ, ◌≡◌, ◌≢◌, refl, ap, ◌∙◌, Option, none, some, List, [], ◌∷◌, ◌++◌, length, All, arith,
}
use reflex.Prelude.Bytes.{Bytes, IsByte}
use reflex.Prelude.Result.{Result, ok, err}
use reflex.Uuid.{UuidError, parse_string, uuid_string}
use reflex.Uuid.RoundTrip.{parse_string-uuid_string}
use reflex.Inbound.{InboundConfig, new_handler, authenticate_user, memory_account}
use reflex.Inbound.Users.{authenticate_user-configured}
use reflex.Config.{
  ReflexUserConfig, ReflexInboundConfig, BuildError, add_client, with_id, with_user, with_fallback,
  build_clients, build_inbound,
}

-- A client of this id and policy stands in the list, and those in front of it have other ids.
Listed : Bytes → Bytes → List (Bytes × Bytes) → Type 0
Listed uid policy clients =
    (before : List (Bytes × Bytes)) × (after : List (Bytes × Bytes)) × All
      (λ client. client.0 ≢ uid) before
    × (clients ≡ before ++ ((uid, policy) ∷ after))

prepended :
    (id policy : Bytes) (built later more : List (Bytes × Bytes))
    → later ≡ more
    → ◌≡◌ {A = Result BuildError (List (Bytes × Bytes))} (ok ((id, policy) ∷ later)) (ok built)
    → built ≡ (id, policy) ∷ more
prepended id policy built later more same h = ground arith

-- The text of a UUID that was read.
text_of : Result UuidError Bytes → Option Bytes
text_of (err e) = none
text_of (ok u) = some (uuid_string u)

add_client-Listed :
    (uid p id policy : Bytes) (built : List (Bytes × Bytes))
    (rest : Result BuildError (List (Bytes × Bytes)))
    → id ≢ uid
    → ((later : List (Bytes × Bytes)) → rest ≡ ok later → Listed uid p later)
    → add_client rest id policy ≡ ok built
    → Listed uid p built
unfolding add_client Listed
add_client-Listed uid p id policy built (err e) differs listed h = ground arith
add_client-Listed uid p id policy built (ok later) differs listed h =
    let (before, after, others, same) = listed later refl in
    ((id, policy) ∷ before, after, (differs, others), prepended id policy built later _ same h)

with_id-Listed :
    (uid p policy : Bytes) (id : Result UuidError Bytes) (built : List (Bytes × Bytes))
    (rest : Result BuildError (List (Bytes × Bytes)))
    → text_of id ≢ some uid
    → ((later : List (Bytes × Bytes)) → rest ≡ ok later → Listed uid p later)
    → with_id id policy rest ≡ ok built
    → Listed uid p built
unfolding with_id text_of
with_id-Listed uid p policy (err e) built rest differs listed h = ground arith
with_id-Listed uid p policy (ok u) built rest differs listed h =
    add_client-Listed uid p (uuid_string u) policy built rest (λ e. differs (ap some e)) listed h

with_id-first :
    (u policy : Bytes) (built : List (Bytes × Bytes))
    (rest : Result BuildError (List (Bytes × Bytes)))
    → with_id (ok u) policy rest ≡ ok built
    → Listed (uuid_string u) policy built
unfolding with_id add_client Listed
with_id-first u policy built (err e) h = ground arith
with_id-first u policy built (ok later) h =
    ([], later, tt, prepended (uuid_string u) policy built later later refl h)

module _ (sha1 : Bytes → Bytes) (unmarshal : Bytes → Option ReflexUserConfig) where
  id_from : Option ReflexUserConfig → Option Bytes
  unfolding text_of
  id_from none = none
  id_from (some user) = text_of (parse_string sha1 user.id)

  -- The id that one entry of the settings' clients has as a user of the handler, if it can be read.
  unfoldable pub id_of : Bytes → Option Bytes
  unfolding id_from
  id_of raw = id_from (unmarshal raw)

  with_user-Listed :
      (uid p : Bytes) (user : Option ReflexUserConfig) (built : List (Bytes × Bytes))
      (rest : Result BuildError (List (Bytes × Bytes)))
      → id_from user ≢ some uid
      → ((later : List (Bytes × Bytes)) → rest ≡ ok later → Listed uid p later)
      → with_user sha1 unmarshal user rest ≡ ok built
      → Listed uid p built
  unfolding with_user id_from
  with_user-Listed uid p none built rest differs listed h = ground arith
  with_user-Listed uid p (some user) built rest differs listed h =
      with_id-Listed uid p user.policy (parse_string sha1 user.id) built rest differs listed h

  build_clients-Listed :
      (u raw : Bytes) (user : ReflexUserConfig) (before after : List Bytes)
      (built : List (Bytes × Bytes))
      → unmarshal raw ≡ some user
      → parse_string sha1 user.id ≡ ok u
      → All (λ other. id_of other ≢ some (uuid_string u)) before
      → build_clients sha1 unmarshal (before ++ (raw ∷ after)) ≡ ok built
      → Listed (uuid_string u) user.policy built
  unfolding build_clients with_user id_of
  build_clients-Listed u raw user [] after built read parsed others h =
      with_id-first u user.policy built _ (rw (read, parsed) at h)
  build_clients-Listed u raw user (other ∷ before) after built read parsed (differs, others) h =
      with_user-Listed (uuid_string u) user.policy (unmarshal other) built _ differs
        (λ later same. build_clients-Listed u raw user before after later read parsed others same) h

  fallback_added :
      (fallback : Option ℕ) (clients : Result BuildError (List (Bytes × Bytes)))
      (built : InboundConfig)
      → with_fallback fallback clients ≡ ok built
      → clients ≡ ok built.clients
  unfolding with_fallback
  fallback_added fallback (err e) built h = ground arith
  fallback_added fallback (ok clients) built h = ground arith

  -- When the settings can be built, the handler made of them knows each of their users by its id: a
  -- handshake with the sixteen bytes of a UUID whose text is the id of a client finds the user of that
  -- id with that client's policy, when no client in front of it has the same id.
  pub build_inbound-authenticates :
      (config : ReflexInboundConfig) (built : InboundConfig) (u raw : Bytes)
      (user : ReflexUserConfig) (before after : List Bytes)
      → build_inbound sha1 unmarshal config ≡ ok built
      → config.clients ≡ before ++ (raw ∷ after)
      → unmarshal raw ≡ some user
      → user.id ≡ uuid_string u
      → length u ≡ 16
      → All IsByte u
      → All (λ other. id_of other ≢ some (uuid_string u)) before
      → authenticate_user (new_handler built).clients u
        ≡ some
            (record { email = uuid_string u; account = memory_account (uuid_string u) user.policy })
  unfolding build_inbound Listed
  build_inbound-authenticates config built u raw user before after h clients read text size bytes
        others =
      let (front, back, fronts, same) =
        build_clients-Listed u raw user before after built.clients read
          (ap (parse_string sha1) text ∙ parse_string-uuid_string sha1 u size bytes) others
          (rw clients at (fallback_added config.fallback _ built h)) in
      authenticate_user-configured built u user.policy front back size same fronts
