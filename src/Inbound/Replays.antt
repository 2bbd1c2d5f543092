-- ===== src/Inbound/Replays.antt =====
-- A handshake that is sent again, to the same handler and with other handshakes in between.
use reflex.Prelude.{
  ℕ, ◌+◌, ◌*◌, ◌/◌, ◌≤◌, ◌≡◌, ◌≢◌, ap, ◌∙◌, ◌⊎◌, inl, inr, Bool, true, some, List, [], ◌∷◌, All,
  arith,
}
use reflex.Prelude.Bytes.{Bytes}
use reflex.Prelude.Int.{ℤ}
use reflex.Io.{Reader, Writer}
use reflex.Crypto.{Crypto}
use reflex.Handshake.{ClientHandshake}
use reflex.Nonces.{
  NonceTable, second, default_nonce_lifetime, handshake_skew, seen_at, validate_handshake_timestamp,
}
use reflex.Nonces.Freshness.{
  check_and_store_nonce_seen, check_and_store_nonce_taken, check_and_store_nonce_keeps,
  validate_handshake_timestamp_window,
}
use reflex.Inbound.{Handler, MemoryUser, KeyExchange, Env, session, process_handshake}
use reflex.Inbound.Http.{HttpCodec}
use reflex.Inbound.Safety.{process_handshake-Admitted}
use reflex.Inbound.Effects.{checked, process_handshake-handler, process_handshake-nonces}

-- A handshake that arrives, on a connection of its own.
pub record Attempt : Type 0 where
  pub env : Env
  pub reader : Reader
  pub writer : Writer
  pub handshake : ClientHandshake

module _ (c : Crypto) (http : HttpCodec) (kx : KeyExchange) where
  -- The handler after a run of handshakes.
  unfoldable pub after_attempts : Handler → List Attempt → Handler
  after_attempts h [] = h
  after_attempts h (a ∷ rest) =
      after_attempts (process_handshake c http kx a.env h a.reader a.writer a.handshake).0 rest

  kept :
      (ts lifetime : ℕ) (n : Bytes) (env : Env) (h : Handler) (hs : ClientHandshake)
      (after : Handler)
      → (after ≡ h) ⊎ (after ≡ record h { seen_nonces = (checked c http kx env h hs).0 })
      → (seen_at n h.seen_nonces ≡ some ts) × (h.nonce_lifetime ≡ lifetime)
      → env.checked_at / second ≤ ts + lifetime / second
      → (seen_at n after.seen_nonces ≡ some ts) × (after.nonce_lifetime ≡ lifetime)
  kept ts lifetime n env h hs after (inl same) (e, l) in_time = (rw same e, rw same l)
  kept ts lifetime n env h hs after (inr stored) (e, l) in_time = (
    rw stored (
        check_and_store_nonce_keeps h.nonce_lifetime env.checked_at ts n hs.nonce h.seen_nonces e
          (rw l in_time)),
    rw stored l,
  )

  after_attempts-kept :
      (ts lifetime : ℕ) (n : Bytes) (between : List Attempt) (h : Handler)
      → (seen_at n h.seen_nonces ≡ some ts) × (h.nonce_lifetime ≡ lifetime)
      → All (λ a. a.env.checked_at / second ≤ ts + lifetime / second) between
      → (seen_at n (after_attempts h between).seen_nonces ≡ some ts)
        × ((after_attempts h between).nonce_lifetime ≡ lifetime)
  unfolding after_attempts
  after_attempts-kept ts lifetime n [] h known in_time = known
  after_attempts-kept ts lifetime n (a ∷ rest) h known (now, later) =
      after_attempts-kept ts lifetime n rest
        (process_handshake c http kx a.env h a.reader a.writer a.handshake).0
        (kept ts lifetime n a.env h a.handshake _
          (process_handshake-handler c http kx a.env h a.reader a.writer a.handshake) known now)
        later

  -- The nonce of a handshake that started a session stands in the table behind it.
  taken :
      (env : Env) (h : Handler) (r r' : Reader) (w : Writer) (hs : ClientHandshake) (key : Bytes)
      (user : MemoryUser)
      → (process_handshake c http kx env h r w hs).1.1 ≡ session key user r'
      → (seen_at hs.nonce (process_handshake c http kx env h r w hs).0.seen_nonces
          ≡ some (env.checked_at / second))
        × ((process_handshake c http kx env h r w hs).0.nonce_lifetime ≡ h.nonce_lifetime)
  taken env h r r' w hs key user e =
      let checks = process_handshake-Admitted c http kx env h r r' w hs key user e in
      let stored = process_handshake-nonces c http kx env h r w hs checks.timely in
      (
        ap (λ (x : Handler). seen_at hs.nonce x.seen_nonces) stored
            ∙ check_and_store_nonce_taken h.nonce_lifetime env.checked_at hs.nonce h.seen_nonces
                checks.fresh,
        ap (λ (x : Handler). x.nonce_lifetime) stored,
      )

  -- The two clock readings of a handshake that passes lie in the same lifetime as those of the first.
  in_lifetime :
      (first again : Env) (ts : ℤ)
      → validate_handshake_timestamp first.validated_at ts ≡ true
      → validate_handshake_timestamp again.validated_at ts ≡ true
      → first.validated_at ≤ first.checked_at
      → again.checked_at ≤ again.validated_at + handshake_skew
      → again.checked_at / second ≤ first.checked_at / second + default_nonce_lifetime / second
  in_lifetime first again ts e f order soon =
      in_seconds first.validated_at first.checked_at again.validated_at again.checked_at
        (validate_handshake_timestamp_window first.validated_at again.validated_at ts e f) order
        soon
    where
      in_seconds :
          (v c v' c' : ℕ)
          → v' ≤ v + 2 * handshake_skew
          → v ≤ c
          → c' ≤ v' + handshake_skew
          → c' / second ≤ c / second + default_nonce_lifetime / second
      in_seconds v c v' c' h k l = omega arith

  -- A handshake whose nonce stands in the table starts no session in the lifetime of the nonce.
  known_refused :
      (a : Attempt) (h : Handler) (seen : ℕ) (key : Bytes) (user : MemoryUser) (r : Reader)
      → seen_at a.handshake.nonce h.seen_nonces ≡ some seen
      → (validate_handshake_timestamp a.env.validated_at a.handshake.timestamp ≡ true
          → a.env.checked_at / second ≤ seen + h.nonce_lifetime / second)
      → (process_handshake c http kx a.env h a.reader a.writer a.handshake).1.1 ≢ session key user r
  known_refused a h seen key user r e in_time started =
      let checks =
        process_handshake-Admitted c http kx a.env h a.reader r a.writer a.handshake key user
          started in
      let check =
        check_and_store_nonce_seen h.nonce_lifetime a.env.checked_at seen a.handshake.nonce
          h.seen_nonces e (in_time checks.timely) in
      let fresh = checks.fresh in cc (ap (λ (x : NonceTable × Bool). x.1) check)

  -- A handshake that has started a session starts no second one on the same handler, on whatever
  -- connections and behind whatever other handshakes it comes again: when its nonce and timestamp are
  -- those of the first, its timestamp is either too old or its nonce still in the table. The lifetime is
  -- the default; the nonce check of the first does not come before its timestamp check and that of the
  -- second at most five minutes behind it; and the checks in between do not lie beyond the lifetime.
  pub process_handshake-once :
      (h : Handler) (first again : Attempt) (between : List Attempt) (r r' : Reader)
      (key key' : Bytes) (user user' : MemoryUser)
      → h.nonce_lifetime ≡ default_nonce_lifetime
      → again.handshake.nonce ≡ first.handshake.nonce
      → again.handshake.timestamp ≡ first.handshake.timestamp
      → first.env.validated_at ≤ first.env.checked_at
      → again.env.checked_at ≤ again.env.validated_at + handshake_skew
      → All
          (λ a.
            a.env.checked_at / second
            ≤ first.env.checked_at / second + default_nonce_lifetime / second)
          between
      → (process_handshake c http kx first.env h first.reader first.writer first.handshake).1.1
        ≡ session key user r
      → (process_handshake c http kx again.env
          (after_attempts
            (process_handshake c http kx first.env h first.reader first.writer first.handshake).0
            between)
          again.reader
          again.writer
          again.handshake).1.1
        ≢ session key' user' r'
  process_handshake-once h first again between r r' key key' user user' default nonce ts order soon
        in_time started again_started =
      let checks =
        process_handshake-Admitted c http kx first.env h first.reader r first.writer first.handshake
          key user started in
      let stored = taken first.env h first.reader r first.writer first.handshake key user started in
      let known =
        after_attempts-kept (first.env.checked_at / second) default_nonce_lifetime
          first.handshake.nonce between _ (stored.0, stored.1 ∙ default) in_time in
      known_refused again _ (first.env.checked_at / second) key' user' r' (rw nonce known.0)
        (λ timely. rw known.1 (
          in_lifetime first.env again.env first.handshake.timestamp checks.timely (rw (← ts) timely)
            order soon))
        again_started
