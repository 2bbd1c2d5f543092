-- ===== src/Nonces.antt =====
-- proxy/reflex/inbound/handshake.go, the two guards against replayed handshakes: the timestamp and the
-- table of nonces. Clock readings are nanoseconds since 1970, and `Unix()` is the whole seconds of one.
pub mod Freshness
mod Tests
use reflex.Prelude.{
  ℕ, suc, ◌+◌, ◌*◌, ◌/◌, Bool, true, false, ◌||◌, Option, none, some, List, [], ◌∷◌, ltb,
  if◌then◌else◌,
}
use reflex.Prelude.Bytes.{Bytes, bytes_eq}
use reflex.Prelude.Int.{ℤ, pos, negsuc, pos_part, neg_part}

abbrev pub second : ℕ
second = 1000000000

-- Five minutes, and fifteen.
abbrev pub handshake_skew : ℕ
handshake_skew = 300 * second

abbrev pub default_nonce_lifetime : ℕ
default_nonce_lifetime = 900 * second

-- `t.Before(now.Add(-skew)) || t.After(now.Add(skew))` for `t` of `ts` seconds, with the negative
-- parts moved to the other side.
unfoldable pub validate_handshake_timestamp : ℕ → ℤ → Bool
validate_handshake_timestamp now ts =
    if ltb (pos_part ts * second + handshake_skew) (now + neg_part ts * second)
      || ltb (now + handshake_skew + neg_part ts * second) (pos_part ts * second)
    then false
    else true

-- The map `seenNonces`, from a nonce to the second in which it came.
abbrev pub NonceTable : Type 0
NonceTable = List (Bytes × ℕ)

unfoldable pub seen_at : Bytes → NonceTable → Option ℕ
seen_at n [] = none
seen_at n ((k, ts) ∷ table) = if bytes_eq k n then some ts else seen_at n table

-- `now - ts > lifetime`, in seconds.
unfoldable pub cleanup_expired_nonces : ℕ → ℕ → NonceTable → NonceTable
cleanup_expired_nonces lifetime now [] = []
cleanup_expired_nonces lifetime now ((k, ts) ∷ table) =
    if ltb (ts + lifetime / second) now
    then cleanup_expired_nonces lifetime now table
    else (k, ts) ∷ cleanup_expired_nonces lifetime now table

store_nonce : Bytes → ℕ → NonceTable → Option ℕ → NonceTable × Bool
store_nonce nonce now table (some ts) = (table, false)
store_nonce nonce now table none = ((nonce, now) ∷ table, true)

unfoldable pub check_and_store_nonce : ℕ → ℕ → Bytes → NonceTable → NonceTable × Bool
unfolding store_nonce
check_and_store_nonce lifetime clock nonce table =
    let now = clock / second in
    let table' = cleanup_expired_nonces lifetime now table in
    store_nonce nonce now table' (seen_at nonce table')
