-- ===== src/Nonces/Freshness.antt =====
-- A nonce is taken once in its lifetime, and a handshake cannot outlive its nonce.
use reflex.Prelude.{
  ℕ, ◌+◌, ◌*◌, ◌/◌, ◌≤◌, ◌≡◌, refl, ap, inl, inr, Bool, true, false, Option, none, some, List, [],
  ◌∷◌, All, arith, Bool-cases,
}
use reflex.Prelude.Bytes.{Bytes, bytes_eq, bytes_eq_refl, bytes_eq→eq}
use reflex.Prelude.Int.{ℤ}
use reflex.Nonces.{
  NonceTable, second, handshake_skew, seen_at, cleanup_expired_nonces, check_and_store_nonce,
  store_nonce, validate_handshake_timestamp,
}

seen_at-cleanup :
    (lifetime now ts : ℕ) (n : Bytes) (table : NonceTable)
    → seen_at n table ≡ some ts
    → now ≤ ts + lifetime / second
    → seen_at n (cleanup_expired_nonces lifetime now table) ≡ some ts
unfolding seen_at cleanup_expired_nonces
seen_at-cleanup lifetime now ts n [] e h = cc
seen_at-cleanup lifetime now ts n ((k, t) ∷ table) e h =
    ground (arith, seen_at-cleanup lifetime now ts n table)

-- A nonce in its lifetime is refused, and stays in the table.
pub check_and_store_nonce_seen :
    (lifetime clock ts : ℕ) (n : Bytes) (table : NonceTable)
    → seen_at n table ≡ some ts
    → clock / second ≤ ts + lifetime / second
    → check_and_store_nonce lifetime clock n table
      ≡ (cleanup_expired_nonces lifetime (clock / second) table, false)
unfolding check_and_store_nonce store_nonce
check_and_store_nonce_seen lifetime clock ts n table e h =
    rw (seen_at-cleanup lifetime (clock / second) ts n table e h)

-- A nonce that is taken stands in the table from then on.
pub check_and_store_nonce_taken :
    (lifetime clock : ℕ) (n : Bytes) (table : NonceTable)
    → (check_and_store_nonce lifetime clock n table).1 ≡ true
    → seen_at n (check_and_store_nonce lifetime clock n table).0 ≡ some (clock / second)
unfolding check_and_store_nonce store_nonce seen_at
check_and_store_nonce_taken lifetime clock n table e = ground (arith, bytes_eq_refl n)

store_nonce_keeps :
    (n m : Bytes) (ts now : ℕ) (table : NonceTable) (found : Option ℕ)
    → seen_at n table ≡ some ts
    → seen_at m table ≡ found
    → seen_at n (store_nonce m now table found).0 ≡ some ts
unfolding store_nonce seen_at
store_nonce_keeps n m ts now table (some t) e f = e
store_nonce_keeps n m ts now table none e f = elim (Bool-cases (bytes_eq m n)) [
  | inl same ↦ cc (ap (λ (k : Bytes). seen_at k table) (bytes_eq→eq m n same))
  | inr other ↦ rw other e
]

-- Another check leaves a nonce in its lifetime where it is.
pub check_and_store_nonce_keeps :
    (lifetime clock ts : ℕ) (n m : Bytes) (table : NonceTable)
    → seen_at n table ≡ some ts
    → clock / second ≤ ts + lifetime / second
    → seen_at n (check_and_store_nonce lifetime clock m table).0 ≡ some ts
unfolding check_and_store_nonce
check_and_store_nonce_keeps lifetime clock ts n m table e h =
    store_nonce_keeps n m ts (clock / second)
      (cleanup_expired_nonces lifetime (clock / second) table) _
      (seen_at-cleanup lifetime (clock / second) ts n table e h) refl

-- The table after a run of checks, each at its own time.
unfoldable pub after_checks : ℕ → List (ℕ × Bytes) → NonceTable → NonceTable
after_checks lifetime [] table = table
after_checks lifetime ((clock, n) ∷ checks) table =
    after_checks lifetime checks (check_and_store_nonce lifetime clock n table).0

after_checks_keeps :
    (lifetime ts : ℕ) (n : Bytes) (checks : List (ℕ × Bytes)) (table : NonceTable)
    → seen_at n table ≡ some ts
    → All (λ x. x.0 / second ≤ ts + lifetime / second) checks
    → seen_at n (after_checks lifetime checks table) ≡ some ts
unfolding after_checks
after_checks_keeps lifetime ts n [] table e h = e
after_checks_keeps lifetime ts n ((clock, m) ∷ checks) table e (h, hs) =
    after_checks_keeps lifetime ts n checks (check_and_store_nonce lifetime clock m table).0
      (check_and_store_nonce_keeps lifetime clock ts n m table e h) hs

-- A nonce that was taken is refused for the whole of its lifetime, whatever other nonces are checked
-- meanwhile.
pub check_and_store_nonce_once :
    (lifetime clock later : ℕ) (n : Bytes) (between : List (ℕ × Bytes)) (table : NonceTable)
    → (check_and_store_nonce lifetime clock n table).1 ≡ true
    → All (λ x. x.0 / second ≤ clock / second + lifetime / second) between
    → later / second ≤ clock / second + lifetime / second
    → (check_and_store_nonce lifetime later n
        (after_checks lifetime between (check_and_store_nonce lifetime clock n table).0)).1
      ≡ false
check_and_store_nonce_once lifetime clock later n between table e h k =
    ap (λ (x : NonceTable × Bool). x.1)
      (check_and_store_nonce_seen lifetime later (clock / second) n _
        (after_checks_keeps lifetime (clock / second) n between _
          (check_and_store_nonce_taken lifetime clock n table e) h)
        k)

-- The timestamps that pass at a time lie within five minutes of it, so that the times at which one
-- passes are at most ten minutes apart.
pub validate_handshake_timestamp_window :
    (now later : ℕ) (ts : ℤ)
    → validate_handshake_timestamp now ts ≡ true
    → validate_handshake_timestamp later ts ≡ true
    → later ≤ now + 2 * handshake_skew
unfolding validate_handshake_timestamp
validate_handshake_timestamp_window now later ts h k = ground arith
