-- ===== src/Nonces/Tests.antt =====
-- The nonce table at concrete times.
use reflex.Prelude.{ℕ, ◌*◌, ◌≡◌, refl, false, [], ◌∷◌, arith}
use reflex.Nonces.{second, check_and_store_nonce, seen_at, cleanup_expired_nonces}
use reflex.Nonces.Freshness.{check_and_store_nonce_once, after_checks}

abbrev lifetime : ℕ
lifetime = 900 * second

abbrev clock : ℕ
clock = 1000 * second

check_and_store_nonce_once_example :
    (check_and_store_nonce lifetime (1900 * second) (1 ∷ []) (
      after_checks lifetime
        ((1500 * second, 2 ∷ []) ∷ [])
        (check_and_store_nonce lifetime clock (1 ∷ []) []).0)).1
    ≡ false
check_and_store_nonce_once_example =
    check_and_store_nonce_once lifetime clock (1900 * second) (1 ∷ [])
      ((1500 * second, 2 ∷ []) ∷ []) []
      (unfold check_and_store_nonce seen_at cleanup_expired_nonces in refl) (omega arith)
      (omega arith)
