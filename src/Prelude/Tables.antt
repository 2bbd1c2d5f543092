-- ===== src/Prelude/Tables.antt =====
-- Facts about small numbers by evaluation of every case.
use Prim.Native.Nat.{ℕ, zero, suc, ◌+◌, ◌<◌}
use mathlib.Core.Path.{◌≡◌}
use mathlib.Core.Bool.{Bool, true, ◌&&◌}
use native.Mathlib.Omega.{arith}
use native.Mathlib.Nat.{add-zero, add-suc, suc-add}

-- The test passes at `k` numbers, from `start` upwards.
unfoldable pub passes : (test : ℕ → Bool) → (start k : ℕ) → Bool
passes test start zero = true
passes test start (suc k) = test start && passes test (suc start) k

pub passes→test :
    (test : ℕ → Bool) (k start i : ℕ) → i < k → passes test start k ≡ true → test (start + i) ≡ true
unfolding passes
passes→test test zero start i below all = absurd (omega arith)
passes→test test (suc k) start zero below all = rw (add-zero start) (ground arith)
passes→test test (suc k) start (suc i) below all =
    rw (add-suc start i, ← suc-add start i)
      (passes→test test k (suc start) i (omega arith) (ground arith))
