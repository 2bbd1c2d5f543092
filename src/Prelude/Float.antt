-- ===== src/Prelude/Float.antt =====
-- Go's float64 arithmetic is the processor's, so it is a parameter: a float64 is its bit pattern, and
-- the operations that the code uses are the fields of a record. `math/rand` is a stream of such.
use Prim.Native.Nat.{ℕ, ◌+◌}
use mathlib.Core.Bool.{Bool}

abbrev pub Float64 : Type 0
Float64 = ℕ

-- `le` and `lt` are the comparisons, `of_int` is `float64(n)` for an `n` that is not negative.
pub record FloatOps : Type 0 where
  pub add : Float64 → Float64 → Float64
  pub sub : Float64 → Float64 → Float64
  pub div : Float64 → Float64 → Float64
  pub neg : Float64 → Float64
  pub le : Float64 → Float64 → Bool
  pub lt : Float64 → Float64 → Bool
  pub of_int : ℕ → Float64

-- The bit patterns of 0.0 and 1.0.
abbrev pub float_zero : Float64
float_zero = 0

abbrev pub float_one : Float64
float_one = 0x3ff0000000000000

-- The process-wide random source: what it will return, and how much of that is used up.
pub record Rand : Type 0 where
  pub draw : ℕ → Float64
  pub used : ℕ

-- `rand.Float64()`.
abbrev pub float64 : Rand → Float64
float64 r = r.draw r.used

abbrev pub advance : Rand → Rand
advance r = record r { used = r.used + 1 }
