-- ===== src/Prelude/Xor.antt =====
-- Exclusive or of numbers, digit by digit.
use Prim.Native.Nat.{
  ℕ, zero, suc, ◌+◌, ◌*◌, ◌/◌, ◌%◌, ◌≤◌, ◌<◌, bit_xor, bit_xor-bitwise, digits, differ,
}
use mathlib.Core.Path.{◌≡◌, refl, sym, ap, ◌∙◌}
use native.Mathlib.Omega.{arith}

-- `bit_xor` with any count of digits to go.
abbrev xor_in : ℕ → ℕ → ℕ → ℕ
xor_in count x y = digits (λ y. y) differ count x y

-- More digits than the first number has make no difference.
xor_in-enough : (x y count : ℕ) → x ≤ count → xor_in count x y ≡ bit_xor x y
xor_in-enough x y count h = same count x x y h (omega arith) ∙ sym (bit_xor-bitwise x y)
  where
    same : (k l x y : ℕ) → x ≤ k → x ≤ l → xor_in k x y ≡ xor_in l x y
    same zero zero x y hk hl = refl
    same zero (suc l) zero y hk hl = refl
    same zero (suc l) (suc x) y hk hl = absurd (omega arith)
    same (suc k) zero zero y hk hl = refl
    same (suc k) zero (suc x) y hk hl = absurd (omega arith)
    same (suc k) (suc l) zero y hk hl = refl
    same (suc k) (suc l) (suc x) y hk hl =
        omega (arith, same k l (suc x / 2) (y / 2) (omega arith) (omega arith))

zero-bit_xor : (y : ℕ) → bit_xor 0 y ≡ y
zero-bit_xor y = bit_xor-bitwise 0 y

differ_twice : (x y : ℕ) → x < 2 → y < 2 → differ (differ x y) y ≡ x
differ_twice zero zero hx hy = refl
differ_twice zero (suc zero) hx hy = refl
differ_twice (suc zero) zero hx hy = refl
differ_twice (suc zero) (suc zero) hx hy = refl
differ_twice (suc (suc x)) y hx hy = absurd (omega arith)
differ_twice zero (suc (suc y)) hx hy = absurd (omega arith)
differ_twice (suc zero) (suc (suc y)) hx hy = absurd (omega arith)

differ-lt : (x y : ℕ) → x < 2 → y < 2 → differ x y < 2
differ-lt zero y hx hy = hy
differ-lt (suc zero) zero hx hy = hx
differ-lt (suc zero) (suc zero) hx hy = omega arith
differ-lt (suc zero) (suc (suc y)) hx hy = absurd (omega arith)
differ-lt (suc (suc x)) y hx hy = absurd (omega arith)

pub bit_xor_halves : (x y : ℕ) → bit_xor x y ≡ bit_xor (x / 2) (y / 2) * 2 + differ (x % 2) (y % 2)
bit_xor_halves zero y = omega (arith, zero-bit_xor y, zero-bit_xor (y / 2))
bit_xor_halves (suc x) y =
    omega (arith, bit_xor-bitwise (suc x) y, xor_in-enough (suc x / 2) (y / 2) x (omega arith))

cancel : (count x y : ℕ) → x ≤ count → y ≤ count → bit_xor (bit_xor x y) y ≡ x
cancel zero zero zero hx hy = refl
cancel zero zero (suc y) hx hy = absurd (omega arith)
cancel zero (suc x) y hx hy = absurd (omega arith)
cancel (suc count) x y hx hy =
    bit_xor_halves (bit_xor x y) y
    ∙ ap (λ (z : ℕ). bit_xor (z / 2) (y / 2) * 2 + differ (z % 2) (y % 2)) (bit_xor_halves x y)
    ∙ rw
        (
          high (bit_xor (x / 2) (y / 2)) (differ (x % 2) (y % 2)) digit,
          low (bit_xor (x / 2) (y / 2)) (differ (x % 2) (y % 2)) digit,
          cancel count (x / 2) (y / 2) (omega arith) (omega arith),
          differ_twice (x % 2) (y % 2) (omega arith) (omega arith),
        )
        (omega arith)
  where
    digit : differ (x % 2) (y % 2) < 2
    digit = differ-lt (x % 2) (y % 2) (omega arith) (omega arith)

    high : (a d : ℕ) → d < 2 → (a * 2 + d) / 2 ≡ a
    high a d h = omega arith

    low : (a d : ℕ) → d < 2 → (a * 2 + d) % 2 ≡ d
    low a d h = omega arith

-- What was combined with a number comes back by combining it again.
pub bit_xor_cancel : (x y : ℕ) → bit_xor (bit_xor x y) y ≡ x
bit_xor_cancel x y = cancel (x + y) x y (omega arith) (omega arith)
