-- ===== src/Kcp/Words.antt =====
-- Go's uint32 arithmetic, which wraps around.
use reflex.Prelude.{ℕ, ◌+◌, ◌-◌, ◌*◌, ◌%◌, ◌^◌}

abbrev pub add32 : ℕ → ℕ → ℕ
add32 a b = (a + b) % 2 ^ 32

-- For two numbers below 2 ^ 32.
abbrev pub sub32 : ℕ → ℕ → ℕ
sub32 a b = (a + 2 ^ 32 - b) % 2 ^ 32

abbrev pub mul32 : ℕ → ℕ → ℕ
mul32 a b = (a * b) % 2 ^ 32
