-- ===== src/Profile/Sample.antt =====
-- For the concrete runs: an arithmetic in which a float64 is a whole number, and a random source of
-- zeros.
use reflex.Prelude.{◌+◌, ◌-◌, leb, ltb}
use reflex.Prelude.Float.{FloatOps, Rand}

abbrev pub whole : FloatOps
whole = record {
  add = λ a b. a + b;
  sub = λ a b. a - b;
  div = λ a b. a;
  neg = λ a. a;
  le = leb;
  lt = ltb;
  of_int = λ n. n;
}

abbrev pub zeros : Rand
zeros = record { draw = λ n. 0; used = 0 }
