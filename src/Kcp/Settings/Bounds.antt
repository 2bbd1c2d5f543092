-- ===== src/Kcp/Settings/Bounds.antt =====
-- The sizes that the settings give.
use reflex.Prelude.{
  ℕ, ◌*◌, ◌/◌, ◌%◌, ◌^◌, ◌≤◌, ◌<◌, ◌≡◌, refl, inl, inr, false, Bool-cases, some, ltb, ◌==◌,
  if◌then◌else◌, arith,
}
use native.Mathlib.Nat.{div-le_self, div-lt_iff_lt-mul, le-div_iff_mul-le}
use reflex.Kcp.Settings.{
  get_uplink_capacity_value, get_downlink_capacity_value, Config, get_mtu_value, get_tti_value, div,
  div_by, eight_at_least, in_flight_size, get_sending_in_flight_size, get_receiving_in_flight_size,
}

-- A size of a window of which two halves fit into 32 bits.
abbrev pub FitsWindow : ℕ → Type 0
FitsWindow n = (8 ≤ n) × (n < 2 ^ 31)

div_some : (a b : ℕ) → 0 < b → div a b ≡ some (a / b)
unfolding div
div_some a b h = rw (ne b h) refl
  where
    ne : (b : ℕ) → 0 < b → (b == 0) ≡ false
    ne b h = ground (arith, h)

at_least-FitsWindow : (n : ℕ) → n < 2 ^ 31 → FitsWindow (if ltb n 8 then 8 else n)
at_least-FitsWindow n h = elim (Bool-cases (ltb n 8)) [
  | inl low ↦ rw low (omega arith, omega arith)
  | inr high ↦ rw high (ground (arith, high), h)
]

div_shrinks : (a b c : ℕ) → a < 2 ^ 32 → 2 ≤ b → a / b / c < 2 ^ 31
div_shrinks a b c h two = omega (
  arith,
  div-le_self (a / b) c,
  (div-lt_iff_lt-mul {k = b} {x = a} {y = 2 ^ 31} (omega (arith, two))).1 (omega (arith, h, two)),
)

interval_pos : (t : ℕ) → 0 < t → t ≤ 1000 → 0 < 1000 / t
interval_pos t low high =
    omega (arith, (le-div_iff_mul-le {k = t} {x = 1} {y = 1000} low).1 (omega (arith, high)))

-- With packets of two bytes at least and an interval of 1 to 1000 ms a size in flight is defined.
in_flight_size-FitsWindow :
    (capacity : ℕ) (c : Config)
    → 2 ≤ get_mtu_value c
    → 0 < get_tti_value c
    → get_tti_value c ≤ 1000
    → (n : ℕ) × (in_flight_size capacity c ≡ some n) × FitsWindow n
unfolding in_flight_size div_by eight_at_least
in_flight_size-FitsWindow capacity c mtu low high =
    let total = capacity * 1024 * 1024 % 2 ^ 32 / get_mtu_value c in
    let per = 1000 / get_tti_value c in
    (
      (if ltb (total / per) 8 then 8 else total / per),
      rw
          (
            div_some (capacity * 1024 * 1024 % 2 ^ 32) (get_mtu_value c) (omega (arith, mtu)),
            div_some 1000 (get_tti_value c) low,
            div_some total per (interval_pos (get_tti_value c) low high),
          )
          refl,
      at_least-FitsWindow (total / per)
          (div_shrinks (capacity * 1024 * 1024 % 2 ^ 32) (get_mtu_value c) per (omega arith) mtu),
    )

-- With packets of two bytes at least and an interval of 1 to 1000 ms both sizes in flight are
-- defined and lie from 8 below 2^31, whatever the capacities.
pub in_flight_sizes-FitsWindow :
    (c : Config)
    → 2 ≤ get_mtu_value c
    → 0 < get_tti_value c
    → get_tti_value c ≤ 1000
    → ((n : ℕ) × (get_sending_in_flight_size c ≡ some n) × FitsWindow n)
      × ((n : ℕ) × (get_receiving_in_flight_size c ≡ some n) × FitsWindow n)
unfolding get_sending_in_flight_size get_receiving_in_flight_size
in_flight_sizes-FitsWindow c mtu low high = (
  in_flight_size-FitsWindow (get_uplink_capacity_value c) c mtu low high,
  in_flight_size-FitsWindow (get_downlink_capacity_value c) c mtu low high,
)
