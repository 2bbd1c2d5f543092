-- ===== src/Kcp/Timing/Bounds.antt =====
-- The estimate stays within bounds.
use reflex.Prelude.{ℕ, ◌≤◌, ◌<◌, ◌≡◌, refl, inl, inr, false, Bool-cases, ltb, ◌==◌, arith}
use reflex.Kcp.Timing.{RoundTripInfo, smoothed, timeout_of, with_timeout, update}

-- What holds of an estimate that has seen samples of less than 10 seconds.
pub record Settled (info : RoundTripInfo) : Type 0 where
  pub variation : info.variation < 10000
  pub srtt : info.srtt < 10000
  pub min_rtt : info.min_rtt < 10000

smoothed-Settled :
    (rtt : ℕ) (info : RoundTripInfo) → rtt < 10000 → Settled info → Settled (smoothed rtt info)
unfolding smoothed
smoothed-Settled rtt info h s = elim (Bool-cases (info.srtt == 0)) [
  | inl first ↦ rw first (record { variation = omega (arith, h); srtt = h; min_rtt = s.min_rtt })
  | inr more ↦ rw more (record {
    variation = ground (arith, h, s.srtt, s.variation);
    srtt = ground (arith, h, s.srtt, s.min_rtt);
    min_rtt = s.min_rtt;
  })
]

with_timeout_lem :
    (current : ℕ) (info : RoundTripInfo)
    → Settled info
    → (info.srtt ≤ (with_timeout current info).rto) × ((with_timeout current info).rto ≤ 12500)
unfolding with_timeout timeout_of
with_timeout_lem current info s =
    (ground (arith, s.srtt, s.variation, s.min_rtt), ground (arith, s.srtt, s.variation, s.min_rtt))

-- A sample of less than ten seconds keeps an estimate with times of less than ten seconds so, and
-- sets the timeout to at least the smoothed time and at most 12.5 seconds.
pub timeout_lem :
    (rtt current : ℕ) (info : RoundTripInfo)
    → rtt < 10000
    → Settled info
    → Settled (update rtt current info)
      × ((update rtt current info).srtt ≤ (update rtt current info).rto)
      × ((update rtt current info).rto ≤ 12500)
      × ((update rtt current info).updated_timestamp ≡ current)
unfolding update with_timeout
timeout_lem rtt current info h s =
    let settled = smoothed-Settled rtt info h s in
    let (low, high) = with_timeout_lem current (smoothed rtt info) settled in
    rw (small rtt h) (
      record { variation = settled.variation; srtt = settled.srtt; min_rtt = settled.min_rtt },
      low,
      high,
      refl,
    )
  where
    small : (rtt : ℕ) → rtt < 10000 → ltb 0x7FFFFFFF rtt ≡ false
    small rtt h = ground (arith, h)
