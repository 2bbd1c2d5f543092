-- ===== src/Kcp/Timing.antt =====
-- transport/internet/kcp/connection.go, `RoundTripInfo`: the estimate of the round trip, and the timeout
-- for sending again. Times are uint32 numbers of milliseconds.
pub mod Bounds
use reflex.Prelude.{ℕ, ◌+◌, ◌-◌, ◌*◌, ◌/◌, ◌%◌, ◌^◌, Bool, true, false, ltb, ◌==◌, if◌then◌else◌}
use reflex.Kcp.Words.{add32, sub32, mul32}

pub record RoundTripInfo : Type 0 where
  pub variation : ℕ
  pub srtt : ℕ
  pub rto : ℕ
  pub min_rtt : ℕ
  pub updated_timestamp : ℕ

unfoldable pub update_peer_rto : ℕ → ℕ → RoundTripInfo → RoundTripInfo
update_peer_rto rto current info =
    if ltb (sub32 current info.updated_timestamp) 3000
    then info
    else record info { rto = rto; updated_timestamp = current }

-- The mean deviation and the smoothed time with one more sample.
smoothed : ℕ → RoundTripInfo → RoundTripInfo
smoothed rtt info =
    if info.srtt == 0
    then record info { srtt = rtt; variation = rtt / 2 }
    else let delta = if ltb rtt info.srtt then sub32 info.srtt rtt else sub32 rtt info.srtt in
      let srtt = add32 (mul32 7 info.srtt) rtt / 8 in
      record info {
        variation = add32 (mul32 3 info.variation) delta / 4;
        srtt = if ltb srtt info.min_rtt then info.min_rtt else srtt;
      }

timeout_of : RoundTripInfo → ℕ
timeout_of info =
    if ltb info.min_rtt (mul32 4 info.variation)
    then add32 info.srtt (mul32 4 info.variation)
    else add32 info.srtt info.variation

with_timeout : ℕ → RoundTripInfo → RoundTripInfo
with_timeout current info = record info {
  rto = mul32 (if ltb 10000 (timeout_of info) then 10000 else timeout_of info) 5 / 4;
  updated_timestamp = current;
}

unfoldable pub update : ℕ → ℕ → RoundTripInfo → RoundTripInfo
unfolding with_timeout timeout_of smoothed
update rtt current info =
    if ltb 0x7FFFFFFF rtt then info else with_timeout current (smoothed rtt info)
