-- ===== src/Kcp/Settings.antt =====
-- transport/internet/kcp/config.go: the settings of a connection and the sizes of its windows. A field
-- that is a message is `none` where it is nil; the cipher's and the header's configuration stay out.
pub mod Bounds
use reflex.Prelude.{ℕ, ◌*◌, ◌/◌, ◌%◌, ◌^◌, Bool, Option, none, some, ltb, ◌==◌, if◌then◌else◌}

pub record Config : Type 0 where
  pub mtu : Option ℕ
  pub tti : Option ℕ
  pub uplink_capacity : Option ℕ
  pub downlink_capacity : Option ℕ
  pub congestion : Bool
  pub write_buffer : Option ℕ
  pub read_buffer : Option ℕ

or_else : ℕ → Option ℕ → ℕ
or_else default none = default
or_else default (some n) = n

unfoldable pub get_mtu_value : Config → ℕ
unfolding or_else
get_mtu_value c = or_else 1350 c.mtu

unfoldable pub get_tti_value : Config → ℕ
unfolding or_else
get_tti_value c = or_else 50 c.tti

get_uplink_capacity_value : Config → ℕ
unfolding or_else
get_uplink_capacity_value c = or_else 5 c.uplink_capacity

get_downlink_capacity_value : Config → ℕ
unfolding or_else
get_downlink_capacity_value c = or_else 20 c.downlink_capacity

get_write_buffer_size : Config → ℕ
unfolding or_else
get_write_buffer_size c = or_else (2 * 1024 * 1024) c.write_buffer

get_read_buffer_size : Config → ℕ
unfolding or_else
get_read_buffer_size c = or_else (2 * 1024 * 1024) c.read_buffer

-- A quotient. Go panics on a divisor 0.
div : ℕ → ℕ → Option ℕ
div a b = if b == 0 then none else some (a / b)

div_by : Option ℕ → Option ℕ → Option ℕ
unfolding div
div_by (some a) (some b) = div a b
div_by (some a) none = none
div_by none b = none

eight_at_least : Option ℕ → Option ℕ
eight_at_least none = none
eight_at_least (some size) = some (if ltb size 8 then 8 else size)

-- The segments that a capacity in MB/s lets out in one interval.
in_flight_size : ℕ → Config → Option ℕ
unfolding eight_at_least div_by
in_flight_size capacity c =
    eight_at_least (
      div_by (div (capacity * 1024 * 1024 % 2 ^ 32) (get_mtu_value c)) (div 1000 (get_tti_value c)))

unfoldable pub get_sending_in_flight_size : Config → Option ℕ
unfolding in_flight_size get_uplink_capacity_value
get_sending_in_flight_size c = in_flight_size (get_uplink_capacity_value c) c

unfoldable pub get_receiving_in_flight_size : Config → Option ℕ
unfolding in_flight_size get_downlink_capacity_value
get_receiving_in_flight_size c = in_flight_size (get_downlink_capacity_value c) c

unfoldable pub get_sending_buffer_size : Config → Option ℕ
unfolding div get_write_buffer_size
get_sending_buffer_size c = div (get_write_buffer_size c) (get_mtu_value c)

unfoldable pub get_receiving_buffer_size : Config → Option ℕ
unfolding div get_read_buffer_size
get_receiving_buffer_size c = div (get_read_buffer_size c) (get_mtu_value c)
