-- ===== src/Profile.antt =====
-- proxy/reflex/inbound/morphing.go, the traffic profiles: weighted buckets of packet sizes and
-- delays, and the one-shot overrides of the next size and the next delay.
pub mod Picks
pub mod Sample
mod Tests
use reflex.Prelude.{
  ℕ, suc, ◌+◌, Bool, true, false, Option, none, some, List, [], ◌∷◌, if◌then◌else◌, ◌*◌,
}
use reflex.Prelude.Bytes.{Bytes, bytes_eq, codes}
use reflex.Prelude.Int.{ℤ, pos, negsuc, ltb_ℤ}
use reflex.Prelude.Float.{Float64, FloatOps, Rand, float64, advance, float_zero}

pub record PacketSizeDist : Type 0 where
  pub size : ℤ
  pub weight : Float64

-- A delay is a `time.Duration`, in nanoseconds.
pub record DelayDist : Type 0 where
  pub delay : ℤ
  pub weight : Float64

pub record TrafficProfile : Type 0 where
  pub name : Bytes
  pub packet_sizes : List PacketSizeDist
  pub delays : List DelayDist
  pub next_packet_size : ℤ
  pub next_delay : ℤ

abbrev pub millisecond : ℕ
millisecond = 1000000

abbrev size_dist : ℕ → Float64 → PacketSizeDist
size_dist n w = record { size = pos n; weight = w }

abbrev delay_dist : ℕ → Float64 → DelayDist
delay_dist ms w = record { delay = pos (ms * millisecond); weight = w }

abbrev plain_profile : Bytes → List PacketSizeDist → List DelayDist → TrafficProfile
plain_profile name sizes delays = record {
  name = name;
  packet_sizes = sizes;
  delays = delays;
  next_packet_size = pos 0;
  next_delay = pos 0;
}

-- The float64 nearest to each weight that the tables write.
abbrev w10 : Float64
w10 = 0x3fb999999999999a

abbrev w15 : Float64
w15 = 0x3fc3333333333333

abbrev w20 : Float64
w20 = 0x3fc999999999999a

abbrev w25 : Float64
w25 = 0x3fd0000000000000

abbrev w30 : Float64
w30 = 0x3fd3333333333333

abbrev w35 : Float64
w35 = 0x3fd6666666666666

abbrev w40 : Float64
w40 = 0x3fd999999999999a

abbrev pub youtube : TrafficProfile
youtube =
    plain_profile (codes "youtube")
      (size_dist 1400 w35
        ∷ size_dist 1200 w25
        ∷ size_dist 1000 w20
        ∷ size_dist 800 w10
        ∷ size_dist 600 w10
        ∷ [])
      (delay_dist 8 w30
        ∷ delay_dist 12 w25
        ∷ delay_dist 16 w20
        ∷ delay_dist 20 w15
        ∷ delay_dist 30 w10
        ∷ [])

abbrev pub zoom : TrafficProfile
zoom =
    plain_profile (codes "zoom") (size_dist 500 w30 ∷ size_dist 600 w40 ∷ size_dist 700 w30 ∷ [])
      (delay_dist 30 w40 ∷ delay_dist 40 w40 ∷ delay_dist 50 w20 ∷ [])

abbrev pub http2_api : TrafficProfile
http2_api =
    plain_profile (codes "http2-api")
      (size_dist 200 w20 ∷ size_dist 500 w30 ∷ size_dist 1000 w30 ∷ size_dist 1400 w20 ∷ [])
      (delay_dist 5 w30 ∷ delay_dist 10 w40 ∷ delay_dist 15 w30 ∷ [])

abbrev pub mimic_http2_api : TrafficProfile
mimic_http2_api =
    plain_profile (codes "mimic-http2-api")
      (size_dist 200 w20 ∷ size_dist 500 w30 ∷ size_dist 1000 w30 ∷ size_dist 1400 w20 ∷ [])
      (delay_dist 5 w30 ∷ delay_dist 10 w40 ∷ delay_dist 15 w30 ∷ [])

-- The map `Profiles`.
unfoldable pub profiles : Bytes → Option TrafficProfile
profiles policy =
    if bytes_eq policy (codes "youtube")
    then some youtube
    else if bytes_eq policy (codes "zoom")
    then some zoom
    else if bytes_eq policy (codes "http2-api")
    then some http2_api
    else if bytes_eq policy (codes "mimic-http2-api")
    then some mimic_http2_api
    else none

-- A clone starts with no override.
unfoldable pub clone_profile : TrafficProfile → TrafficProfile
clone_profile p = plain_profile p.name p.packet_sizes p.delays

clone_found : Option TrafficProfile → TrafficProfile
unfolding clone_profile
clone_found (some p) = clone_profile p
clone_found none = clone_profile http2_api

unfoldable pub profile_from_policy : Bytes → TrafficProfile
unfolding profiles clone_found
profile_from_policy policy = clone_found (profiles policy)

-- The loop of `weightedPickSize`; `last` is `values[len(values)-1].Size` once the list is through.
pick_size : FloatOps → Float64 → Float64 → ℤ → List PacketSizeDist → ℤ
pick_size fl pick sum last [] = last
pick_size fl pick sum last (d ∷ ds) =
    let sum' = fl.add sum d.weight in
    let rest = pick_size fl pick sum' d.size ds in if fl.le pick sum' then d.size else rest

unfoldable pub weighted_pick_size : FloatOps → List PacketSizeDist → Rand → ℤ × Rand
unfolding pick_size
weighted_pick_size fl [] r = (pos 0, r)
weighted_pick_size fl (d ∷ ds) r = (pick_size fl (float64 r) float_zero (pos 0) (d ∷ ds), advance r)

pick_delay : FloatOps → Float64 → Float64 → ℤ → List DelayDist → ℤ
pick_delay fl pick sum last [] = last
pick_delay fl pick sum last (d ∷ ds) =
    let sum' = fl.add sum d.weight in
    let rest = pick_delay fl pick sum' d.delay ds in if fl.le pick sum' then d.delay else rest

unfoldable pub weighted_pick_delay : FloatOps → List DelayDist → Rand → ℤ × Rand
unfolding pick_delay
weighted_pick_delay fl [] r = (pos 0, r)
weighted_pick_delay fl (d ∷ ds) r =
    (pick_delay fl (float64 r) float_zero (pos 0) (d ∷ ds), advance r)

-- An override is used once.
unfoldable pub get_packet_size : FloatOps → TrafficProfile → Rand → TrafficProfile × (ℤ × Rand)
get_packet_size fl p r =
    if ltb_ℤ (pos 0) p.next_packet_size
    then (record p { next_packet_size = pos 0 }, (p.next_packet_size, r))
    else (p, weighted_pick_size fl p.packet_sizes r)

unfoldable pub get_delay : FloatOps → TrafficProfile → Rand → TrafficProfile × (ℤ × Rand)
get_delay fl p r =
    if ltb_ℤ (pos 0) p.next_delay
    then (record p { next_delay = pos 0 }, (p.next_delay, r))
    else (p, weighted_pick_delay fl p.delays r)

unfoldable pub set_next_packet_size : ℤ → TrafficProfile → TrafficProfile
set_next_packet_size size p = if ltb_ℤ (pos 0) size then record p { next_packet_size = size } else p

unfoldable pub set_next_delay : ℤ → TrafficProfile → TrafficProfile
set_next_delay delay p = if ltb_ℤ (pos 0) delay then record p { next_delay = delay } else p
