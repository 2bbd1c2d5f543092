-- ===== src/Profile/Picks.antt =====
-- What the profiles of morphing.go hand out: a bucket of the table, or an override, once.
use reflex.Prelude.{
  ◌≡◌, ◌≢◌, ◌+◌, sym, lt→ltb, inl, inr, refl, true, List, [], ◌∷◌, All, arith, Bool-cases,
}
use reflex.Prelude.Int.{ℤ, pos, pos_part, neg_part, ltb_ℤ, ◌≤ℤ◌, ◌<ℤ◌}
use reflex.Prelude.Float.{Float64, FloatOps, Rand, float64}
use reflex.Profile.{
  PacketSizeDist, DelayDist, TrafficProfile, pick_size, weighted_pick_size, pick_delay,
  weighted_pick_delay, get_packet_size, get_delay, set_next_packet_size, set_next_delay,
}

pick_size_holds :
    (P : ℤ → Type 0) (fl : FloatOps) (pick sum : Float64) (last : ℤ) (ds : List PacketSizeDist)
    → P last
    → All (λ d. P d.size) ds
    → P (pick_size fl pick sum last ds)
unfolding pick_size
pick_size_holds P fl pick sum last [] h hs = h
pick_size_holds P fl pick sum last (d ∷ ds) h (hd, hds) =
    elim (Bool-cases (fl.le pick (fl.add sum d.weight))) [
      | inl hit ↦ rw hit hd
      | inr miss ↦ rw miss (pick_size_holds P fl pick (fl.add sum d.weight) d.size ds hd hds)
    ]

-- Whatever the draw and the rounding, a size comes from the table: what holds of every size in a
-- table that is not empty holds of the size that is picked.
pub weighted_pick_size_holds :
    (P : ℤ → Type 0) (fl : FloatOps) (ds : List PacketSizeDist) (r : Rand)
    → ds ≢ []
    → All (λ d. P d.size) ds
    → P (weighted_pick_size fl ds r).0
unfolding weighted_pick_size pick_size
weighted_pick_size_holds P fl [] r some_size hs = absurd (some_size refl)
weighted_pick_size_holds P fl (d ∷ ds) r some_size (hd, hds) =
    elim (Bool-cases (fl.le (float64 r) (fl.add 0 d.weight))) [
      | inl hit ↦ rw hit hd
      | inr miss ↦ rw miss (pick_size_holds P fl (float64 r) (fl.add 0 d.weight) d.size ds hd hds)
    ]

pick_delay_holds :
    (P : ℤ → Type 0) (fl : FloatOps) (pick sum : Float64) (last : ℤ) (ds : List DelayDist)
    → P last
    → All (λ d. P d.delay) ds
    → P (pick_delay fl pick sum last ds)
unfolding pick_delay
pick_delay_holds P fl pick sum last [] h hs = h
pick_delay_holds P fl pick sum last (d ∷ ds) h (hd, hds) =
    elim (Bool-cases (fl.le pick (fl.add sum d.weight))) [
      | inl hit ↦ rw hit hd
      | inr miss ↦ rw miss (pick_delay_holds P fl pick (fl.add sum d.weight) d.delay ds hd hds)
    ]

pub weighted_pick_delay_holds :
    (P : ℤ → Type 0) (fl : FloatOps) (ds : List DelayDist) (r : Rand)
    → ds ≢ []
    → All (λ d. P d.delay) ds
    → P (weighted_pick_delay fl ds r).0
unfolding weighted_pick_delay pick_delay
weighted_pick_delay_holds P fl [] r some_delay hs = absurd (some_delay refl)
weighted_pick_delay_holds P fl (d ∷ ds) r some_delay (hd, hds) =
    elim (Bool-cases (fl.le (float64 r) (fl.add 0 d.weight))) [
      | inl hit ↦ rw hit hd
      | inr miss ↦ rw miss (pick_delay_holds P fl (float64 r) (fl.add 0 d.weight) d.delay ds hd hds)
    ]

-- No size of the profile, and no override, is over what the padding frame can name.
pub record Bounded (p : TrafficProfile) : Type 0 where
  pub sizes : All (λ d. d.size ≤ℤ pos 65535) p.packet_sizes
  pub next : p.next_packet_size ≤ℤ pos 65535

pick-bounded :
    (fl : FloatOps) (ds : List PacketSizeDist) (r : Rand)
    → All (λ d. d.size ≤ℤ pos 65535) ds
    → (weighted_pick_size fl ds r).0 ≤ℤ pos 65535
pick-bounded fl [] r h = unfold weighted_pick_size in omega arith
pick-bounded fl (d ∷ ds) r h =
    weighted_pick_size_holds (λ z. z ≤ℤ pos 65535) fl (d ∷ ds) r (λ e. cc) h

pub get_packet_size-Bounded :
    (fl : FloatOps) (p : TrafficProfile) (r : Rand)
    → Bounded p
    → Bounded (get_packet_size fl p r).0 × ((get_packet_size fl p r).1.0 ≤ℤ pos 65535)
unfolding get_packet_size
get_packet_size-Bounded fl p r b = elim (Bool-cases (ltb_ℤ (pos 0) p.next_packet_size)) [
  | inl set ↦ rw set (record { sizes = b.sizes; next = omega arith }, b.next)
  | inr unset ↦ rw unset (b, pick-bounded fl p.packet_sizes r b.sizes)
]

pub get_delay-Bounded :
    (fl : FloatOps) (p : TrafficProfile) (r : Rand) → Bounded p → Bounded (get_delay fl p r).0
unfolding get_delay
get_delay-Bounded fl p r b = elim (Bool-cases (ltb_ℤ (pos 0) p.next_delay)) [
  | inl set ↦ rw set (record { sizes = b.sizes; next = b.next })
  | inr unset ↦ rw unset b
]

-- An override comes out of the very next call, and the profile is then as it was before.
pub get_packet_size-set :
    (fl : FloatOps) (p : TrafficProfile) (r : Rand) (size : ℤ)
    → pos 0 <ℤ size
    → p.next_packet_size ≡ pos 0
    → get_packet_size fl (set_next_packet_size size p) r ≡ (p, (size, r))
unfolding get_packet_size set_next_packet_size
get_packet_size-set fl p r size h none_set =
    rw (positive, positive) (λ i. (record p { next_packet_size = sym none_set i }, (size, r)))
  where
    positive : ltb_ℤ (pos 0) size ≡ true
    positive = lt→ltb (0 + neg_part size) (pos_part size + 0) h

pub get_delay-set :
    (fl : FloatOps) (p : TrafficProfile) (r : Rand) (delay : ℤ)
    → pos 0 <ℤ delay
    → p.next_delay ≡ pos 0
    → get_delay fl (set_next_delay delay p) r ≡ (p, (delay, r))
unfolding get_delay set_next_delay
get_delay-set fl p r delay h none_set =
    rw (positive, positive) (λ i. (record p { next_delay = sym none_set i }, (delay, r)))
  where
    positive : ltb_ℤ (pos 0) delay ≡ true
    positive = lt→ltb (0 + neg_part delay) (pos_part delay + 0) h
