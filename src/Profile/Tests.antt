-- ===== src/Profile/Tests.antt =====
-- Draws from the built-in profiles, with an arithmetic on the bit patterns.
use reflex.Prelude.{◌≡◌, refl, arith}
use reflex.Prelude.Int.{pos}
use reflex.Profile.{youtube, get_delay, set_next_delay}
use reflex.Profile.Sample.{whole, zeros}
use reflex.Profile.Picks.{get_delay-set}

get_delay-set_example :
    get_delay whole (set_next_delay (pos 900) youtube) zeros ≡ (youtube, (pos 900, zeros))
get_delay-set_example = get_delay-set whole youtube zeros (pos 900) (omega arith) refl
