-- ===== src/Replay.antt =====
-- The replay memory of proxy/reflex/inbound/session.go: `rememberCiphertext` on the digest of a
-- ciphertext. `replaySeen` is a set of digests, `replayOrder` the same digests, oldest first.
pub mod Window
mod Tests
use reflex.Prelude.{
  ℕ, suc, ◌+◌, ◌-◌, Bool, true, false, List, [], ◌∷◌, ◌++◌, length, drop, ltb, if◌then◌else◌,
}
use reflex.Prelude.Bytes.{Bytes}
use reflex.Prelude.Keys.{mem, delete}

abbrev pub replay_window_size : ℕ
replay_window_size = 1000

pub record Replay : Type 0 where
  pub seen : List Bytes
  pub order : List Bytes

unfoldable pub new_replay : Replay
new_replay = record { seen = []; order = [] }

-- The oldest digest leaves when the window is over its size.
evict : List Bytes → List Bytes → Replay
evict seen [] = record { seen = seen; order = [] }
evict seen (old ∷ rest) = record { seen = delete old seen; order = rest }

unfoldable pub remember : Replay → Bytes → Replay × Bool
unfolding evict
remember r h =
    let order' = r.order ++ (h ∷ []) in
    if mem h r.seen
    then (r, false)
    else if ltb replay_window_size (length order')
    then (evict (h ∷ r.seen) order', true)
    else (record { seen = h ∷ r.seen; order = order' }, true)

-- The answers of `remember` to a run of digests.
unfoldable pub answers : Replay → List Bytes → List Bool
answers r [] = []
answers r (h ∷ hs) = (remember r h).1 ∷ answers (remember r h).0 hs

-- What the memory promises: a digest is refused exactly when it is one of the last thousand that
-- were accepted. `accepted` is the whole history, oldest first.
abbrev pub recent : List Bytes → List Bytes
recent accepted = drop (length accepted - replay_window_size) accepted

unfoldable pub sliding : List Bytes → List Bytes → List Bool
sliding accepted [] = []
sliding accepted (h ∷ hs) = elim (mem h (recent accepted)) [
  | true ↦ false ∷ sliding accepted hs
  | false ↦ true ∷ sliding (accepted ++ (h ∷ [])) hs
]
