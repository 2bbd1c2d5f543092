-- ===== src/Replay/Tests.antt =====
-- The replay memory on a short run of digests.
use reflex.Prelude.{◌≡◌, refl, true, false, List, [], ◌∷◌}
use reflex.Prelude.Bytes.{Bytes, bytes_eq}
use reflex.Prelude.Keys.{mem}
use reflex.Replay.{new_replay, remember, answers, sliding}
use reflex.Replay.Window.{answers-sliding}

abbrev digests : List Bytes
digests = (1 ∷ []) ∷ (2 ∷ []) ∷ (1 ∷ []) ∷ []

digests_answered : answers new_replay digests ≡ true ∷ true ∷ false ∷ []
unfolding answers remember mem new_replay bytes_eq
digests_answered = refl

answers-sliding_example : answers new_replay digests ≡ sliding [] digests
answers-sliding_example = answers-sliding digests
