-- ===== src/MultiBuffer/Tests.antt =====
-- Lists of buffers at concrete inputs.
use reflex.Prelude.{[], ◌∷◌}
use reflex.MultiBuffer.{from_bytes, MultiBuffer}

abbrev two_buffers : MultiBuffer
two_buffers = from_bytes (1 ∷ 2 ∷ []) ∷ from_bytes (3 ∷ 4 ∷ 5 ∷ []) ∷ []
