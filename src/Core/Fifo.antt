-- ===== src/Core/Fifo.antt =====
-- What src/core/ring_buffer.h promises: a first-in first-out queue of at most 256 items.
use netudp.Base.{Bool, true, false, ◌==◌, if◌then◌else◌, Option, some, none, List, [], ◌∷◌, ◌++◌}
use netudp.Base.Lists.{length}

module _ {ℓ} {A : Type ℓ} where
  unfoldable pub push : List A → A → Bool × List A
  push q v = if length q == 256 then (false, q) else (true, q ++ (v ∷ []))

  unfoldable pub pop : List A → Option A × List A
  pop [] = (none, [])
  pop (v ∷ q) = (some v, q)
