-- ===== src/Base/Stream.antt =====
-- A goroutine that reads a channel and passes what it reads on, as a function of the turns that its
-- `select` statements took: what came, and whether the reader took the event before the context ended.
use mathlib.Core.Bool.{Bool, true, false}
use mathlib.Core.List.{List, [], ◌∷◌}

pub data Turn (R : Type 0) : Type 0 where
  cancelled : Turn R
  closed : Bool → Turn R
  arrived : R → Bool → Turn R

module _ {R E : Type 0} (convert : R → E) (disconnected : E) where
  -- The events that reach the reader; after the last one its channel is closed.
  unfoldable pub forward : List (Turn R) → List E
  forward [] = []
  forward (cancelled ∷ rest) = []
  forward (closed true ∷ rest) = disconnected ∷ []
  forward (closed false ∷ rest) = []
  forward (arrived raw true ∷ rest) = convert raw ∷ forward rest
  forward (arrived raw false ∷ rest) = []
