-- ===== src/Base/Steps.antt =====
-- A state after one step for each item of a list, in its order.
use mathlib.Core.Path.{◌≡◌}
use mathlib.Core.List.{List, [], ◌∷◌}

abbrev pub Steps : {A S : Type 0} → (A → S → S → Type 0) → List A → S → S → Type 0
Steps step [] s s' = s ≡ s'
Steps {S = S} step (a ∷ rest) s s' = (m : S) × step a s m × Steps step rest m s'
